-- ===== src/Hub.antt =====
-- crates/gn-drive-core/src/runtime_hub.rs: the projection of the bus events onto the flows. The clock's
-- reading is an argument.
pub mod Logs
pub mod Bounds
mod Tests
use gn_drive.Common.{
  ℕ, zero, suc, ◌+◌, ◌-◌, String, Bool, true, false, ◌&&◌, ◌||◌, not, Option, none, some, List, [],
  ◌∷◌, ◌++◌, Dict, lookup, insert, remove, ◌==◌, nat_eq, string_eq, length, drop, last?, any,
  if◌then◌else◌,
}
use gn_drive.Bus.{
  BusEvent, RuntimeLogEntry, SyncProgressEvent, FlowExecutionEvent, sync_started, sync_progress,
  sync_failed, sync_completed, flow_execution,
}
use Prim.Native.Char.{code}
use Prim.Native.String.{◌++◌ as str_append}

abbrev pub max_log : ℕ
max_log = 40

pub record OpRuntime : Type 0 where
  pub status : String
  pub last_error : String

pub record FlowRuntime : Type 0 where
  pub status : String
  pub last_error : String
  pub ops : Dict OpRuntime
  pub sync : Option SyncProgressEvent
  pub log : List RuntimeLogEntry

pub record State : Type 0 where
  pub rev : ℕ
  pub flows : Dict FlowRuntime

abbrev split_more : String → Option (String × String) → Option (String × String)
split_more c none = none
split_more c (some (before, after)) = some (str_append c before, after)

-- The texts before and after the first colon.
unfoldable pub split_colon : String → Option (String × String)
split_colon String.[] = none
split_colon (String.◌∷◌ c s) =
    let rest = split_colon s in
    if code c == 58 then some ("", s) else split_more (String.◌∷◌ c "") rest

abbrev usable : Option (String × String) → Option (String × String)
usable none = none
usable (some (before, after)) = if before == "" || after == "" then none else some (before, after)

unfoldable pub split_busy_key : String → Option (String × String)
unfolding split_colon
split_busy_key profile_id = usable (split_colon profile_id)

abbrev pub repeats : RuntimeLogEntry → RuntimeLogEntry → Bool
repeats last e = last.status == e.status && last.op_id == e.op_id && last.error == e.error

-- What is left when the oldest entries over the limit are dropped.
unfoldable pub capped : List RuntimeLogEntry → List RuntimeLogEntry
capped log = drop (length log - max_log) log

abbrev pub is_repeated : Option RuntimeLogEntry → RuntimeLogEntry → Bool
is_repeated none e = false
is_repeated (some last) e = repeats last e

unfoldable pub append_log : List RuntimeLogEntry → RuntimeLogEntry → List RuntimeLogEntry
unfolding capped
append_log log e = if is_repeated (last? log) e then log else capped (log ++ e ∷ [])

-- `entry(..).or_default()`.
abbrev pub or_idle : Option FlowRuntime → FlowRuntime
or_idle none = record { status = ""; last_error = ""; ops = []; sync = none; log = [] }
or_idle (some fr) = fr

abbrev or_new_op : Option OpRuntime → OpRuntime
or_new_op none = record { status = ""; last_error = "" }
or_new_op (some op) = op

unfoldable pub take_chars : ℕ → String → String
take_chars zero s = ""
take_chars (suc n) String.[] = ""
take_chars (suc n) (String.◌∷◌ c s) = String.◌∷◌ c (take_chars n s)

unfoldable pub label : String → String
unfolding take_chars
label op_id = if op_id == "" then "Flow" else str_append "Op " (take_chars 8 op_id)

abbrev pub entry : ℕ → FlowExecutionEvent → RuntimeLogEntry
entry now fe = record {
  at = now;
  status = fe.status;
  op_id = fe.op_id;
  error = fe.error;
  label = label fe.op_id;
}

abbrev is_soft : String → Bool
is_soft status = status == "cancelled" || status == "cancelling"

-- The statuses of an operation that its flow takes over.
abbrev taken_over : String → Bool
taken_over status =
    any (λ (s : String). s == status) ("running" ∷ "cancelling" ∷ "failed" ∷ "cancelled" ∷ [])

unfoldable pub applied_to_op : FlowExecutionEvent → FlowRuntime → FlowRuntime
applied_to_op fe fr =
    let op = or_new_op (lookup fe.op_id fr.ops) in
    let has_error = not (fe.error == "") in
    record {
      status = if taken_over fe.status then fe.status else fr.status;
      last_error = if has_error && not (is_soft fe.status) then fe.error else fr.last_error;
      ops =
          insert fe.op_id
            (record {
              status = fe.status;
              last_error = if has_error then fe.error else op.last_error;
            })
            fr.ops;
      sync = fr.sync;
      log = fr.log;
    }

unfoldable pub applied_to_flow : FlowExecutionEvent → FlowRuntime → FlowRuntime
applied_to_flow fe fr = record {
  status = fe.status;
  last_error =
      if is_soft fe.status then "" else if not (fe.error == "") then fe.error else fr.last_error;
  ops = fr.ops;
  sync = fr.sync;
  log = fr.log;
}

abbrev pub with_log : FlowRuntime → List RuntimeLogEntry → FlowRuntime
with_log fr log = record {
  status = fr.status;
  last_error = fr.last_error;
  ops = fr.ops;
  sync = fr.sync;
  log = log;
}

unfoldable pub projected : FlowExecutionEvent → FlowRuntime → FlowRuntime
unfolding applied_to_op applied_to_flow
projected fe fr = if fe.op_id == "" then applied_to_flow fe fr else applied_to_op fe fr

abbrev pub logged : ℕ → FlowExecutionEvent → FlowRuntime → FlowRuntime
logged now fe fr = with_log (projected fe fr) (append_log fr.log (entry now fe))

unfoldable pub apply_flow : ℕ → FlowExecutionEvent → Dict FlowRuntime → Dict FlowRuntime
apply_flow now fe flows =
    insert fe.flow_id (logged now fe (or_idle (lookup fe.flow_id flows))) flows

-- Whether the event is a start, and the progress that it stands for.
abbrev pub progress_of : BusEvent → Option (Bool × SyncProgressEvent)
progress_of (sync_started e) = some (
  true,
  record {
    task_id = e.task_id;
    profile_id = e.profile_id;
    action = e.action;
    state = "running";
    transferred = 0;
    errors = 0;
    error_message = "";
  },
)
progress_of (sync_progress p) = some (false, p)
progress_of (sync_failed p) = some (false, p)
progress_of (sync_completed e) = some (
  false,
  record {
    task_id = e.task_id;
    profile_id = e.profile_id;
    action = e.action;
    state = "completed";
    transferred = e.bytes;
    errors = e.errors;
    error_message = "";
  },
)
progress_of _ = none

abbrev is_final : String → Bool
is_final state = any (λ (s : String). s == state) ("failed" ∷ "cancelled" ∷ "completed" ∷ [])

abbrev ops_after : Bool → SyncProgressEvent → String → Dict OpRuntime → Dict OpRuntime
ops_after started prog op_id ops =
    let op = or_new_op (lookup op_id ops) in
    if op_id == ""
    then ops
    else insert op_id
        (record {
          status =
              if not (prog.state == "")
              then prog.state
              else if started
              then "running"
              else op.status;
          last_error = if not (prog.error_message == "") then prog.error_message else op.last_error;
        })
        ops

unfoldable pub synced_flow : Bool → SyncProgressEvent → String → FlowRuntime → FlowRuntime
synced_flow started prog op_id fr = record {
  status =
      if started || prog.state == "running"
      then "running"
      else if is_final prog.state && fr.status == ""
      then prog.state
      else fr.status;
  last_error =
      if not (prog.error_message == "") && not (prog.state == "cancelled")
      then prog.error_message
      else fr.last_error;
  ops = ops_after started prog op_id fr.ops;
  sync = some prog;
  log = fr.log;
}

abbrev pub apply_progress :
    Bool → SyncProgressEvent → Option (String × String) → Dict FlowRuntime → Dict FlowRuntime
apply_progress started prog none flows = flows
apply_progress started prog (some (flow_id, op_id)) flows =
    insert flow_id (synced_flow started prog op_id (or_idle (lookup flow_id flows))) flows

abbrev pub apply_sync : Option (Bool × SyncProgressEvent) → Dict FlowRuntime → Dict FlowRuntime
apply_sync none flows = flows
apply_sync (some (started, prog)) flows =
    apply_progress started prog (split_busy_key prog.profile_id) flows

abbrev pub revised : State → Dict FlowRuntime → State
revised st flows = record { rev = st.rev + 1; flows = flows }

unfoldable pub on_event : ℕ → BusEvent → State → State
unfolding apply_flow
on_event now (flow_execution fe) st =
    if fe.flow_id == "" then st else revised st (apply_flow now fe st.flows)
on_event now (sync_started e) st = revised st (apply_sync (progress_of (sync_started e)) st.flows)
on_event now (sync_progress p) st = revised st (apply_sync (progress_of (sync_progress p)) st.flows)
on_event now (sync_failed p) st = revised st (apply_sync (progress_of (sync_failed p)) st.flows)
on_event now (sync_completed e) st =
    revised st (apply_sync (progress_of (sync_completed e)) st.flows)
on_event now _ st = st

unfoldable pub reset : State → State
reset st = revised st []

unfoldable pub forget : String → State → State
forget flow_id st = if flow_id == "" then st else revised st (remove flow_id st.flows)

abbrev pub new : State
new = record { rev = 0; flows = [] }

unfoldable pub after : List (ℕ × BusEvent) → State → State
after [] st = st
after ((now, ev) ∷ evs) st = after evs (on_event now ev st)
