-- ===== src/Hub/Logs.antt =====
-- The log of a flow is the last entries of its history.
use gn_drive.Common.{
  ℕ, zero, suc, ◌-◌, ◌<◌, ◌≡◌, refl, sym, ap, ◌∙◌, inl, inr, String, Bool, Option, none, some, List,
  [], ◌∷◌, ◌++◌, Dict, lookup, insert, lookup-insert, ◌==◌, string_eq, eq_iff, length, drop, last?,
  length-append, length-drop, drop-drop, drop-append, ◌&&◌, if◌then◌else◌, arith, Bool-cases, false,
}
use gn_drive.Hub.{
  RuntimeLogEntry, FlowRuntime, FlowExecutionEvent, SyncProgressEvent, State, BusEvent,
  flow_execution, sync_started, sync_progress, sync_failed, sync_completed, split_busy_key,
  is_repeated, capped, append_log, or_idle, entry, logged, apply_flow, apply_progress, apply_sync,
  progress_of, synced_flow, on_event, after, new, max_log, label,
}

-- The entry says what the last one, if any, says.
abbrev pub says_again : Option RuntimeLogEntry → RuntimeLogEntry → Bool
says_again none e = false
says_again (some last) e = last.status == e.status && last.op_id == e.op_id && last.error == e.error

-- The history of a flow: its entries without repetitions, none of them dropped.
unfoldable pub append_all : List RuntimeLogEntry → RuntimeLogEntry → List RuntimeLogEntry
append_all log e = if says_again (last? log) e then log else log ++ e ∷ []

pub is_repeated-says_again :
    (o : Option RuntimeLogEntry) (e : RuntimeLogEntry) → says_again o e ≡ is_repeated o e
is_repeated-says_again none e = refl
is_repeated-says_again (some last) e = refl

last?-drop : (n : ℕ) (log : List RuntimeLogEntry) → n < length log → last? (drop n log) ≡ last? log
last?-drop zero log h = refl
last?-drop (suc n) [] h = absurd (omega arith)
last?-drop (suc n) (x ∷ []) h = absurd (omega arith)
last?-drop (suc n) (x ∷ y ∷ log) h = last?-drop n (y ∷ log) (omega arith)

last?-capped : (log : List RuntimeLogEntry) → last? (capped log) ≡ last? log
unfolding capped
last?-capped [] = refl
last?-capped (x ∷ log) = last?-drop (length (x ∷ log) - max_log) (x ∷ log) (omega arith)

capped-append :
    (log : List RuntimeLogEntry) (e : RuntimeLogEntry)
    → capped (capped log ++ e ∷ []) ≡ capped (log ++ e ∷ [])
unfolding capped
capped-append log e =
    let n : ℕ = length log - 40 in
    let whole : List RuntimeLogEntry = log ++ e ∷ [] in
    ap capped (sym (drop-append n log (e ∷ []) (omega arith)))
    ∙ drop-drop (length (drop n whole) - 40) n whole
    ∙ ap (λ (k : ℕ). drop k whole) (omega (arith, length-drop n whole, length-append log (e ∷ [])))

append_log-capped :
    (log : List RuntimeLogEntry) (e : RuntimeLogEntry)
    → append_log (capped log) e ≡ capped (append_all log e)
unfolding append_log append_all
append_log-capped log e = elim (Bool-cases (is_repeated (last? log) e)) [
  | inl same ↦
      rw (append_log, append_all, is_repeated-says_again (last? log) e, last?-capped log, same) refl
  | inr fresh ↦
      rw (append_log, append_all, is_repeated-says_again (last? log) e, last?-capped log, fresh)
        (capped-append log e)
]

abbrev pub log_of : String → State → List RuntimeLogEntry
log_of flow_id st = (or_idle (lookup flow_id st.flows)).log

-- What an event adds to the history of a flow.
unfoldable pub recorded : String → List RuntimeLogEntry → ℕ → BusEvent → List RuntimeLogEntry
unfolding append_all
recorded flow_id history now (flow_execution fe) =
    if fe.flow_id == ""
    then history
    else if fe.flow_id == flow_id
    then append_all history (record {
      at = now;
      status = fe.status;
      op_id = fe.op_id;
      error = fe.error;
      label = label fe.op_id;
    })
    else history
recorded flow_id history now (sync_started e) = history
recorded flow_id history now (sync_progress p) = history
recorded flow_id history now (sync_failed p) = history
recorded flow_id history now (sync_completed e) = history
recorded flow_id history now _ = history

-- The history of a flow over a sequence of events.
unfoldable pub history_from :
    String → List RuntimeLogEntry → List (ℕ × BusEvent) → List RuntimeLogEntry
unfolding recorded
history_from flow_id history [] = history
history_from flow_id history ((now, ev) ∷ evs) =
    history_from flow_id (recorded flow_id history now ev) evs

log-insert :
    (k flow_id : String) (fr : FlowRuntime) (flows : Dict FlowRuntime)
    → (or_idle (lookup flow_id (insert k fr flows))).log
      ≡ (if k == flow_id then fr.log else (or_idle (lookup flow_id flows)).log)
log-insert k flow_id fr flows = elim (Bool-cases (k == flow_id)) [
  | inl same ↦ rw (lookup-insert k flow_id fr flows, same) refl
  | inr other ↦ rw (lookup-insert k flow_id fr flows, other) refl
]

kept :
    (k flow_id : String) (fr : FlowRuntime) (flows : Dict FlowRuntime)
    → fr.log ≡ (or_idle (lookup k flows)).log
    → (or_idle (lookup flow_id (insert k fr flows))).log ≡ (or_idle (lookup flow_id flows)).log
kept k flow_id fr flows own = elim (Bool-cases (k == flow_id)) [
  | inl same ↦
      log-insert k flow_id fr flows
      ∙ rw same
          (own ∙ ap (λ (j : String). (or_idle (lookup j flows)).log) ((eq_iff k flow_id).0 same))
  | inr other ↦ log-insert k flow_id fr flows ∙ rw other refl
]

synced_flow-log :
    (started : Bool) (prog : SyncProgressEvent) (op_id : String) (fr : FlowRuntime)
    → (synced_flow started prog op_id fr).log ≡ fr.log
unfolding synced_flow
synced_flow-log started prog op_id fr = refl

-- An execution event extends the log of its own flow and of no other.
apply_flow-log :
    (now : ℕ) (fe : FlowExecutionEvent) (flow_id : String) (flows : Dict FlowRuntime)
    (history : List RuntimeLogEntry)
    → (or_idle (lookup flow_id flows)).log ≡ capped history
    → (or_idle (lookup flow_id (apply_flow now fe flows))).log
      ≡ capped (if fe.flow_id == flow_id then append_all history (entry now fe) else history)
unfolding apply_flow
apply_flow-log now fe flow_id flows history h = elim (Bool-cases (fe.flow_id == flow_id)) [
  | inl same ↦
      log-insert fe.flow_id flow_id (logged now fe (or_idle (lookup fe.flow_id flows))) flows
      ∙ rw same (
          ap (λ (j : String). append_log (or_idle (lookup j flows)).log (entry now fe))
            ((eq_iff fe.flow_id flow_id).0 same)
          ∙ ap (λ (log : List RuntimeLogEntry). append_log log (entry now fe)) h
          ∙ append_log-capped history (entry now fe))
  | inr other ↦
      log-insert fe.flow_id flow_id (logged now fe (or_idle (lookup fe.flow_id flows))) flows
      ∙ rw other h
]

apply_sync-log :
    (p : Option (Bool × SyncProgressEvent)) (flow_id : String) (flows : Dict FlowRuntime)
    → (or_idle (lookup flow_id (apply_sync p flows))).log ≡ (or_idle (lookup flow_id flows)).log
apply_sync-log none flow_id flows = refl
apply_sync-log (some (started, prog)) flow_id flows = go (split_busy_key prog.profile_id)
  where
    go :
        (key : Option (String × String))
        → (or_idle (lookup flow_id (apply_progress started prog key flows))).log
          ≡ (or_idle (lookup flow_id flows)).log
    go none = refl
    go (some (k, op_id)) =
        kept k flow_id (synced_flow started prog op_id (or_idle (lookup k flows))) flows
          (synced_flow-log started prog op_id (or_idle (lookup k flows)))

on_event-log :
    (flow_id : String) (now : ℕ) (ev : BusEvent) (st : State) (history : List RuntimeLogEntry)
    → log_of flow_id st ≡ capped history
    → log_of flow_id (on_event now ev st) ≡ capped (recorded flow_id history now ev)
unfolding on_event recorded
on_event-log flow_id now (flow_execution fe) st history h = elim (Bool-cases (fe.flow_id == "")) [
  | inl unnamed ↦ rw (on_event, recorded, unnamed) h
  | inr named ↦ rw (on_event, recorded, named) (apply_flow-log now fe flow_id st.flows history h)
]
on_event-log flow_id now (sync_started e) st history h =
    apply_sync-log (progress_of (sync_started e)) flow_id st.flows ∙ h
on_event-log flow_id now (sync_progress p) st history h =
    apply_sync-log (progress_of (sync_progress p)) flow_id st.flows ∙ h
on_event-log flow_id now (sync_failed p) st history h =
    apply_sync-log (progress_of (sync_failed p)) flow_id st.flows ∙ h
on_event-log flow_id now (sync_completed e) st history h =
    apply_sync-log (progress_of (sync_completed e)) flow_id st.flows ∙ h
on_event-log flow_id now _ st history h = h

after-log :
    (evs : List (ℕ × BusEvent)) (flow_id : String) (st : State) (history : List RuntimeLogEntry)
    → log_of flow_id st ≡ capped history
    → log_of flow_id (after evs st) ≡ capped (history_from flow_id history evs)
unfolding after history_from
after-log [] flow_id st history h = h
after-log ((now, ev) ∷ evs) flow_id st history h =
    after-log evs flow_id (on_event now ev st) (recorded flow_id history now ev)
      (on_event-log flow_id now ev st history h)

-- After any sequence of bus events on a new hub, the log of a flow is its history without all but
-- the last 40 entries; in the history stands each execution event of the flow, except one that has
-- the status, the operation and the error of the entry before it.
pub after-log_of :
    (evs : List (ℕ × BusEvent)) (flow_id : String)
    → log_of flow_id (after evs new)
      ≡ drop (length (history_from flow_id [] evs) - 40) (history_from flow_id [] evs)
unfolding capped lookup
after-log_of evs flow_id = after-log evs flow_id new [] refl
