-- ===== src/Flow/Registry.antt =====
-- crates/gn-drive-core/src/flow_engine.rs: the runs of a flow engine, `begin`, `stop`, `status`, `statuses`,
-- and the end of `run`.
pub mod Threads
pub mod Statuses
use gn_drive.Common.{
  ℕ, String, Bool, true, false, Option, none, some, List, [], ◌∷◌, ◌++◌, Dict, lookup, insert,
  remove, is_some, get_elem?, remove_at, if◌then◌else◌, ◌==◌, string_eq,
}
use gn_drive.Common.Result.{Result, ok, err}
use gn_drive.Sync.{StoreError}
use gn_drive.Flow.{Flow, Publication, publication}
use gn_drive.Profile.Config.{is_empty}

pub data FlowEngineError : Type 0 where
  already_running not_running empty_flow engine_not_ready : FlowEngineError
  store_failed : StoreError → FlowEngineError

pub record Run : Type 0 where
  pub cancelled : Bool
  pub status : String

pub record State : Type 0 where
  pub runs : Dict Run
  pub last_status : Dict String
  -- The flows that a thread runs, after `begin` and before the end of `run`.
  pub threads : List String
  pub published : List Publication

abbrev pub new : State
new = record { runs = []; last_status = []; threads = []; published = [] }

abbrev pub or_text : String → Option String → String
or_text d none = d
or_text d (some s) = s

abbrev pub run_status : Option Run → Option String → String
run_status none last = or_text "idle" last
run_status (some r) last = r.status

unfoldable pub status : State → String → String
status s flow_id = run_status (lookup flow_id s.runs) (lookup flow_id s.last_status)

abbrev pub filled : Dict String → Dict String
filled [] = []
filled ((id, v) ∷ rest) = let more = filled rest in if v == "" then more else (id, v) ∷ more

unfoldable pub with_runs : Dict Run → Dict String → Dict String
with_runs [] out = out
with_runs ((id, r) ∷ rest) out =
    let more = with_runs rest out in if r.status == "" then more else insert id r.status more

unfoldable pub statuses : State → Dict String
unfolding with_runs
statuses s = with_runs s.runs (filled s.last_status)

abbrev pub begun : String → Bool → State → Result FlowEngineError (Unit {0}) × State
begun flow_id true s = (err already_running, s)
begun flow_id false s = (
  ok tt,
  record s {
    runs = insert flow_id (record { cancelled = false; status = "running" }) s.runs;
    last_status = remove flow_id s.last_status;
    threads = flow_id ∷ s.threads;
    published = s.published ++ publication flow_id "" "running" [] ∷ [];
  },
)

abbrev pub begin_with :
    {Number : Type 0}
    → Result StoreError (Flow Number)
    → String
    → State
    → Result FlowEngineError (Unit {0}) × State
begin_with (err e) flow_id s = (err (store_failed e), s)
begin_with (ok f) flow_id s =
    if is_empty f.operations
    then (err empty_flow, s)
    else begun flow_id (is_some (lookup flow_id s.runs)) s

-- The answer is that of the store's `get_flow` for the identifier, if a store and a sync engine are
-- attached. A store gives a flow under its own identifier.
unfoldable pub begin :
    {Number : Type 0}
    → Option (Result StoreError (Flow Number))
    → String
    → State
    → Result FlowEngineError (Unit {0}) × State
begin none flow_id s = (err engine_not_ready, s)
begin (some answer) flow_id s = begin_with answer flow_id s

abbrev pub stop_run : String → Option Run → State → Result FlowEngineError (Unit {0}) × State
stop_run flow_id none s = (err not_running, s)
stop_run flow_id (some r) s = (
  ok tt,
  record s {
    runs = insert flow_id (record { cancelled = true; status = "cancelling" }) s.runs;
    published = s.published ++ publication flow_id "" "cancelling" [] ∷ [];
  },
)

unfoldable pub stop : String → State → Result FlowEngineError (Unit {0}) × State
stop flow_id s = stop_run flow_id (lookup flow_id s.runs) s

abbrev pub end_run : ℕ → String → Option String → State → State
end_run n final none s = s
end_run n final (some flow_id) s = record {
  runs = remove flow_id s.runs;
  last_status = insert flow_id final s.last_status;
  threads = remove_at n s.threads;
  published = s.published ++ publication flow_id "" final [] ∷ [];
}

-- The end of `run` in thread number `n`, whose operations ended with a status.
unfoldable pub finish : ℕ → String → State → State
finish n final s = end_run n final (get_elem? s.threads n) s

pub data Event (Number : Type 0) : Type 0 where
  begins : Option (Result StoreError (Flow Number)) → String → Event Number
  stops : String → Event Number
  finishes : ℕ → String → Event Number

unfoldable pub step : {Number : Type 0} → Event Number → State → State
unfolding begin stop finish
step (begins answer flow_id) s = (begin answer flow_id s).1
step (stops flow_id) s = (stop flow_id s).1
step (finishes n final) s = finish n final s

unfoldable pub after : {Number : Type 0} → List (Event Number) → State → State
unfolding step
after [] s = s
after (e ∷ es) s = after es (step e s)
