-- ===== src/Board/Registry.antt =====
-- crates/gn-drive-core/src/board_engine.rs: the runs of a board engine, `execute`, `stop`, `status`,
-- `attach` and `detach`, and the end of the thread that `execute` starts.
pub mod Threads
pub mod Ends
use gn_drive.Common.{
  ℕ, zero, suc, ◌+◌, String, Bool, true, false, ◌&&◌, ◌||◌, not, Option, none, some, List, [], ◌∷◌,
  Dict, lookup, insert, ◌==◌, string_eq, get_elem?, remove_at, if◌then◌else◌,
}
use gn_drive.Board.{
  Board, BoardNode, BoardEdge, BoardEngineError, Result, ok, err, not_configured, empty_board,
  already_running, not_running, cancelled,
}

pub record Run : Type 0 where
  pub id : String
  pub token_cancelled : Bool
  pub done : Bool
  pub error : Option BoardEngineError

-- A thread that `execute` has started and that has not ended.
pub record Thread : Type 0 where
  pub board_id : String
  pub run_id : String

pub record Engine : Type 0 where
  pub has_store : Bool
  pub has_sync : Bool
  pub runs : Dict Run
  pub threads : List Thread

pub data Status : Type 0 where
  running completed was_cancelled : Status
  has_failed : BoardEngineError → Status

pub record BoardRunStatus : Type 0 where
  pub run_id : String
  pub board_id : String
  pub status : Status

unfoldable pub status_of : Bool → Option BoardEngineError → Status
status_of false error = running
status_of true none = completed
status_of true (some cancelled) = was_cancelled
status_of true (some e) = has_failed e

abbrev pub run_status : String → Option Run → Option BoardRunStatus
run_status board_id none = none
run_status board_id (some r) =
    some (record { run_id = r.id; board_id = board_id; status = status_of r.done r.error })

unfoldable pub status : Engine → String → Option BoardRunStatus
unfolding status_of
status s board_id = run_status board_id (lookup board_id s.runs)

abbrev pub is_empty {ℓ} : {A : Type ℓ} → List A → Bool
is_empty [] = true
is_empty (x ∷ xs) = false

-- `load`, given what the store answers.
unfoldable pub load : Result Board → Result Board
load (err e) = err e
load (ok b) = if is_empty b.nodes || is_empty b.edges then err empty_board else ok b

abbrev pub is_running : Option Run → Bool
is_running none = false
is_running (some r) = not r.done

abbrev pub started_run : String → Run
started_run run_id = record { id = run_id; token_cancelled = false; done = false; error = none }

abbrev pub admitted : String → String → Engine → Engine
admitted board_id run_id s = record {
  has_store = s.has_store;
  has_sync = s.has_sync;
  runs = insert board_id (started_run run_id) s.runs;
  threads = record { board_id = board_id; run_id = run_id } ∷ s.threads;
}

abbrev pub admit : String → String → Result Board → Engine → Result String × Engine
admit board_id run_id (err e) s = (err e, s)
admit board_id run_id (ok b) s =
    if is_running (lookup board_id s.runs)
    then (err already_running, s)
    else (ok run_id, admitted board_id run_id s)

-- `run_id` is the fresh identifier that the run gets.
unfoldable pub execute : Result Board → String → String → Engine → Result String × Engine
unfolding load
execute answer run_id board_id s =
    if not (s.has_store && s.has_sync)
    then (err not_configured, s)
    else admit board_id run_id (load answer) s

abbrev pub with_runs : Engine → Dict Run → Engine
with_runs s runs = record {
  has_store = s.has_store;
  has_sync = s.has_sync;
  runs = runs;
  threads = s.threads;
}

abbrev pub cancelled_run : Run → Run
cancelled_run r = record { id = r.id; token_cancelled = true; done = r.done; error = r.error }

abbrev pub cancel_unless : Bool → String → Run → Engine → Result (Unit {0}) × Engine
cancel_unless true board_id r s = (err not_running, s)
cancel_unless false board_id r s = (ok tt, with_runs s (insert board_id (cancelled_run r) s.runs))

abbrev pub stop_run : String → Option Run → Engine → Result (Unit {0}) × Engine
stop_run board_id none s = (err not_running, s)
stop_run board_id (some r) s = cancel_unless r.done board_id r s

unfoldable pub stop : String → Engine → Result (Unit {0}) × Engine
stop board_id s = stop_run board_id (lookup board_id s.runs) s

abbrev pub ended_run : Option BoardEngineError → Run → Run
ended_run error r = record {
  id = r.id;
  token_cancelled = r.token_cancelled;
  done = true;
  error = error;
}

abbrev pub end_of : String → Option BoardEngineError → Option Run → Dict Run → Dict Run
end_of board_id error none runs = runs
end_of board_id error (some r) runs = insert board_id (ended_run error r) runs

abbrev pub end_thread : ℕ → Option BoardEngineError → Option Thread → Engine → Engine
end_thread n error none s = s
end_thread n error (some t) s = record {
  has_store = s.has_store;
  has_sync = s.has_sync;
  runs = end_of t.board_id error (lookup t.board_id s.runs) s.runs;
  threads = remove_at n s.threads;
}

-- Thread number `n` writes how `run_board` ended and is gone.
unfoldable pub finish : ℕ → Option BoardEngineError → Engine → Engine
finish n error s = end_thread n error (get_elem? s.threads n) s

abbrev pub attach : Engine → Engine
attach s = record { has_store = true; has_sync = true; runs = s.runs; threads = s.threads }

abbrev pub detach : Engine → Engine
detach s = record { has_store = false; has_sync = false; runs = s.runs; threads = s.threads }

-- What happens to an engine, in the order in which it happens.
pub data Event : Type 0 where
  executes : Result Board → String → String → Event
  stops : String → Event
  finishes : ℕ → Option BoardEngineError → Event
  attaches detaches : Event

unfoldable pub step : Event → Engine → Engine
unfolding execute stop finish
step (executes answer run_id board_id) s = (execute answer run_id board_id s).1
step (stops board_id) s = (stop board_id s).1
step (finishes n error) s = finish n error s
step attaches s = attach s
step detaches s = detach s

abbrev pub new : Engine
new = record { has_store = false; has_sync = false; runs = []; threads = [] }

unfoldable pub after : List Event → Engine → Engine
after [] s = s
after (e ∷ es) s = after es (step e s)
