-- ===== src/Sync.antt =====
-- crates/gn-drive-core/src/sync_engine.rs: the tasks of a sync engine. The threads are steps on one state:
-- `start_with_profile` is two steps, since it gives up its lock between marking a key busy and
-- taking `admit`, and so is `stop`, which joins no thread before its second half.
pub mod Errors
pub mod Requests
pub mod Exclusion
pub mod Restart
pub mod Waiting
pub mod Tests
use gn_drive.Common.{
  ℕ, zero, suc, ◌+◌, ◌-◌, String, Bool, true, false, ◌&&◌, ◌||◌, Option, none, some, List, [], ◌∷◌,
  ◌++◌, map, Dict, lookup, insert, remove, is_some, ◌==◌, string_eq, get_elem?, remove_at, any,
  if◌then◌else◌,
}
use gn_drive.Common.Text.{Text, codes}
use gn_drive.Common.Result.{Result, ok, err}
use gn_drive.Sync.Errors.{sanitize_rclone_err, truncate_string}

pub data StoreError : Type 0 where
  not_found : StoreError
  invalid db : Text → StoreError

pub data SyncEngineError : Type 0 where
  not_running store_not_ready profile_busy task_cancelled task_not_found : SyncEngineError
  task_failed : Text → SyncEngineError
  store_failed : StoreError → SyncEngineError

-- The texts that the code keeps as a status; it never sets another.
pub data TaskStatus : Type 0 where
  running completed failed cancelled : TaskStatus

-- A task and the thread that runs it.
pub record SyncTask : Type 0 where
  pub id : String
  pub name : String
  pub status : TaskStatus
  pub error : Text
  pub token_cancelled : Bool

pub record TaskOutcome : Type 0 where
  pub status : TaskStatus
  pub err_msg : Text

pub record Engine : Type 0 where
  pub is_running : Bool
  -- Calls of `stop` between their halves.
  pub stopping : ℕ
  -- Calls of `start_with_profile` that have marked their key and wait for `admit`.
  pub claims : List String
  -- The task of every thread that has not ended.
  pub threads : List SyncTask
  -- The identifiers in the active map.
  pub tasks : Dict (Unit {0})
  pub outcomes : Dict TaskOutcome
  pub busy : Dict (Unit {0})

abbrev pub new : Engine
new = record {
  is_running = false;
  stopping = 0;
  claims = [];
  threads = [];
  tasks = [];
  outcomes = [];
  busy = [];
}

unfoldable pub is_busy : Engine → String → Bool
is_busy s key = is_some (lookup key s.busy)

-- `SyncTask::new`
abbrev pub new_task : String → String → SyncTask
new_task id name = record {
  id = id;
  name = name;
  status = running;
  error = [];
  token_cancelled = false;
}

abbrev pub cancel_task : SyncTask → SyncTask
cancel_task t = record t { status = cancelled; token_cancelled = true }

unfoldable pub start : Engine → Engine
start s = record s { is_running = true }

-- The first half of `stop`, under `life`.
unfoldable pub stop_admission : Engine → Engine
stop_admission s = record s { is_running = false; stopping = suc s.stopping }

abbrev pub cancel_if_in : Dict (Unit {0}) → SyncTask → SyncTask
cancel_if_in tasks t = if is_some (lookup t.id tasks) then cancel_task t else t

abbrev pub harvest : ℕ → Engine → Engine
harvest zero s = s
harvest (suc n) s = record s {
  stopping = n;
  tasks = [];
  busy = [];
  threads = map (cancel_if_in s.tasks) s.threads;
}

-- The second half of a call of `stop`, under `admit`.
unfoldable pub stop_workers : Engine → Engine
stop_workers s = harvest s.stopping s

-- The first block of `start_with_profile`.
abbrev pub claim_unless : Bool → String → Engine → Result SyncEngineError (Unit {0}) × Engine
claim_unless true key s = (err profile_busy, s)
claim_unless false key s =
    (ok tt, record s { busy = insert key tt s.busy; claims = key ∷ s.claims })

unfoldable pub claim : String → Engine → Result SyncEngineError (Unit {0}) × Engine
unfolding is_busy
claim key s = claim_unless (is_busy s key) key s

abbrev pub admit_if : Bool → ℕ → String → String → Engine → Result SyncEngineError String × Engine
admit_if false n id key s =
    (err not_running, record s { claims = remove_at n s.claims; busy = remove key s.busy })
admit_if true n id key s = (
  ok id,
  record s {
    claims = remove_at n s.claims;
    busy = insert key tt s.busy;
    tasks = insert id tt s.tasks;
    threads = new_task id key ∷ s.threads;
  },
)

abbrev pub admit_claim :
    ℕ → String → Option String → Engine → Result SyncEngineError String × Engine
admit_claim n id none s = (err not_running, s)
admit_claim n id (some key) s = admit_if s.is_running n id key s

-- The rest of `start_with_profile`, for call number `n` of those that wait; `id` is the fresh
-- identifier that the task gets.
unfoldable pub admit : ℕ → String → Engine → Result SyncEngineError String × Engine
admit n id s = admit_claim n id (get_elem? s.claims n) s

abbrev pub cancel_by_id : String → SyncTask → SyncTask
cancel_by_id id t = if t.id == id then cancel_task t else t

abbrev pub stop_task :
    Option (Unit {0}) → String → Engine → Result SyncEngineError (Unit {0}) × Engine
stop_task none id s = (err task_not_found, s)
stop_task (some u) id s = (ok tt, record s { threads = map (cancel_by_id id) s.threads })

unfoldable pub stop_sync : String → Engine → Result SyncEngineError (Unit {0}) × Engine
stop_sync id s = stop_task (lookup id s.tasks) id s

-- What a sync by the client gives: what is read of `SyncFailedError`, or success.
pub record SyncFailedError : Type 0 where
  pub message : Text
  pub cancelled : Bool

abbrev pub is_cancelled_status : TaskStatus → Bool
is_cancelled_status cancelled = true
is_cancelled_status running = false
is_cancelled_status completed = false
is_cancelled_status failed = false

abbrev pub failed_task : Bool → Text → SyncTask → SyncTask
failed_task true message t = record t { status = cancelled; error = [] }
failed_task false message t = record t {
  status = failed;
  error = truncate_string (sanitize_rclone_err message) 240;
}

-- What `run_sync` makes of its task when the client has answered; without a client there is no
-- answer.
unfoldable pub run_sync : Option (Result SyncFailedError (Unit {0})) → SyncTask → SyncTask
run_sync none t = record t { status = completed }
run_sync (some (ok u)) t = record t { status = completed }
run_sync (some (err e)) t =
    failed_task (t.token_cancelled || is_cancelled_status t.status || e.cancelled) e.message t

abbrev pub set_at : ℕ → SyncTask → List SyncTask → List SyncTask
set_at n t [] = []
set_at zero t (x ∷ xs) = t ∷ xs
set_at (suc n) t (x ∷ xs) = x ∷ set_at n t xs

abbrev pub run_thread :
    ℕ → Option (Result SyncFailedError (Unit {0})) → Option SyncTask → Engine → Engine
run_thread n answer none s = s
run_thread n answer (some t) s = record s { threads = set_at n (run_sync answer t) s.threads }

-- Thread number `n` is done with its sync.
unfoldable pub run : ℕ → Option (Result SyncFailedError (Unit {0})) → Engine → Engine
run n answer s = run_thread n answer (get_elem? s.threads n) s

unfoldable pub final_status : TaskStatus → TaskStatus
final_status running = failed
final_status completed = completed
final_status failed = failed
final_status cancelled = cancelled

abbrev pub drop_thread : ℕ → Option SyncTask → Engine → Engine
drop_thread n none s = s
drop_thread n (some t) s = record s {
  outcomes = insert t.id (record { status = final_status t.status; err_msg = t.error }) s.outcomes;
  tasks = remove t.id s.tasks;
  busy = remove t.name s.busy;
  threads = remove_at n s.threads;
}

-- `Finish::drop` of thread number `n`, which ends it, also when `run_sync` has panicked.
unfoldable pub finish : ℕ → Engine → Engine
unfolding final_status
finish n s = drop_thread n (get_elem? s.threads n) s

unfoldable pub outcome_result : TaskStatus → Text → Result SyncEngineError (Unit {0})
outcome_result completed message = ok tt
outcome_result cancelled message = err task_cancelled
outcome_result failed message = err (task_failed message)
outcome_result running message = err (task_failed message)

abbrev pub take_outcome :
    String → Option TaskOutcome → Engine → Option (Result SyncEngineError (Unit {0})) × Engine
take_outcome id none s = (none, s)
take_outcome id (some o) s =
    (some (outcome_result o.status o.err_msg), record s { outcomes = remove id s.outcomes })

-- One round of `wait_task`: an answer, or none if it goes on waiting.
unfoldable pub wait_round :
    Bool → String → Engine → Option (Result SyncEngineError (Unit {0})) × Engine
unfolding outcome_result
wait_round true id s = (some (err task_cancelled), s)
wait_round false id s = take_outcome id (lookup id s.outcomes) s

-- What happens to an engine, in the order in which it happens.
pub data Event : Type 0 where
  starts stops_admission stops_workers : Event
  claims_key : String → Event
  admits : ℕ → String → Event
  stops_sync : String → Event
  runs : ℕ → Option (Result SyncFailedError (Unit {0})) → Event
  finishes : ℕ → Event
  waits : Bool → String → Event

unfoldable pub step : Event → Engine → Engine
unfolding start stop_admission stop_workers claim admit stop_sync run finish wait_round
step starts s = start s
step stops_admission s = stop_admission s
step stops_workers s = stop_workers s
step (claims_key key) s = (claim key s).1
step (admits n id) s = (admit n id s).1
step (stops_sync id) s = (stop_sync id s).1
step (runs n answer) s = run n answer s
step (finishes n) s = finish n s
step (waits gives_up id) s = (wait_round gives_up id s).1

unfoldable pub after : List Event → Engine → Engine
unfolding step
after [] s = s
after (e ∷ es) s = after es (step e s)
