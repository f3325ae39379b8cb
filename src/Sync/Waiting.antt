-- ===== src/Sync/Waiting.antt =====
-- What `wait_task` answers for a task that has ended.
use gn_drive.Common.{
  ℕ, zero, suc, ◌≡◌, refl, ap, Bool, true, false, ◌||◌, Option, none, some, List, [], ◌∷◌,
  lookup-insert, lookup-remove, string_eq, beq_self, get_elem?, if◌then◌else◌,
}
use gn_drive.Common.Result.{Result, ok, err}
use gn_drive.Sync.{
  SyncTask, SyncEngineError, SyncFailedError, Engine, task_cancelled, task_failed, task_not_found,
  run, run_sync, finish, wait_round, outcome_result, final_status, stop_sync, is_busy,
  is_cancelled_status, set_at, run_thread, drop_thread, failed_task, TaskOutcome,
}
use gn_drive.Sync.Errors.{truncate_string, sanitize_rclone_err}

-- What a waiting caller is told: success without a client or when the client succeeds; otherwise a
-- cancellation if the task was cancelled or the client says so, and else the shortened error.
unfoldable pub told :
    Option (Result SyncFailedError (Unit {0})) → SyncTask → Result SyncEngineError (Unit {0})
told none t = ok tt
told (some (ok u)) t = ok tt
told (some (err e)) t =
    if t.token_cancelled || is_cancelled_status t.status || e.cancelled
    then err task_cancelled
    else err (task_failed (truncate_string (sanitize_rclone_err e.message) 240))

run_sync-told :
    (answer : Option (Result SyncFailedError (Unit {0}))) (t : SyncTask)
    → outcome_result (final_status (run_sync answer t).status) (run_sync answer t).error
      ≡ told answer t
unfolding outcome_result final_status run_sync told
run_sync-told none t = refl
run_sync-told (some (ok u)) t = refl
run_sync-told (some (err e)) t =
    go (t.token_cancelled || is_cancelled_status t.status || e.cancelled)
  where
    go :
        (b : Bool)
        → outcome_result
            (final_status (failed_task b e.message t).status)
            (failed_task b e.message t).error
          ≡ (if b
              then err task_cancelled
              else err (task_failed (truncate_string (sanitize_rclone_err e.message) 240)))
    go true = refl
    go false = refl

get_elem?-set_at :
    (n : ℕ) (ts : List SyncTask) (t u : SyncTask)
    → get_elem? ts n ≡ some t
    → get_elem? (set_at n u ts) n ≡ some u
get_elem?-set_at n [] t u h = cc
get_elem?-set_at zero (x ∷ ts) t u h = refl
get_elem?-set_at (suc n) (x ∷ ts) t u h = get_elem?-set_at n ts t u h

run_sync-id :
    (answer : Option (Result SyncFailedError (Unit {0}))) (t : SyncTask)
    → ((run_sync answer t).id ≡ t.id) × ((run_sync answer t).name ≡ t.name)
unfolding run_sync
run_sync-id none t = (refl, refl)
run_sync-id (some (ok u)) t = (refl, refl)
run_sync-id (some (err e)) t = go (t.token_cancelled || is_cancelled_status t.status || e.cancelled)
  where
    go :
        (b : Bool)
        → ((failed_task b e.message t).id ≡ t.id) × ((failed_task b e.message t).name ≡ t.name)
    go true = (refl, refl)
    go false = (refl, refl)

abbrev outcome_of : SyncTask → TaskOutcome
outcome_of t = record { status = final_status t.status; err_msg = t.error }

-- The thread of a task ends.
abbrev pub ended : ℕ → Option (Result SyncFailedError (Unit {0})) → Engine → Engine
ended n answer s = finish n (run n answer s)

ended_thread :
    (n : ℕ) (answer : Option (Result SyncFailedError (Unit {0}))) (s : Engine) (t : SyncTask)
    → get_elem? s.threads n ≡ some t
    → ended n answer s ≡ drop_thread n (some (run_sync answer t)) (run_thread n answer (some t) s)
unfolding finish run
ended_thread n answer s t here =
    rw (here, get_elem?-set_at n s.threads t (run_sync answer t) here) refl

-- When a thread of an engine runs its sync and ends, a caller that waits for its task is told
-- success if there was no client or the client succeeded, else a cancellation if the task was
-- cancelled or the client says so, else the shortened error; its busy key is free and stop_sync no
-- longer finds the task.
pub wait_round-ended :
    (n : ℕ) (answer : Option (Result SyncFailedError (Unit {0}))) (s : Engine) (t : SyncTask)
    → get_elem? s.threads n ≡ some t
    → ((wait_round false t.id (ended n answer s)).0 ≡ some (told answer t))
      × ((is_busy (ended n answer s) t.name ≡ false)
          × ((stop_sync t.id (ended n answer s)).0 ≡ err task_not_found))
unfolding wait_round is_busy stop_sync
wait_round-ended n answer s t here = rw (ended_thread n answer s t here) (
  rw
      (
        (run_sync-id answer t).0,
        lookup-insert t.id t.id (outcome_of (run_sync answer t)) s.outcomes,
        beq_self t.id,
      )
      (ap some (run_sync-told answer t)),
  (
    rw ((run_sync-id answer t).1, lookup-remove t.name t.name s.busy, beq_self t.name) refl,
    rw ((run_sync-id answer t).0, lookup-remove t.id t.id s.tasks, beq_self t.id) refl,
  ),
)
