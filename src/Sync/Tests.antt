-- ===== src/Sync/Tests.antt =====
-- Examples of sync engines.
use gn_drive.Common.{◌≤◌, ◌≡◌, refl, true, false, Option, none, some, List, [], ◌∷◌}
use gn_drive.Common.Text.{codes}
use gn_drive.Common.Result.{Result, err}
use gn_drive.Sync.{
  SyncFailedError, Engine, Event, new, new_task, start, after, claims_key, admits, stops_sync, runs,
  finishes, wait_round, is_busy, stop_sync, task_not_found,
}
use gn_drive.Sync.Exclusion.{live, after-live}
use gn_drive.Sync.Restart.{overtaken, overtaken-live}
use gn_drive.Sync.Waiting.{told, ended, wait_round-ended}

abbrev events : List Event
events =
    claims_key "photos"
    ∷ admits 0 "A"
    ∷ claims_key "photos"
    ∷ runs 0 none
    ∷ finishes 0
    ∷ claims_key "photos"
    ∷ admits 0 "B"
    ∷ stops_sync "B"
    ∷ []

after-live_example : live "photos" (after events (start new)).threads ≤ 1
after-live_example = after-live events (tt, (tt, (tt, (tt, (tt, (tt, (tt, (tt, tt)))))))) "photos"

overtaken-live_example : live "photos" (after (overtaken "photos" "A" "B") new).threads ≡ 2
overtaken-live_example = overtaken-live "photos" "A" "B"

abbrev one_thread : Engine
one_thread = record {
  is_running = true;
  stopping = 0;
  claims = [];
  threads = new_task "A" "photos" ∷ [];
  tasks = ("A", tt) ∷ [];
  outcomes = [];
  busy = ("photos", tt) ∷ [];
}

abbrev refused : Option (Result SyncFailedError (Unit {0}))
refused = some (err (record { message = codes "403 forbidden"; cancelled = false }))

wait_round-ended_example :
    ((wait_round false "A" (ended 0 refused one_thread)).0
      ≡ some (told refused (new_task "A" "photos")))
    × ((is_busy (ended 0 refused one_thread) "photos" ≡ false)
        × ((stop_sync "A" (ended 0 refused one_thread)).0 ≡ err task_not_found))
wait_round-ended_example = wait_round-ended 0 refused one_thread (new_task "A" "photos") refl
