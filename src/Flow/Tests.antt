-- ===== src/Flow/Tests.antt =====
-- Examples of flows.
use gn_drive.Common.{
  ℕ, zero, suc, get_elem?, String, ◌≡◌, refl, false, some, List, [], ◌∷◌, lookup, is_some,
  if◌then◌else◌, suc, insert, remove, remove_at,
}
use gn_drive.Common.Text.{codes}
use gn_drive.Common.Text.Decimal.{pos}
use gn_drive.Common.Result.{Result, ok, err}
use gn_drive.Profile.Config.{string, number}
use gn_drive.Rclone.Tests.{naturals}
use gn_drive.Sync.{SyncEngineError, task_failed}
use gn_drive.Flow.{FlowOperation, Flow, World, run_ops}
use gn_drive.Flow.Outcomes.{IsInOrder}
use gn_drive.Flow.Order.{run_ops-IsInOrder}
use gn_drive.Flow.Registry.{
  Event, begins, stops, finishes, new, after, finish, status, statuses, or_text, step, begin, stop,
}
use gn_drive.Flow.Registry.Threads.{live, live-after}
use gn_drive.Flow.Registry.Statuses.{statuses-status}

abbrev upload : FlowOperation ℕ
upload = record {
  id = "upload";
  flow_id = "nightly";
  source_remote = codes "local";
  source_path = codes "/home";
  target_remote = codes "drive";
  target_path = codes "home";
  action = [];
  sync_config = ("action", string (codes "bi")) ∷ ("parallel", number 2) ∷ [];
  is_expanded = false;
  sort_order = pos 0;
}

abbrev download : FlowOperation ℕ
download = record upload { id = "download"; action = codes "pull"; source_path = [] }

abbrev nightly : Flow ℕ
nightly = record {
  id = "nightly";
  name = codes "Nightly";
  is_collapsed = false;
  schedule_enabled = false;
  schedule_cron = [];
  sort_order = pos 0;
  operations = upload ∷ download ∷ [];
  canvas_json = codes "{}";
  created_at = [];
  updated_at = [];
}

-- The second operation fails.
abbrev answer_at : ℕ → String → Result SyncEngineError (Unit {0})
answer_at zero task = ok tt
answer_at (suc n) task = err (task_failed (codes "quota (stderr: 403)"))

abbrev world : World ℕ
world = record {
  is_cancelled = λ n. false;
  start_path_sync = λ n r. ok r.busy_key;
  wait_task = answer_at;
  is_cancelled_after = λ n. false;
}

run_ops-IsInOrder_example :
    IsInOrder naturals world 0 "nightly" nightly.operations
      (run_ops naturals world 0 "nightly" nightly.operations)
run_ops-IsInOrder_example = run_ops-IsInOrder naturals world 0 "nightly" nightly.operations

abbrev events : List (Event ℕ)
events =
    begins (some (ok nightly)) "nightly"
    ∷ begins (some (ok nightly)) "nightly"
    ∷ stops "nightly"
    ∷ finishes 0 "cancelled"
    ∷ begins (some (ok nightly)) "nightly"
    ∷ []

live-after_example :
    live "nightly" (after events new).threads
    ≡ (if is_some (lookup "nightly" (after events new).runs) then 1 else 0)
live-after_example = live-after events "nightly"

nightly_runs : get_elem? (after events new).threads 0 ≡ some "nightly"
unfolding after step begin stop finish lookup insert remove remove_at
nightly_runs = refl

statuses-status_example :
    or_text "idle" (lookup "nightly" (statuses (after events new)))
    ≡ status (after events new) "nightly"
statuses-status_example = statuses-status events "nightly" (tt, (tt, (tt, (refl, (tt, tt)))))
