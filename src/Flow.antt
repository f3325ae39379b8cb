-- ===== src/Flow.antt =====
-- crates/gn-drive-core/src/models.rs and flow_engine.rs: a flow, its operations, what the flow engine asks
-- the sync engine for, and the run of a flow.
pub mod Errors
pub mod Directions
pub mod Endpoints
pub mod Commands
pub mod Outcomes
pub mod Order
pub mod Registry
pub mod Tests
use Prim.Native.String.{◌++◌ as str_append}
use gn_drive.Common.{
  ℕ, zero, suc, String, Bool, true, false, not, ◌&&◌, ◌||◌, Option, none, some, List, [], ◌∷◌, ◌++◌,
  ◌==◌, lookup, if◌then◌else◌,
}
use gn_drive.Common.Text.{Text, codes, text_eq, trim}
use gn_drive.Common.Text.Decimal.{ℤ}
use gn_drive.Common.Result.{Result, ok, err}
use gn_drive.Profile.{Numerics, Profile}
use gn_drive.Profile.Config.{Value, JsonDict, string, is_empty, profile_from_sync_config}
use gn_drive.Sync.{
  SyncEngineError, task_cancelled, not_running, store_not_ready, profile_busy, task_not_found,
  task_failed, store_failed,
}
use gn_drive.Flow.Errors.{display, friendly_task_err}

pub record FlowOperation (Number : Type 0) : Type 0 where
  pub id : String
  pub flow_id : String
  pub source_remote : Text
  pub source_path : Text
  pub target_remote : Text
  pub target_path : Text
  pub action : Text
  pub sync_config : JsonDict Number
  pub is_expanded : Bool
  pub sort_order : ℤ

pub record Flow (Number : Type 0) : Type 0 where
  pub id : String
  pub name : Text
  pub is_collapsed : Bool
  pub schedule_enabled : Bool
  pub schedule_cron : Text
  pub sort_order : ℤ
  pub operations : List (FlowOperation Number)
  pub canvas_json : Text
  pub created_at : Text
  pub updated_at : Text

-- `profile_direction::is_valid` of a text that is trimmed.
unfoldable pub is_direction : Text → Bool
is_direction d = d == codes "push" || d == codes "bi" || d == codes "bi-resync"

unfoldable pub normalize : Text → Text
unfolding is_direction
normalize d = if is_direction (trim d) then trim d else codes "push"

-- The action that the configuration of an operation names, or "push".
abbrev pub configured_action : {Number : Type 0} → Option (Value Number) → Text
configured_action (some (string a)) = if is_empty (trim a) then codes "push" else normalize a
configured_action o = codes "push"

unfoldable pub resolved_action : {Number : Type 0} → FlowOperation Number → Text
resolved_action op =
    if is_empty (trim op.action)
    then configured_action (lookup "action" op.sync_config)
    else normalize op.action

abbrev pub or_root : Text → Text
or_root [] = codes "/"
or_root (c ∷ s) = c ∷ s

abbrev pub composed : Text → Text → Text
composed remote path =
    if is_empty remote || remote == codes "local"
    then or_root path
    else if is_empty path || path == codes "/"
    then remote ++ codes ":"
    else remote ++ codes ":" ++ path

unfoldable pub compose_path : Text → Text → Text
compose_path remote path = composed (trim remote) (trim path)

-- What `run_ops` asks `start_path_sync` for.
pub record SyncRequest (Float : Type 0) : Type 0 where
  pub action : Text
  pub busy_key : String
  pub from : Text
  pub to : Text
  pub opts : Profile Float

-- What `publish` is called with: an event of `flow:execution`, and its mirror on `board:execution`.
pub record Publication : Type 0 where
  pub flow_id : String
  pub op_id : String
  pub status : String
  pub error : Text

abbrev pub publication : String → String → String → Text → Publication
publication flow_id op_id status error = record {
  flow_id = flow_id;
  op_id = op_id;
  status = status;
  error = error;
}

pub record Report (Float : Type 0) : Type 0 where
  pub requests : List (SyncRequest Float)
  pub published : List Publication
  -- The tasks that `stop_sync` was called for.
  pub stopped : List String
  pub final_status : String

-- What a run observes at the operation of a number: whether the flow is cancelled before it, what
-- the sync engine answers, and whether the flow is cancelled when a wait has ended with an error.
pub record World (Float : Type 0) : Type 0 where
  pub is_cancelled : ℕ → Bool
  pub start_path_sync : ℕ → SyncRequest Float → Result SyncEngineError String
  pub wait_task : ℕ → String → Result SyncEngineError (Unit {0})
  pub is_cancelled_after : ℕ → Bool

abbrev pub is_task_cancelled : SyncEngineError → Bool
is_task_cancelled task_cancelled = true
is_task_cancelled not_running = false
is_task_cancelled store_not_ready = false
is_task_cancelled profile_busy = false
is_task_cancelled task_not_found = false
is_task_cancelled (task_failed m) = false
is_task_cancelled (store_failed e) = false

module _ (N : Numerics) where
  unfoldable pub request : String → FlowOperation N.Number → SyncRequest N.Float
  request flow_id op = record {
    action = resolved_action op;
    busy_key = str_append flow_id (str_append ":" op.id);
    from = compose_path op.source_remote op.source_path;
    to = compose_path op.target_remote op.target_path;
    opts = profile_from_sync_config N op.sync_config;
  }

  -- The run ends at an operation that has been asked for.
  abbrev pub ends_at :
      String → FlowOperation N.Number → List String → String → Text → Report N.Float
  ends_at flow_id op stopped status error = record {
    requests = request flow_id op ∷ [];
    published =
        publication flow_id op.id "running" [] ∷ publication flow_id op.id status error ∷ [];
    stopped = stopped;
    final_status = status;
  }

  -- The operation is done, and the run goes on.
  abbrev pub goes_on : String → FlowOperation N.Number → Report N.Float → Report N.Float
  goes_on flow_id op rest = record {
    requests = request flow_id op ∷ rest.requests;
    published =
        publication flow_id op.id "running" []
        ∷ publication flow_id op.id "completed" []
        ∷ rest.published;
    stopped = rest.stopped;
    final_status = rest.final_status;
  }

  abbrev pub nothing_more : String → Report N.Float
  nothing_more status = record {
    requests = [];
    published = [];
    stopped = [];
    final_status = status;
  }

  abbrev pub after_error :
      Bool → String → FlowOperation N.Number → String → SyncEngineError → Report N.Float
  after_error true flow_id op task e = ends_at flow_id op (task ∷ []) "cancelled" []
  after_error false flow_id op task e = ends_at flow_id op [] "failed" (friendly_task_err e)

  abbrev pub after_wait :
      Bool
      → String
      → FlowOperation N.Number
      → String
      → Result SyncEngineError (Unit {0})
      → Report N.Float
      → Report N.Float
  after_wait is_cancelled flow_id op task (ok u) rest = goes_on flow_id op rest
  after_wait is_cancelled flow_id op task (err e) rest =
      after_error (is_cancelled || is_task_cancelled e) flow_id op task e

  abbrev pub after_start :
      World N.Float
      → ℕ
      → String
      → FlowOperation N.Number
      → Result SyncEngineError String
      → Report N.Float
      → Report N.Float
  after_start w n flow_id op (err e) rest = ends_at flow_id op [] "failed" (display e)
  after_start w n flow_id op (ok task) rest =
      after_wait (w.is_cancelled_after n) flow_id op task (w.wait_task n task) rest

  abbrev pub run_op :
      Bool → World N.Float → ℕ → String → FlowOperation N.Number → Report N.Float → Report N.Float
  run_op true w n flow_id op rest = nothing_more "cancelled"
  run_op false w n flow_id op rest =
      after_start w n flow_id op (w.start_path_sync n (request flow_id op)) rest

  -- `run_ops` from the operation of a number on.
  unfoldable pub run_ops :
      World N.Float → ℕ → String → List (FlowOperation N.Number) → Report N.Float
  run_ops w n flow_id [] = nothing_more "completed"
  run_ops w n flow_id (op ∷ ops) =
      run_op (w.is_cancelled n) w n flow_id op (run_ops w (suc n) flow_id ops)
