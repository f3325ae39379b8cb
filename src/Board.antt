-- ===== src/Board.antt =====
-- crates/gn-drive-core/src/board_engine.rs: the board engine, over the board types of
-- crates/gn-drive-core/src/models.rs. A node's label and coordinates are left out.
pub mod Layers
pub mod Run
pub mod Registry
mod Tests
use gn_drive.Common.{ℕ, String, List, Bool, ◌==◌, string_eq, if◌then◌else◌, ◌||◌}

pub record BoardNode : Type 0 where
  pub id : String
  pub remote_name : String
  pub path : String

pub record BoardEdge : Type 0 where
  pub id : String
  pub source_id : String
  pub target_id : String
  pub action : String

pub record Board : Type 0 where
  pub id : String
  pub nodes : List BoardNode
  pub edges : List BoardEdge

-- The texts that the engine formats into `Failed` and `CompletedWithErrors`, as data.
pub data Failure : Type 0 where
  cycle_detected : ℕ → Failure
  stopped_at_edge : String → String → Failure

pub data BoardEngineError : Type 0 where
  not_configured empty_board already_running not_running cancelled : BoardEngineError
  missing_node : String → BoardEngineError
  failed : Failure → BoardEngineError
  completed_with_errors : String → BoardEngineError
  store : String → BoardEngineError

pub data Result {ℓ} (A : Type ℓ) : Type ℓ where
  ok : A → Result A
  err : BoardEngineError → Result A
