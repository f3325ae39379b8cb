-- ===== src/Bus.antt =====
-- crates/gn-drive-core/src/event_bus.rs: the events, their topics, and the bus that delivers them. The time
-- stamps are left out, and of a `SyncProgressEvent` the figures that only pass through.
pub mod Mailbox
pub mod Router
mod Tests
use gn_drive.Common.{ℕ, String, Bool, Option, List, [], ◌∷◌}

pub record RuntimeLogEntry : Type 0 where
  pub at : ℕ
  pub status : String
  pub op_id : String
  pub error : String
  pub label : String

pub record RuntimeOpState : Type 0 where
  pub id : String
  pub status : String
  pub last_error : String

pub record SyncProgressEvent : Type 0 where
  pub task_id : String
  pub profile_id : String
  pub action : String
  pub state : String
  pub transferred : ℕ
  pub errors : ℕ
  pub error_message : String

pub record RuntimeFlowState : Type 0 where
  pub id : String
  pub status : String
  pub last_error : String
  pub ops : List RuntimeOpState
  pub sync : Option SyncProgressEvent
  pub log : List RuntimeLogEntry

pub record RuntimeSnapshotEvent : Type 0 where
  pub revision : ℕ
  pub flows : List RuntimeFlowState

pub record FlowExecutionEvent : Type 0 where
  pub flow_id : String
  pub op_id : String
  pub status : String
  pub error : String

pub record SyncStartedEvent : Type 0 where
  pub task_id : String
  pub profile_id : String
  pub action : String

pub record SyncCompletedEvent : Type 0 where
  pub task_id : String
  pub profile_id : String
  pub action : String
  pub bytes : ℕ
  pub errors : ℕ

pub record ServiceStatusEvent : Type 0 where
  pub running : Bool
  pub web_port : ℕ
  pub uptime_secs : ℕ

pub record ScheduleTriggeredEvent : Type 0 where
  pub schedule_id : String
  pub profile_id : String
  pub action : String

pub record BoardExecutionEvent : Type 0 where
  pub board_id : String
  pub node_id : String
  pub edge_id : String
  pub status : String
  pub profile_id : String
  pub action : String

pub record StateChangedEvent : Type 0 where
  pub domain : String
  pub id : String

pub data BusEvent : Type 0 where
  sync_started : SyncStartedEvent → BusEvent
  sync_progress sync_failed : SyncProgressEvent → BusEvent
  sync_completed : SyncCompletedEvent → BusEvent
  auth_unlocked auth_locked : BusEvent
  service_status : ServiceStatusEvent → BusEvent
  state_changed : StateChangedEvent → BusEvent
  schedule_triggered : ScheduleTriggeredEvent → BusEvent
  board_execution : BoardExecutionEvent → BusEvent
  flow_execution : FlowExecutionEvent → BusEvent
  runtime_snapshot : RuntimeSnapshotEvent → BusEvent

unfoldable pub topic : BusEvent → String
topic (sync_started e) = "sync:started"
topic (sync_progress e) = "sync:progress"
topic (sync_failed e) = "sync:failed"
topic (sync_completed e) = "sync:completed"
topic auth_unlocked = "auth:unlocked"
topic auth_locked = "auth:locked"
topic (service_status e) = "service:status"
topic (state_changed e) = "state:changed"
topic (schedule_triggered e) = "schedule:triggered"
topic (board_execution e) = "board:execution"
topic (flow_execution e) = "flow:execution"
topic (runtime_snapshot e) = "runtime:snapshot"

-- `topic::ALL`, what the bridge forwards.
abbrev pub all_topics : List String
all_topics =
    "sync:started" ∷ "sync:progress" ∷ "sync:completed" ∷ "sync:failed" ∷ "auth:unlocked"
    ∷ "auth:locked" ∷ "service:status" ∷ "state:changed" ∷ "schedule:triggered" ∷ "board:execution"
    ∷ "flow:execution" ∷ []
