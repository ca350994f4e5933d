-- ===== src/Events.antt =====
-- src-tauri/src/domain/event.rs: lifecycle events. The random id, the timestamp and the JSON
-- payload, which only repeats the worker id, are left out.
use hive_manager.Base.{Option, String}

pub data EventType : Type 0 where
  session_created session_status_changed cell_created cell_status_changed : EventType
  conversation_message workspace_created agent_launched agent_completed : EventType
  agent_waiting_input agent_failed artifact_updated resolver_selected_candidate : EventType
  worker_queued worker_claimed worker_claim_failed worker_reclaimed worker_finalized : EventType

pub data Severity : Type 0 where
  info warning error : Severity

pub record Event : Type 0 where
  pub session_id : String
  pub cell_id : Option String
  pub agent_id : Option String
  pub event_type : EventType
  pub severity : Severity
