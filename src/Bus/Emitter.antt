-- ===== src/Bus/Emitter.antt =====
-- src-tauri/src/events/emitter.rs: the typed emissions, each an event on the bus. The JSON payload,
-- with what only it carries, is left out.
use hive_manager.Base.{◌≡◌, refl, ◌⊎◌, Bool, false, Option, none, some, String, Text, str_eq}
use hive_manager.Events.{
  EventType, session_created, session_status_changed, cell_created, cell_status_changed,
  workspace_created, agent_launched, agent_completed, agent_waiting_input, agent_failed,
  artifact_updated, resolver_selected_candidate, Severity, info, warning, error, Event,
}
use hive_manager.Bus.{FileOutcome, PublishError, EventBus, publish, of_agent, matches}

-- One constructor for each `emit_…`: the session, the cell and the agent it is called with.
pub data Emission : Type 0 where
  of_session_created : String → Emission
  of_session_status_changed : String → Emission
  of_cell_created : String → String → Emission
  of_cell_status_changed : String → String → Emission
  of_workspace_created : String → String → Emission
  of_agent_launched : String → String → String → Emission
  of_agent_completed : String → String → String → Emission
  of_agent_waiting_input : String → String → String → Emission
  of_agent_failed : String → String → String → Emission
  of_artifact_updated : String → String → String → Emission
  of_resolver_selected_candidate : String → String → String → Emission

abbrev pub event_with : String → Option String → Option String → EventType → Severity → Event
event_with session_id cell_id agent_id event_type severity = record {
  session_id = session_id;
  cell_id = cell_id;
  agent_id = agent_id;
  event_type = event_type;
  severity = severity;
}

unfoldable pub event_of : Emission → Event
event_of (of_session_created s) = event_with s none none session_created info
event_of (of_session_status_changed s) = event_with s none none session_status_changed info
event_of (of_cell_created s c) = event_with s (some c) none cell_created info
event_of (of_cell_status_changed s c) = event_with s (some c) none cell_status_changed info
event_of (of_workspace_created s c) = event_with s (some c) none workspace_created info
event_of (of_agent_launched s c a) = event_with s (some c) (some a) agent_launched info
event_of (of_agent_completed s c a) = event_with s (some c) (some a) agent_completed info
event_of (of_agent_waiting_input s c a) = event_with s (some c) (some a) agent_waiting_input warning
event_of (of_agent_failed s c a) = event_with s (some c) (some a) agent_failed error
event_of (of_artifact_updated s c a) = event_with s (some c) (some a) artifact_updated info
event_of (of_resolver_selected_candidate s c a) =
    event_with s (some c) (some a) resolver_selected_candidate info

unfoldable pub emit :
    (Event → Text) → FileOutcome → Emission → EventBus → (PublishError ⊎ Event) × EventBus
unfolding event_of publish
emit to_json o emission b = publish to_json o (event_of emission) b

-- The agent that an emission names.
unfoldable pub names : String → Emission → Bool
names id (of_agent_launched s c a) = str_eq a id
names id (of_agent_completed s c a) = str_eq a id
names id (of_agent_waiting_input s c a) = str_eq a id
names id (of_agent_failed s c a) = str_eq a id
names id (of_artifact_updated s c a) = str_eq a id
names id (of_resolver_selected_candidate s c a) = str_eq a id
names id (of_session_created s) = false
names id (of_session_status_changed s) = false
names id (of_cell_created s c) = false
names id (of_cell_status_changed s c) = false
names id (of_workspace_created s c) = false

matches-names : (id : String) (e : Emission) → matches (of_agent id) (event_of e) ≡ names id e
unfolding matches event_of names
matches-names id (of_agent_launched s c a) = refl
matches-names id (of_agent_completed s c a) = refl
matches-names id (of_agent_waiting_input s c a) = refl
matches-names id (of_agent_failed s c a) = refl
matches-names id (of_artifact_updated s c a) = refl
matches-names id (of_resolver_selected_candidate s c a) = refl
matches-names id (of_session_created s) = refl
matches-names id (of_session_status_changed s) = refl
matches-names id (of_cell_created s c) = refl
matches-names id (of_cell_status_changed s c) = refl
matches-names id (of_workspace_created s c) = refl
