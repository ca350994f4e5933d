-- ===== src/Session/Cells/Aggregate.antt =====
-- src-tauri/src/session/cell_status.rs: the status of a cell; and what a change of a session's state
-- changes in its cells, from src-tauri/src/session/controller.rs.
use hive_manager.Base.{
  ℕ, ◌==◌, Bool, true, false, not, ◌&&◌, none, some, List, [], ◌∷◌, map, String, Text, str_eq,
  text_eq, is_nil, any, all, if◌then◌else◌,
}
use hive_manager.Session.{
  SessionState, planning, plan_ready, starting, spawning_worker, waiting_for_worker,
  spawning_planner, waiting_for_planner, spawning_fusion_variant, waiting_for_fusion_variants,
  spawning_debate_round, waiting_for_debate_round, spawning_judge, judging,
  awaiting_verdict_selection, merging_winner, spawning_evaluator, qa_in_progress, qa_passed,
  qa_failed, qa_max_retries_exceeded, prince_remediation, qa_inconclusive, running, paused,
  completed, closing, closed, failed, AgentRole, fusion_agent, AgentStatus, agent_starting,
  agent_running, agent_idle, waiting_for_input, agent_completed, agent_error, AgentInfo, Session,
  CellStatus, cell_queued, cell_preparing, cell_launching, cell_running, cell_summarizing,
  cell_completed, cell_waiting_input, cell_failed, cell_killed,
}
use hive_manager.Session.Cells.{
  primary_cell_id, resolver_cell_id, variant_to_cell_id, variants_of, session_cell_ids, Cache,
  cached, agent_in_cell_with_variant_cache,
}

unfoldable pub session_state_to_cell_status : SessionState → CellStatus
session_state_to_cell_status planning = cell_preparing
session_state_to_cell_status plan_ready = cell_preparing
session_state_to_cell_status starting = cell_launching
session_state_to_cell_status (spawning_worker _) = cell_launching
session_state_to_cell_status (spawning_planner _) = cell_launching
session_state_to_cell_status (spawning_fusion_variant _) = cell_launching
session_state_to_cell_status (spawning_debate_round _) = cell_launching
session_state_to_cell_status spawning_judge = cell_launching
session_state_to_cell_status spawning_evaluator = cell_launching
session_state_to_cell_status (waiting_for_worker _) = cell_running
session_state_to_cell_status (waiting_for_planner _) = cell_running
session_state_to_cell_status waiting_for_fusion_variants = cell_running
session_state_to_cell_status (waiting_for_debate_round _) = cell_running
session_state_to_cell_status judging = cell_running
session_state_to_cell_status merging_winner = cell_running
session_state_to_cell_status (qa_in_progress _) = cell_running
session_state_to_cell_status prince_remediation = cell_running
session_state_to_cell_status running = cell_running
session_state_to_cell_status awaiting_verdict_selection = cell_waiting_input
session_state_to_cell_status paused = cell_waiting_input
session_state_to_cell_status qa_passed = cell_waiting_input
session_state_to_cell_status qa_inconclusive = cell_waiting_input
session_state_to_cell_status completed = cell_completed
session_state_to_cell_status closed = cell_completed
session_state_to_cell_status (qa_failed _) = cell_failed
session_state_to_cell_status qa_max_retries_exceeded = cell_failed
session_state_to_cell_status (failed _) = cell_failed
session_state_to_cell_status closing = cell_summarizing

unfoldable pub is_variant_scoped_cell : Session → Text → Bool
is_variant_scoped_cell session cell_id = elim (variants_of session.session_type) [
  | none ↦ false
  | some _ ↦ not (text_eq cell_id primary_cell_id)
]

-- `is_terminal_session_state` of cell_status.rs, which is not the controller's.
unfoldable pub is_settled_session_state : SessionState → Bool
is_settled_session_state qa_passed = true
is_settled_session_state completed = true
is_settled_session_state closed = true
is_settled_session_state (qa_failed _) = true
is_settled_session_state qa_max_retries_exceeded = true
is_settled_session_state (failed _) = true
is_settled_session_state _ = false

unfoldable pub agent_status_to_cell_status : AgentStatus → CellStatus
agent_status_to_cell_status agent_starting = cell_launching
agent_status_to_cell_status agent_running = cell_running
agent_status_to_cell_status agent_idle = cell_running
agent_status_to_cell_status (waiting_for_input _) = cell_waiting_input
agent_status_to_cell_status agent_completed = cell_completed
agent_status_to_cell_status (agent_error _) = cell_failed

-- The agents of the cell; the filter's closure carries the cache from one agent to the next.
unfoldable pub cell_agents : Session → Text → List AgentInfo → Cache → List AgentInfo
unfolding agent_in_cell_with_variant_cache
cell_agents session cell_id [] cache = []
cell_agents session cell_id (a ∷ as_) cache =
    let looked = agent_in_cell_with_variant_cache session cell_id a cache in
    let rest = cell_agents session cell_id as_ looked.1 in if looked.0 then a ∷ rest else rest

-- `derive_cell_status_name_for_state`'s match: the names tell the statuses apart.
unfoldable pub status_name : CellStatus → String
status_name cell_queued = "queued"
status_name cell_preparing = "preparing"
status_name cell_launching = "launching"
status_name cell_running = "running"
status_name cell_summarizing = "summarizing"
status_name cell_completed = "completed"
status_name cell_waiting_input = "waiting_input"
status_name cell_failed = "failed"
status_name cell_killed = "killed"

-- `==` on cell statuses.
abbrev pub rank : CellStatus → ℕ
rank cell_queued = 0
rank cell_preparing = 1
rank cell_launching = 2
rank cell_running = 3
rank cell_summarizing = 4
rank cell_completed = 5
rank cell_waiting_input = 6
rank cell_failed = 7
rank cell_killed = 8

abbrev pub status_eq : CellStatus → CellStatus → Bool
status_eq a b = rank a == rank b

-- The chain of tests on the statuses of the cell's agents.
abbrev pub combine : List CellStatus → Bool → CellStatus → CellStatus
combine statuses variant_scoped otherwise =
    if any (status_eq cell_failed) statuses
    then cell_failed
    else if any (status_eq cell_waiting_input) statuses
    then cell_waiting_input
    else if any (status_eq cell_launching) statuses
    then cell_launching
    else if any (status_eq cell_running) statuses
    then cell_running
    else if not (is_nil statuses) && all (status_eq cell_completed) statuses
    then cell_completed
    else if is_nil statuses && variant_scoped
    then cell_queued
    else otherwise

abbrev pub is_closing : SessionState → Bool
is_closing closing = true
is_closing _ = false

unfoldable pub aggregate_cell_status_for_state : Session → Text → SessionState → CellStatus
unfolding session_state_to_cell_status is_settled_session_state is_variant_scoped_cell
    agent_status_to_cell_status
aggregate_cell_status_for_state session cell_id state =
    let agents = cell_agents session cell_id session.agents (some []) in
    if is_closing state
    then cell_summarizing
    else if is_settled_session_state state
    then session_state_to_cell_status state
    else combine (map (λ a. agent_status_to_cell_status a.status) agents)
        (is_variant_scoped_cell session cell_id) (session_state_to_cell_status state)

unfoldable pub derive_cell_status_name_for_state : Session → Text → SessionState → String
unfolding aggregate_cell_status_for_state status_name
derive_cell_status_name_for_state session cell_id state =
    status_name (aggregate_cell_status_for_state session cell_id state)

abbrev pub variant_cell : AgentRole → Text
variant_cell (fusion_agent variant) = variant_to_cell_id variant
variant_cell _ = resolver_cell_id

unfoldable pub agent_cell_id : Session → AgentInfo → Text
agent_cell_id session agent = elim (variants_of session.session_type) [
  | none ↦ primary_cell_id
  | some _ ↦ variant_cell agent.role
]

-- The loop over the cells: what each had before is looked up, and a change is recorded.
unfoldable pub changes_for :
    Session → SessionState → List (Text × String) → List Text → List (Text × String × String)
unfolding derive_cell_status_name_for_state
changes_for session new_state before [] = []
changes_for session new_state before (id ∷ ids) =
    let next_status = derive_cell_status_name_for_state session id new_state in
    let rest = changes_for session new_state before ids in
    elim (cached id before) [
      | none ↦ rest
      | some previous_status ↦
          if not (str_eq previous_status next_status)
          then (id, previous_status, next_status) ∷ rest
          else rest
    ]

unfoldable pub cell_status_changes_for_transition :
    Session → SessionState → List (Text × String × String)
unfolding session_cell_ids derive_cell_status_name_for_state
cell_status_changes_for_transition session new_state =
    let cell_ids = session_cell_ids session in
    let before =
      map (λ id. (id, derive_cell_status_name_for_state session id session.state)) cell_ids in
    changes_for session new_state before cell_ids
