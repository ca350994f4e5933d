-- ===== src/Tests/SessionCases.antt =====
-- Cells and stored forms at concrete sessions.
use hive_manager.Base.{◌≡◌, refl, none, some, [], ◌∷◌, codes, any, count_where, select, arith}
use hive_manager.Session.{
  Session, running, qa_failed, fusion, no_auth, AgentInfo, queen, worker, fusion_agent,
  agent_running, agent_error, cell_failed,
}
use hive_manager.Session.Cells.{agent_in_cell, session_cell_ids}
use hive_manager.Session.Cells.Aggregate.{
  aggregate_cell_status_for_state, status_eq, is_settled_session_state,
}
use hive_manager.Session.Cells.Members.{one_cell}
use hive_manager.Session.Cells.Statuses.{aggregate_lem, error_status}
use hive_manager.Session.Persist.{
  parse_persisted_session_state, serialize_session_state, parse_agent_role,
  serialize_persisted_agent_role,
}
use hive_manager.Session.Persist.States.{state_roundtrip}
use hive_manager.Session.Persist.Roles.{role_roundtrip}

abbrev alpha : AgentInfo
alpha = record {
  id = "s1-alpha";
  role = fusion_agent (codes "Alpha One");
  status = agent_error "lost";
  commit_sha = none;
}

abbrev the_queen : AgentInfo
the_queen = record { id = "s1-queen"; role = queen; status = agent_running; commit_sha = none }

abbrev two_variants : Session
two_variants = record {
  id = "s1";
  session_type = fusion (codes "Alpha One" ∷ codes "alpha-one" ∷ codes "Beta" ∷ []);
  state = running;
  last_activity_at = 5;
  agents = alpha ∷ the_queen ∷ [];
  max_qa_iterations = 3;
  qa_timeout_secs = 300;
  auth_strategy = no_auth;
}

one_cell_example :
    count_where (λ id. agent_in_cell two_variants id alpha) (session_cell_ids two_variants) ≡ 1
one_cell_example = one_cell two_variants alpha refl

aggregate_lem_example :
    status_eq cell_failed
      (aggregate_cell_status_for_state two_variants (codes "variant:alpha-one") running)
    ≡ any
        (λ a. error_status a.status)
        (select (agent_in_cell two_variants (codes "variant:alpha-one")) (alpha ∷ the_queen ∷ []))
unfolding is_settled_session_state
aggregate_lem_example = (aggregate_lem two_variants (codes "variant:alpha-one") running refl).0

state_roundtrip_example :
    parse_persisted_session_state (serialize_session_state (qa_failed 12)) ≡ qa_failed 12
state_roundtrip_example = state_roundtrip (qa_failed 12) (omega arith)

role_roundtrip_example :
    parse_agent_role (serialize_persisted_agent_role (worker 7 (some (codes "s1-queen"))))
    ≡ some (worker 7 (some (codes "s1-queen")))
role_roundtrip_example = role_roundtrip (worker 7 (some (codes "s1-queen"))) refl
