-- ===== src/Qa/Completion.antt =====
-- src-tauri/src/session/controller.rs: when a session may be completed.
use hive_manager.Base.{
  ◌≡◌, ◌/◌, ◌≤◌, ◌↔◌, ◌⊎◌, inl, inr, arith, Bool-cases, ℕ, ◌+◌, ◌-◌, ltb, Bool, true, false, not,
  ◌||◌, Option, none, some, String, any, if◌then◌else◌,
}
use hive_manager.Session.{
  SessionState, planning, plan_ready, running, qa_passed, evaluator, qa_worker, AgentInfo, Session,
}
use hive_manager.Qa.{
  session_not_found, wrong_state, Outcome, done, refused, Controller, find_session, put_session,
  emit_cell_status_changes, set_session_state_with_events,
}

-- The completion gate.
abbrev pub is_evaluator : AgentInfo → Bool
is_evaluator a = elim a.role [ evaluator ↦ true | qa_worker _ _ ↦ true | _ ↦ false ]

unfoldable pub session_requires_internal_evaluator : Session → Bool
session_requires_internal_evaluator session = any is_evaluator session.agents

abbrev pub is_qa_passed : SessionState → Bool
is_qa_passed qa_passed = true
is_qa_passed _ = false

abbrev pub is_running : SessionState → Bool
is_running running = true
is_running _ = false

unfoldable pub state_allows_completion : Session → Bool
unfolding session_requires_internal_evaluator
state_allows_completion session =
    if session_requires_internal_evaluator session
    then is_qa_passed session.state
    else is_running session.state || is_qa_passed session.state

-- Times are in milliseconds.
abbrev pub quiescence : ℕ
quiescence = 600000

pub data CompletionBlocked : Type 0 where
  state_blocked : SessionState → Bool → CompletionBlocked
  quiescence_blocked : ℕ → CompletionBlocked

-- The two tests of `can_complete_session`, on the session that it has found or loaded. The seconds
-- that remain are rounded down.
unfoldable pub completion_blocked : ℕ → Session → Option CompletionBlocked
unfolding state_allows_completion session_requires_internal_evaluator
completion_blocked now session =
    if not (state_allows_completion session)
    then some (state_blocked session.state (session_requires_internal_evaluator session))
    else if ltb now (session.last_activity_at + quiescence)
    then some (quiescence_blocked ((session.last_activity_at + quiescence - now) / 1000))
    else none

-- `mark_plan_ready`.
abbrev pub is_planning : SessionState → Bool
is_planning planning = true
is_planning _ = false

unfoldable pub plan_ready_on :
    String → Option Session → Controller → Outcome (Unit {0}) × Controller
unfolding set_session_state_with_events
plan_ready_on id none c = (refused (session_not_found id), c)
plan_ready_on id (some s) c =
    let (changes, updated) = set_session_state_with_events s plan_ready in
    if is_planning s.state
    then (done tt, emit_cell_status_changes id changes (put_session id updated c))
    else (refused (wrong_state s.state), c)

unfoldable pub mark_plan_ready : String → Controller → Outcome (Unit {0}) × Controller
unfolding plan_ready_on
mark_plan_ready id c = plan_ready_on id (find_session id c.sessions) c

-- The completion gate lets a session pass exactly if QA has passed, or it is running and has
-- neither an evaluator nor a QA worker, and its last activity is ten minutes old.
pub completion_lem :
    (now : ℕ) (s : Session)
    → (completion_blocked now s ≡ none) ↔ (
        (((s.state ≡ qa_passed) ⊎ ((s.state ≡ running) × (any is_evaluator s.agents ≡ false))))
        × (s.last_activity_at + quiescence ≤ now))
unfolding completion_blocked state_allows_completion session_requires_internal_evaluator
completion_lem now s = elim (Bool-cases (any is_evaluator s.agents)) [
  | inl watched ↦ ground arith
  | inr alone ↦ ground arith
]
