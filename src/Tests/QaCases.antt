-- ===== src/Tests/QaCases.antt =====
-- The QA gate at concrete sessions.
use hive_manager.Base.{
  ℕ, ◌≡◌, refl, Bool, true, false, none, some, List, [], ◌∷◌, codes, inl, arith,
}
use hive_manager.Session.{
  Session, SessionState, running, qa_in_progress, qa_passed, qa_max_retries_exceeded,
  qa_inconclusive, prince_remediation, hive, no_auth, AgentInfo, prince, evaluator, agent_running,
  next_qa_failure_iteration, qa_in_progress_state,
}
use hive_manager.Qa.{Controller, find_session, refused, storage_failed}
use hive_manager.Qa.Launches.{launched, spawn_failed}
use hive_manager.Qa.Handlers.{record_http_qa_verdict}
use hive_manager.Qa.Timer.{timer_fire, timer_check}
use hive_manager.Qa.Completion.{completion_blocked, completion_lem}
use hive_manager.Qa.Keep.{state_of}
use hive_manager.Qa.Verdicts.{verdict_lem, timer_overwrites}
use hive_manager.Qa.Faults.{verdict_undone}
use hive_manager.Qa.Panics.{is_panicked, no_panic}
use hive_manager.Qa.Retries.{failed_rounds, rounds_lem}

abbrev with_state : SessionState → ℕ → List AgentInfo → Session
with_state state ceiling agents = record {
  id = "s1";
  session_type = hive 2;
  state = state;
  last_activity_at = 5;
  agents = agents;
  max_qa_iterations = ceiling;
  qa_timeout_secs = 300;
  auth_strategy = no_auth;
}

abbrev with_session : Session → List Bool → Bool → Controller
with_session s saves stored = record {
  sessions = s ∷ [];
  has_storage = stored;
  saves = saves;
  saved = [];
  timers = "s1" ∷ [];
  emitted = [];
  blocked_files = [];
}

abbrev the_prince : AgentInfo
the_prince = record { id = "s1-prince"; role = prince; status = agent_running; commit_sha = none }

abbrev the_evaluator : AgentInfo
the_evaluator = record {
  id = "s1-evaluator";
  role = evaluator;
  status = agent_running;
  commit_sha = none;
}

abbrev in_qa_session : Session
in_qa_session = with_state (qa_in_progress (some 2)) 3 (the_evaluator ∷ [])

verdict_lem_example :
    state_of (
      find_session "s1"
        (record_http_qa_verdict
          (λ x. false)
          spawn_failed
          9
          "s1"
          "s1-evaluator"
          (codes " fail")
          (some "abc")
          (with_session
            (with_state (qa_in_progress (some 2)) 3 (the_evaluator ∷ the_prince ∷ []))
            []
            true)).1.sessions)
    ≡ some prince_remediation
verdict_lem_example =
    (verdict_lem (λ x. false) spawn_failed 9 "s1" "s1-evaluator" (codes " fail") (some "abc")
      (with_state (qa_in_progress (some 2)) 3 (the_evaluator ∷ the_prince ∷ []))
      (with_session (with_state (qa_in_progress (some 2)) 3 (the_evaluator ∷ the_prince ∷ [])) []
        true)
      refl refl refl refl).1

verdict_undone_example :
    record_http_qa_verdict
      (λ x. true)
      launched
      9
      "s1"
      "s1-evaluator"
      (codes "PASS")
      none
      (with_session in_qa_session (false ∷ true ∷ []) true)
    ≡ (refused storage_failed, with_session in_qa_session (true ∷ []) true)
verdict_undone_example =
    verdict_undone (λ x. true) launched 9 "s1" "s1-evaluator" (codes "PASS") none in_qa_session
      (true ∷ []) (with_session in_qa_session (false ∷ true ∷ []) true) refl ((λ h. refl), tt) refl
      refl refl refl

timer_overwrites_example :
    state_of (
      find_session "s1"
        (timer_fire "s1"
          (record_http_qa_verdict
            (λ x. true)
            launched
            9
            "s1"
            "s1-evaluator"
            (codes "PASS")
            none
            (with_session in_qa_session [] false)).1).sessions)
    ≡ some qa_inconclusive
unfolding timer_check
timer_overwrites_example =
    (timer_overwrites (λ x. true) launched 9 "s1" "s1-evaluator" (codes "PASS") none in_qa_session
      (with_session in_qa_session [] false) refl refl refl refl refl refl).2

rounds_lem_example :
    (failed_rounds (codes "FAIL") 4 (with_state running 3 [])).state ≡ qa_max_retries_exceeded
unfolding next_qa_failure_iteration qa_in_progress_state
rounds_lem_example =
    (rounds_lem (codes "FAIL") (with_state running 3 []) refl refl (omega arith) (omega arith)).1

completion_lem_example :
    completion_blocked 700000 (with_state qa_passed 3 (the_evaluator ∷ [])) ≡ none
completion_lem_example =
    (completion_lem 700000 (with_state qa_passed 3 (the_evaluator ∷ []))).1 (inl refl, omega arith)

no_panic_example :
    is_panicked
      (record_http_qa_verdict
        (λ x. true)
        launched
        9
        "s1"
        "e"
        (codes " pass ")
        none
        (with_session in_qa_session [] true)).0
    ≡ false
no_panic_example =
    (no_panic (λ x. true) launched 9 "s1" "e" (codes " pass ") none
      (with_session in_qa_session [] true)).0
