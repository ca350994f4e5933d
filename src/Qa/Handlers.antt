-- ===== src/Qa/Handlers.antt =====
-- src-tauri/src/session/controller.rs: the calls that record a verdict.
use hive_manager.Base.{
  ℕ, Bool, false, not, ◌||◌, Option, none, some, ◌∷◌, String, Text, codes, text_eq, any,
  if◌then◌else◌,
}
use hive_manager.Session.{SessionState, qa_passed, qa_inconclusive, Session}
use hive_manager.Qa.{
  Changes, unsupported_verdict, session_not_found, wrong_state, storage_failed, Outcome, done,
  refused, panicked, Controller, find_session, put_session, cancel_qa_timeout,
  emit_cell_status_changes, set_session_state_with_events, touch, normalize, is_pass, is_fail,
  apply_qa_verdict_to_session, is_qa_in_progress, is_prince, commit,
}
use hive_manager.Qa.Launches.{Launch, update_session_storage, is_prince_remediation, settle_verdict}

-- The call with the session that it found.
unfoldable pub verdict_on :
    (String → Bool)
    → Launch
    → ℕ
    → String
    → String
    → Text
    → Option String
    → Option Session
    → Controller
    → Outcome SessionState × Controller
unfolding settle_verdict apply_qa_verdict_to_session
verdict_on alive fate now id evaluator_id normalized commit_sha none c =
    (refused (session_not_found id), c)
verdict_on alive fate now id evaluator_id normalized commit_sha (some s) c =
    let touched = touch now s in
    if is_qa_in_progress s.state
    then settle_verdict alive fate now id s
        (apply_qa_verdict_to_session touched normalized (some evaluator_id) commit_sha
          (any is_prince touched.agents))
        c
    else (refused (wrong_state s.state), c)

unfoldable pub record_http_qa_verdict :
    (String → Bool)
    → Launch
    → ℕ
    → String
    → String
    → Text
    → Option String
    → Controller
    → Outcome SessionState × Controller
unfolding verdict_on
record_http_qa_verdict alive fate now id evaluator_id verdict commit_sha c =
    let normalized = normalize verdict in
    if is_pass normalized || is_fail normalized
    then verdict_on alive fate now id evaluator_id normalized commit_sha
        (find_session id c.sessions) c
    else (refused (unsupported_verdict verdict), c)

unfoldable pub inconclusive_on :
    String → Option Session → Controller → Outcome SessionState × Controller
unfolding commit set_session_state_with_events
inconclusive_on id none c = (refused (session_not_found id), c)
inconclusive_on id (some s) c =
    let (changes, updated) = set_session_state_with_events s qa_inconclusive in
    let (ok, c') = commit id s updated c in
    if not (is_qa_in_progress s.state)
    then (refused (wrong_state s.state), c)
    else if ok
    then (
      done qa_inconclusive,
      emit_cell_status_changes id changes (record c' { blocked_files = id ∷ c'.blocked_files }),
    )
    else (refused storage_failed, c')

-- The timer is cancelled first, whatever comes of the call.
unfoldable pub mark_qa_inconclusive : String → Controller → Outcome SessionState × Controller
unfolding inconclusive_on cancel_qa_timeout
mark_qa_inconclusive id c = inconclusive_on id (find_session id c.sessions) (cancel_qa_timeout id c)

-- The state that the Prince's verdict asks for.
abbrev pub prince_target : Text → Option SessionState
prince_target v =
    if text_eq v (codes "PASS") || text_eq v (codes "DONE") || text_eq v (codes "RESOLVED")
    then some qa_passed
    else if text_eq v (codes "BLOCKED") || text_eq v (codes "FAIL") || text_eq v (codes "ESCALATE")
    then some qa_inconclusive
    else none

unfoldable pub prince_verdict_on :
    ℕ → String → SessionState → Option Session → Controller → Outcome SessionState × Controller
unfolding commit set_session_state_with_events
prince_verdict_on now id target none c = (refused (session_not_found id), c)
prince_verdict_on now id target (some s) c =
    let (changes, updated) = set_session_state_with_events (touch now s) target in
    let (ok, c') = commit id s updated c in
    if not (is_prince_remediation s.state)
    then (refused (wrong_state s.state), c)
    else if ok
    then (done target, emit_cell_status_changes id changes c')
    else (refused storage_failed, c')

unfoldable pub prince_verdict_for :
    ℕ → String → Text → Option SessionState → Controller → Outcome SessionState × Controller
unfolding prince_verdict_on
prince_verdict_for now id normalized none c = (refused (unsupported_verdict normalized), c)
prince_verdict_for now id normalized (some target) c =
    prince_verdict_on now id target (find_session id c.sessions) c

unfoldable pub record_prince_verdict :
    ℕ → String → Text → Controller → Outcome SessionState × Controller
unfolding prince_verdict_for
record_prince_verdict now id verdict c =
    prince_verdict_for now id (normalize verdict) (prince_target (normalize verdict)) c

-- The operator's verdict: from any state, past the Prince.
unfoldable pub forced_settle :
    ℕ
    → String
    → Option ((SessionState × Changes) × Session)
    → Controller
    → Outcome SessionState × Controller
unfolding update_session_storage
forced_settle now id none c = (panicked, c)
forced_settle now id (some ((new_state, changes), updated)) c = (
  done new_state,
  emit_cell_status_changes id changes (update_session_storage now id (put_session id updated c)),
)

unfoldable pub forced_on :
    ℕ → String → Text → Option Session → Controller → Outcome SessionState × Controller
unfolding apply_qa_verdict_to_session forced_settle
forced_on now id normalized none c = (refused (session_not_found id), c)
forced_on now id normalized (some s) c =
    forced_settle now id (apply_qa_verdict_to_session s normalized none none false) c

unfoldable pub on_qa_verdict : ℕ → String → Text → Controller → Outcome SessionState × Controller
unfolding forced_on cancel_qa_timeout
on_qa_verdict now id verdict c =
    let normalized = normalize verdict in
    if is_pass normalized || is_fail normalized
    then forced_on now id normalized (find_session id c.sessions) (cancel_qa_timeout id c)
    else (refused (unsupported_verdict verdict), c)
