-- ===== src/Qa.antt =====
-- src-tauri/src/session/controller.rs: the QA gate of a session. The controller's state is passed
-- on explicitly; the environment chooses which saves fail, which processes are alive and how far a
-- launch of the Prince gets. A session id is unique. Log lines and user-interface events other than
-- the changes of cells are left out.
pub mod Launches
pub mod Handlers
pub mod Timer
pub mod Completion
pub mod Keep
pub mod Applied
pub mod Keeping
pub mod Verdicts
pub mod Faults
pub mod Retries
pub mod Panics
use hive_manager.Base.{
  ℕ, ◌+◌, ◌-◌, ltb, leb, Bool, true, false, not, ◌&&◌, ◌||◌, Option, none, some, List, [], ◌∷◌,
  ◌++◌, map, String, str_eq, str_append, Text, codes, text_eq, trim_by, is_whitespace, any, select,
  update_where, if◌then◌else◌,
}
use hive_manager.Session.{
  SessionState, planning, plan_ready, running, qa_in_progress, qa_passed, qa_failed,
  qa_max_retries_exceeded, prince_remediation, qa_inconclusive, completed,
  next_qa_failure_iteration, qa_in_progress_state, AgentRole, evaluator, qa_worker, prince,
  agent_running, AgentInfo, Session, no_auth,
}
use hive_manager.Session.Cells.Aggregate.{cell_status_changes_for_transition}

abbrev pub Changes : Type 0
Changes = List (Text × String × String)

pub data QaError : Type 0 where
  unsupported_verdict : Text → QaError
  session_not_found : String → QaError
  wrong_state : SessionState → QaError
  storage_failed : QaError

-- What a call returns: `panicked` is an `unreachable!` that was reached.
pub data Outcome {ℓ} (A : Type ℓ) : Type ℓ where
  done : A → Outcome A
  refused : QaError → Outcome A
  panicked : Outcome A

-- `saves` has the outcomes of the next saves, the first first; when it is used up, saves succeed.
-- `timers` has the sessions whose QA timer runs, `emitted` the changes of cells that were emitted,
-- `blocked_files` the sessions for which a BLOCKED verdict was written.
pub record Controller : Type 0 where
  pub sessions : List Session
  pub has_storage : Bool
  pub saves : List Bool
  pub saved : List Session
  pub timers : List String
  pub emitted : List (String × Changes)
  pub blocked_files : List String

abbrev pub find_session : String → List Session → Option Session
find_session id [] = none
find_session id (s ∷ ss) = if str_eq s.id id then some s else find_session id ss

-- `sessions.get_mut(id)` followed by writing the session.
abbrev pub put_session : String → Session → Controller → Controller
put_session id session c = record c {
  sessions = update_where (λ s. str_eq s.id id) (λ s. session) c.sessions;
}

unfoldable pub cancel_qa_timeout : String → Controller → Controller
cancel_qa_timeout id c = record c { timers = select (λ t. not (str_eq t id)) c.timers }

-- The timer's start; `timer_check` and `timer_fire` are its task.
unfoldable pub start_qa_timeout : String → Controller → Controller
unfolding cancel_qa_timeout
start_qa_timeout id c = let c' = cancel_qa_timeout id c in record c' { timers = id ∷ c'.timers }

-- A save, by the outcomes that are left.
abbrev pub save_with : List Bool → Session → Controller → Bool × Controller
save_with [] session c = (true, record c { saved = session ∷ c.saved })
save_with (true ∷ rest) session c = (true, record c { saves = rest; saved = session ∷ c.saved })
save_with (false ∷ rest) session c = (false, record c { saves = rest })

-- `persist_session_snapshot`, where a storage is attached.
unfoldable pub persist : Session → Controller → Bool × Controller
persist session c = if c.has_storage then save_with c.saves session c else (true, c)

abbrev pub emit_cell_status_changes : String → Changes → Controller → Controller
emit_cell_status_changes id changes c = record c { emitted = (id, changes) ∷ c.emitted }

-- `set_session_state_with_events`.
unfoldable pub set_session_state_with_events : Session → SessionState → Changes × Session
set_session_state_with_events session new_state =
    (cell_status_changes_for_transition session new_state, record session { state = new_state })

-- `if now > session.last_activity_at { session.last_activity_at = now }`.
abbrev pub touch : ℕ → Session → Session
touch now session =
    if ltb session.last_activity_at now then record session { last_activity_at = now } else session

-- `verdict.trim().to_ascii_uppercase()`.
abbrev pub to_ascii_uppercase : ℕ → ℕ
to_ascii_uppercase c = if leb 97 c && leb c 122 then c - 32 else c

abbrev pub normalize : Text → Text
normalize verdict = map to_ascii_uppercase (trim_by is_whitespace verdict)

abbrev pub is_pass : Text → Bool
is_pass v = text_eq v (codes "PASS") || text_eq v (codes "QA_VERDICT: PASS")

abbrev pub is_fail : Text → Bool
is_fail v = text_eq v (codes "FAIL") || text_eq v (codes "QA_VERDICT: FAIL")

-- The first agent with the id gets the commit.
abbrev pub record_commit : String → Option String → List AgentInfo → List AgentInfo
record_commit id commit_sha [] = []
record_commit id commit_sha (a ∷ as_) =
    if str_eq a.id id
    then record a { commit_sha = commit_sha } ∷ as_
    else a ∷ record_commit id commit_sha as_

abbrev pub with_commit : Option String → Option String → Session → Session
with_commit none commit_sha session = session
with_commit (some id) commit_sha session = record session {
  agents = record_commit id commit_sha session.agents;
}

abbrev pub moved : Session → SessionState → (SessionState × Changes) × Session
unfolding set_session_state_with_events
moved session new_state =
    let (changes, session') = set_session_state_with_events session new_state in
    ((new_state, changes), session')

-- The move to the end of the retries, which also drops the session's authentication.
abbrev pub exhausted : Session → (SessionState × Changes) × Session
unfolding moved
exhausted session =
    let (out, ended) = moved session qa_max_retries_exceeded in
    (out, record ended { auth_strategy = no_auth })

-- None if the verdict is not one of the four, where the code panics.
unfoldable pub apply_qa_verdict_to_session :
    Session
    → Text
    → Option String
    → Option String
    → Bool
    → Option ((SessionState × Changes) × Session)
unfolding moved exhausted next_qa_failure_iteration
apply_qa_verdict_to_session session normalized_verdict evaluator_id commit_sha route_to_prince =
    let session' = with_commit evaluator_id commit_sha session in
    let next_iteration = next_qa_failure_iteration session'.state in
    if route_to_prince
    then some (moved session' prince_remediation)
    else if is_pass normalized_verdict
    then some (moved session' qa_passed)
    else if is_fail normalized_verdict
    then if ltb session'.max_qa_iterations next_iteration
      then some (exhausted session')
      else some (moved session' (qa_failed next_iteration))
    else none

abbrev pub is_qa_in_progress : SessionState → Bool
is_qa_in_progress (qa_in_progress _) = true
is_qa_in_progress _ = false

abbrev pub is_prince : AgentInfo → Bool
is_prince a = elim a.role [ prince ↦ true | _ ↦ false ]

abbrev pub or_put_back : String → Session → Bool × Controller → Bool × Controller
or_put_back id previous (true, c) = (true, c)
or_put_back id previous (false, c) = (false, put_session id previous c)

-- The session in memory is replaced, saved, and put back if the save fails.
abbrev pub commit : String → Session → Session → Controller → Bool × Controller
unfolding persist
commit id previous updated c = or_put_back id previous (persist updated (put_session id updated c))
