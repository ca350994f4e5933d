-- ===== src/Qa/Launches.antt =====
-- src-tauri/src/session/controller.rs: the saves whose errors are only logged, the launch of the
-- Prince, and the part of an evaluator's verdict after it has been applied in memory.
use hive_manager.Base.{
  ℕ, Bool, true, false, not, ◌&&◌, Option, none, some, [], ◌∷◌, ◌++◌, String, str_eq, str_append,
  any, select, update_where, if◌then◌else◌,
}
use hive_manager.Session.{
  SessionState, prince_remediation, prince, agent_running, AgentInfo, Session,
}
use hive_manager.Qa.{
  Changes, storage_failed, Outcome, done, refused, panicked, Controller, find_session, put_session,
  cancel_qa_timeout, persist, emit_cell_status_changes, touch, commit,
}

-- How far a launch of the Prince gets.
pub data Launch : Type 0 where
  files_failed spawn_failed launched : Launch

abbrev pub drop_agent : String → String → Controller → Controller
drop_agent id agent_id c = record c {
  sessions =
      update_where (λ s. str_eq s.id id)
        (λ s. record s { agents = select (λ a. not (str_eq a.id agent_id)) s.agents }) c.sessions;
}

abbrev pub push_agent : String → AgentInfo → Controller → Controller
push_agent id agent c = record c {
  sessions =
      update_where (λ s. str_eq s.id id) (λ s. record s { agents = s.agents ++ agent ∷ [] })
        c.sessions;
}

unfoldable pub store_on : ℕ → String → Option Session → Controller → Controller
unfolding persist
store_on now id none c = c
store_on now id (some s) c = (persist (touch now s) (put_session id (touch now s) c)).1

-- The error of the save is only logged.
unfoldable pub update_session_storage : ℕ → String → Controller → Controller
unfolding store_on
update_session_storage now id c =
    if c.has_storage then store_on now id (find_session id c.sessions) c else c

abbrev pub prince_id : String → String
prince_id id = str_append id "-prince"

-- What a launch does to the controller once the Prince's files are to be written.
unfoldable pub launch_from : Launch → ℕ → String → Controller → Controller
unfolding update_session_storage
launch_from files_failed now id c = c
launch_from spawn_failed now id c = drop_agent id (prince_id id) c
launch_from launched now id c = update_session_storage now id (
    push_agent id
      (record { id = prince_id id; role = prince; status = agent_running; commit_sha = none })
      (drop_agent id (prince_id id) c))

abbrev pub has_agent : String → Option Session → Bool
has_agent agent_id none = false
has_agent agent_id (some s) = any (λ a. str_eq a.id agent_id) s.agents

-- A Prince that is there and alive is left as it is.
unfoldable pub launch_prince : (String → Bool) → Launch → ℕ → String → Controller → Controller
unfolding launch_from
launch_prince alive fate now id c =
    if has_agent (prince_id id) (find_session id c.sessions) && alive (prince_id id)
    then c
    else launch_from fate now id c

abbrev pub is_prince_remediation : SessionState → Bool
is_prince_remediation prince_remediation = true
is_prince_remediation _ = false

unfoldable pub respawn_prince :
    (String → Bool) → Launch → ℕ → String → SessionState → Controller → Controller
unfolding launch_prince
respawn_prince alive fate now id new_state c =
    if is_prince_remediation new_state && not (alive (prince_id id))
    then launch_prince alive fate now id c
    else c

-- The part after the verdict has been applied in memory.
unfoldable pub settle_verdict :
    (String → Bool)
    → Launch
    → ℕ
    → String
    → Session
    → Option ((SessionState × Changes) × Session)
    → Controller
    → Outcome SessionState × Controller
unfolding commit cancel_qa_timeout respawn_prince
settle_verdict alive fate now id previous none c = (panicked, c)
settle_verdict alive fate now id previous (some ((new_state, changes), updated)) c =
    let (ok, c') = commit id previous updated c in
    let c2 = respawn_prince alive fate now id new_state (cancel_qa_timeout id c') in
    if ok
    then (done new_state, emit_cell_status_changes id changes c2)
    else (refused storage_failed, c')
