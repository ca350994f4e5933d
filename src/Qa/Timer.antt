-- ===== src/Qa/Timer.antt =====
-- src-tauri/src/session/controller.rs: the task of the QA timer.
use hive_manager.Base.{Bool, true, false, Option, none, some, ◌∷◌, String, str_eq, update_where}
use hive_manager.Session.{SessionState, qa_inconclusive, Session}
use hive_manager.Qa.{
  Changes, Controller, find_session, put_session, persist, emit_cell_status_changes,
  set_session_state_with_events, is_qa_in_progress,
}

-- The timer's task after its sleep, in two steps, each under its own lock: it looks whether QA is in
-- progress, and it then changes the session.
abbrev pub in_qa : Option Session → Bool
in_qa none = false
in_qa (some s) = is_qa_in_progress s.state

unfoldable pub timer_check : String → Controller → Bool
timer_check id c = in_qa (find_session id c.sessions)

abbrev pub restore_state : String → SessionState → Controller → Controller
restore_state id state c = record c {
  sessions = update_where (λ s. str_eq s.id id) (λ s. record s { state = state }) c.sessions;
}

abbrev pub fire_settled : String → SessionState → Changes → Bool × Controller → Controller
fire_settled id previous changes (true, c) =
    emit_cell_status_changes id changes (record c { blocked_files = id ∷ c.blocked_files })
fire_settled id previous changes (false, c) = restore_state id previous c

unfoldable pub fire_on : String → Option Session → Controller → Controller
unfolding persist set_session_state_with_events
fire_on id none c = c
fire_on id (some s) c =
    let (changes, updated) = set_session_state_with_events s qa_inconclusive in
    fire_settled id s.state changes (persist updated (put_session id updated c))

unfoldable pub timer_fire : String → Controller → Controller
unfolding fire_on
timer_fire id c = fire_on id (find_session id c.sessions) c
