-- ===== src/Ending.antt =====
-- src-tauri/src/session/controller.rs: a session is completed, stopped or closed. The environment
-- chooses the outcomes of loads, saves and kills. Agents are killed whatever comes of it; the removal
-- of worktrees, watchers and heartbeats is left out. A call is one step.
pub mod Completed
pub mod Terminals
use hive_manager.Base.{
  ℕ, Bool, true, false, not, Option, none, some, List, [], ◌∷◌, map, String, str_eq, Text, codes,
  update_where, if◌then◌else◌,
}
use hive_manager.Session.{
  SessionState, completed, closing, closed, agent_completed, AgentInfo, Session, no_auth,
}
use hive_manager.Qa.{
  Changes, QaError, session_not_found, storage_failed, Controller, find_session, put_session,
  persist, touch, emit_cell_status_changes, set_session_state_with_events,
}
use hive_manager.Qa.Completion.{CompletionBlocked, completion_blocked}
use hive_manager.Scratch.{
  Scratch, unregister_scratch_pty, begin_scratch_pty_cleanup, finish_scratch_pty_cleanup,
}

pub data CompletionError : Type 0 where
  not_found : String → CompletionError
  blocked : CompletionBlocked → CompletionError
  storage : CompletionError

-- A session that is not in memory is looked for in the storage.
abbrev pub blocked_of : Option CompletionBlocked → Option CompletionError
blocked_of none = none
blocked_of (some b) = some (blocked b)

abbrev pub stored_or :
    String → Option Session → (Session → Option CompletionError) → Option CompletionError
stored_or id none check = some (not_found id)
stored_or id (some s) check = check s

unfoldable pub can_complete_on :
    Bool → ℕ → String → Option Session → Controller → Option CompletionError
unfolding completion_blocked
can_complete_on load_ok now id (some s) c = blocked_of (completion_blocked now s)
can_complete_on load_ok now id none c =
    if not c.has_storage
    then some (not_found id)
    else if not load_ok
    then some storage
    else stored_or id (find_session id c.saved) (λ s. blocked_of (completion_blocked now s))

-- None if the session may be completed.
unfoldable pub can_complete_session : Bool → ℕ → String → Controller → Option CompletionError
unfolding can_complete_on
can_complete_session load_ok now id c =
    can_complete_on load_ok now id (find_session id c.sessions) c

unfoldable pub store_found : ℕ → String → Option Session → Controller → Bool × Controller
unfolding persist
store_found now id none c = (true, c)
store_found now id (some s) c = persist (touch now s) (put_session id (touch now s) c)

-- The save, whose error is returned.
unfoldable pub update_session_storage_checked : ℕ → String → Controller → Bool × Controller
unfolding store_found
update_session_storage_checked now id c =
    if c.has_storage then store_found now id (find_session id c.sessions) c else (true, c)

-- The state and the authentication go back to what they were.
unfoldable pub restore : String → Session → Controller → Controller
restore id s c = record c {
  sessions =
      update_where (λ x. str_eq x.id id)
        (λ x. record x { state = s.state; auth_strategy = s.auth_strategy }) c.sessions;
}

abbrev pub completed_session : Session → Session
completed_session s = record s { state = completed; auth_strategy = no_auth }

abbrev pub saved_or_restored : String → Session → Changes → Bool × Controller → Bool × Controller
unfolding restore
saved_or_restored id s changes (true, c) = (true, emit_cell_status_changes id changes c)
saved_or_restored id s changes (false, c) = (false, restore id s c)

-- The session is put in the completed state and saved.
unfoldable pub complete_found : ℕ → String → Session → Controller → Bool × Controller
unfolding set_session_state_with_events update_session_storage_checked saved_or_restored
complete_found now id s c =
    let (changes, updated) = set_session_state_with_events s completed in
    saved_or_restored id s changes (
      update_session_storage_checked now id
        (put_session id (record updated { auth_strategy = no_auth }) c))

abbrev pub error_if_failed {ℓ} : {E : Type ℓ} → E → Bool × Controller → Option E × Controller
error_if_failed e (ok, c) = (if ok then none else some e, c)

abbrev pub complete_stored :
    String → Option Session → Controller → Option CompletionError × Controller
unfolding persist
complete_stored id none c = (some (not_found id), c)
complete_stored id (some s) c = error_if_failed storage (persist (completed_session s) c)

unfoldable pub complete_on :
    Bool → ℕ → String → Option Session → Controller → Option CompletionError × Controller
unfolding complete_found complete_stored
complete_on load_ok now id (some s) c = error_if_failed storage (complete_found now id s c)
complete_on load_ok now id none c =
    if not c.has_storage
    then (some (not_found id), c)
    else if not load_ok
    then (some storage, c)
    else complete_stored id (find_session id c.saved) c

abbrev pub unless_blocked :
    Option CompletionError
    → Controller
    → Option CompletionError × Controller
    → Option CompletionError × Controller
unless_blocked (some e) c next = (some e, c)
unless_blocked none c next = next

-- The gate reads the clock at `now`, the save at `later`.
unfoldable pub mark_session_completed :
    Bool → Bool → ℕ → ℕ → String → Controller → Option CompletionError × Controller
unfolding can_complete_session complete_on
mark_session_completed load_ok load_again_ok now later id c =
    unless_blocked (can_complete_session load_ok now id c) c
      (complete_on load_again_ok later id (find_session id c.sessions) c)

-- The terminals that were killed are no longer registered.
unfoldable pub kill_scratch_ptys : (Text → Bool) → List Text → Scratch → Scratch
unfolding unregister_scratch_pty
kill_scratch_ptys kill_ok [] sc = sc
kill_scratch_ptys kill_ok (p ∷ ps) sc =
    kill_scratch_ptys kill_ok ps (if kill_ok p then unregister_scratch_pty p sc else sc)

-- The terminals of a session are killed while no new one can be registered.
unfoldable pub clean_scratch_ptys : (Text → Bool) → String → Scratch → Scratch
unfolding begin_scratch_pty_cleanup finish_scratch_pty_cleanup kill_scratch_ptys
clean_scratch_ptys kill_ok id sc =
    let (ptys, begun) = begin_scratch_pty_cleanup (codes id) sc in
    finish_scratch_pty_cleanup (codes id) (kill_scratch_ptys kill_ok ptys begun)

unfoldable pub stop_found :
    (Text → Bool)
    → ℕ
    → String
    → Option Session
    → Controller
    → Scratch
    → Option QaError × (Controller × Scratch)
unfolding clean_scratch_ptys complete_found
stop_found kill_ok now id none c sc = (some (session_not_found id), (c, sc))
stop_found kill_ok now id (some s) c sc =
    let (e, c') = error_if_failed storage_failed (complete_found now id s c) in
    (e, (c', clean_scratch_ptys kill_ok id sc))

unfoldable pub stop_session :
    (Text → Bool) → ℕ → String → Controller → Scratch → Option QaError × (Controller × Scratch)
unfolding stop_found
stop_session kill_ok now id c sc = stop_found kill_ok now id (find_session id c.sessions) c sc

abbrev pub closed_session : Session → Session
closed_session s = record s {
  state = closed;
  agents = map (λ (a : AgentInfo). record a { status = agent_completed }) s.agents;
  auth_strategy = no_auth;
}

-- An error of the save is only logged.
unfoldable pub close_found :
    (Text → Bool)
    → ℕ
    → String
    → Option Session
    → Controller
    → Scratch
    → Option QaError × (Controller × Scratch)
unfolding set_session_state_with_events update_session_storage_checked clean_scratch_ptys
close_found kill_ok now id none c sc = (some (session_not_found id), (c, sc))
close_found kill_ok now id (some s) c sc =
    let (to_closing, ending) = set_session_state_with_events s closing in
    let c1 = emit_cell_status_changes id to_closing (put_session id ending c) in
    let done = record ending {
      agents = map (λ (a : AgentInfo). record a { status = agent_completed }) ending.agents;
    } in
    let (to_closed, over) = set_session_state_with_events done closed in
    let c2 = put_session id (record over { auth_strategy = no_auth }) c1 in
    (
      none,
      (
        emit_cell_status_changes id to_closed (update_session_storage_checked now id c2).1,
        clean_scratch_ptys kill_ok id sc,
      ),
    )

unfoldable pub close_session :
    (Text → Bool) → ℕ → String → Controller → Scratch → Option QaError × (Controller × Scratch)
unfolding close_found
close_session kill_ok now id c sc = close_found kill_ok now id (find_session id c.sessions) c sc
