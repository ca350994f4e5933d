-- ===== src/Ending/Completed.antt =====
-- src-tauri/src/session/controller.rs: a completion whose save fails.
use hive_manager.Base.{
  ℕ, ◌+◌, ◌-◌, ◌/◌, ◌≤◌, ◌<◌, ◌≡◌, refl, ap, ◌∙◌, ltb, Bool, true, false, none, some, List, ◌∷◌,
  String, str_eq, update_where, if◌then◌else◌, arith,
}
use hive_manager.Session.{Session}
use hive_manager.Qa.{Controller, find_session, put_session, touch, set_session_state_with_events}
use hive_manager.Qa.Keep.{find-id, find-update}
use hive_manager.Qa.Faults.{persist-fails}
use hive_manager.Qa.Applied.{touch-id}
use hive_manager.Qa.Completion.{
  completion_blocked, quiescence, quiescence_blocked, state_allows_completion,
  session_requires_internal_evaluator,
}
use hive_manager.Ending.{
  storage, blocked, can_complete_session, can_complete_on, store_found,
  update_session_storage_checked, restore, completed_session, complete_found, complete_on,
  mark_session_completed,
}

-- What the save that fails leaves: the session with the new time, then with the old state.
put_back_found :
    (id : String) (s u v : Session) (ss : List Session)
    → find_session id ss ≡ some s
    → str_eq u.id id ≡ true
    → str_eq v.id id ≡ true
    → find_session id (
        update_where
          (λ x. str_eq x.id id)
          (λ x. record x { state = s.state; auth_strategy = s.auth_strategy })
          (update_where
            (λ x. str_eq x.id id)
            (λ x. v)
            (update_where (λ x. str_eq x.id id) (λ x. u) ss)))
      ≡ some (record v { state = s.state; auth_strategy = s.auth_strategy })
put_back_found id s u v ss found hu hv =
    let first = find-update id (λ x. u) ss s found hu in
    let second =
      find-update id (λ x. v) (update_where (λ x. str_eq x.id id) (λ x. u) ss) u first hv in
    find-update id (λ x. record x { state = s.state; auth_strategy = s.auth_strategy })
      (update_where (λ x. str_eq x.id id) (λ x. v) (update_where (λ x. str_eq x.id id) (λ x. u) ss))
      v second hv

store_fails :
    (now : ℕ) (id : String) (u : Session) (rest : List Bool) (c : Controller)
    → find_session id c.sessions ≡ some u
    → c.has_storage ≡ true
    → c.saves ≡ false ∷ rest
    → update_session_storage_checked now id c
      ≡ (false, record (put_session id (touch now u) c) { saves = rest })
unfolding update_session_storage_checked store_found
store_fails now id u rest c found st f =
    ap (λ b. if b then store_found now id (find_session id c.sessions) c else (true, c)) st
    ∙ ap (λ o. store_found now id o c) found
    ∙ persist-fails (touch now u) rest (put_session id (touch now u) c) st f

-- The completed session, saved at a time and put back.
abbrev pub put_back_at : ℕ → Session → Session
put_back_at now s = record (touch now (completed_session s)) {
  state = s.state;
  auth_strategy = s.auth_strategy;
}

touch_keeps_id :
    (now : ℕ) (id : String) (s : Session)
    → str_eq s.id id ≡ true
    → str_eq (touch now s).id id ≡ true
touch_keeps_id now id s h = ap (λ i. str_eq i id) (touch-id now s) ∙ h

complete_fails :
    (later : ℕ) (id : String) (s : Session) (rest : List Bool) (c : Controller)
    → find_session id c.sessions ≡ some s
    → c.has_storage ≡ true
    → c.saves ≡ false ∷ rest
    → ((complete_found later id s c).0 ≡ false)
      × (find_session id (complete_found later id s c).1.sessions ≡ some (put_back_at later s))
unfolding complete_found set_session_state_with_events restore
complete_fails later id s rest c found st f =
    let k = find-id id c.sessions s found in
    let u = completed_session s in
    let there = find-update id (λ x. u) c.sessions s found k in
    rw (store_fails later id u rest (put_session id u c) there st f)
      (refl, put_back_found id s u (touch later u) c.sessions found k (touch_keeps_id later id u k))

passed :
    (now : ℕ) (s : Session)
    → completion_blocked now s ≡ none
    → (state_allows_completion s ≡ true) × (s.last_activity_at + quiescence ≤ now)
unfolding completion_blocked
passed now s h = ground arith

put_back_late :
    (later : ℕ) (s : Session)
    → s.last_activity_at < later
    → put_back_at later s ≡ record s { last_activity_at = later }
put_back_late later s h =
    let moved : ltb s.last_activity_at later ≡ true = ground arith in
    ap
      (λ b.
        record (if b
          then record (completed_session s) { last_activity_at = later }
          else completed_session s) { state = s.state; auth_strategy = s.auth_strategy })
      moved

quiet_again :
    (later t : ℕ) (s : Session)
    → state_allows_completion s ≡ true
    → t < later + quiescence
    → completion_blocked t (record s { last_activity_at = later })
      ≡ some (quiescence_blocked ((later + quiescence - t) / 1000))
unfolding completion_blocked state_allows_completion session_requires_internal_evaluator
quiet_again later t s h k =
    let early : ltb t (later + quiescence) ≡ true = ground arith in rw (h, early) refl

-- If a session that may be completed cannot be saved as completed, the call says so and the session
-- keeps its state, but its last activity is the time of the save: for ten minutes after that it may
-- not be completed, for want of quiet. The time of the save is not before that of the gate.
pub failed_save_blocks :
    (load_ok load_again_ok : Bool) (now later t : ℕ) (id : String) (s : Session) (rest : List Bool)
    (c : Controller)
    → find_session id c.sessions ≡ some s
    → completion_blocked now s ≡ none
    → now ≤ later
    → c.has_storage ≡ true
    → c.saves ≡ false ∷ rest
    → t < later + quiescence
    → let (e, c') = mark_session_completed load_ok load_again_ok now later id c in
      (e ≡ some storage)
      × (find_session id c'.sessions ≡ some (record s { last_activity_at = later }))
      × (can_complete_session load_ok t id c'
          ≡ some (blocked (quiescence_blocked ((later + quiescence - t) / 1000))))
unfolding mark_session_completed can_complete_session can_complete_on complete_on
failed_save_blocks load_ok load_again_ok now later t id s rest c found fit order st f soon =
    let (failed, left) = complete_fails later id s rest c found st f in
    let (allowed, quiet) = passed now s fit in
    let there = left ∙ ap (λ x. some x) (put_back_late later s (omega (arith, quiet, order))) in
    rw (found, fit)
      (
        ap (λ b. if b then none else some storage) failed,
        there,
        rw (there, quiet_again later t s allowed soon) refl,
      )
