-- ===== src/Qa/Keeping.antt =====
-- The steps that keep a session's state: saves, and launches of the Prince.
use hive_manager.Base.{
  ℕ, ◌≡◌, refl, ap, ◌∙◌, Bool, true, false, not, ◌&&◌, some, List, [], ◌∷◌, String, str_eq,
  if◌then◌else◌, Bool-cases, inl, inr,
}
use hive_manager.Session.{SessionState, Session}
use hive_manager.Qa.{Controller, find_session, put_session, persist, save_with, touch}
use hive_manager.Qa.Launches.{
  Launch, files_failed, spawn_failed, launched, store_on, update_session_storage, launch_prince,
  launch_from, has_agent, respawn_prince, prince_id, is_prince_remediation,
}
use hive_manager.Qa.Keep.{find-id, find-update}
use hive_manager.Qa.Applied.{touch-id, touch-state}

-- A step keeps a session's state, the timers, and whether a storage is attached.
abbrev pub Keeps : String → Session → Controller → Controller → Type 0
Keeps id s c c' =
    ((s' : Session) × (find_session id c'.sessions ≡ some s') × (s'.state ≡ s.state))
    × (c'.timers ≡ c.timers)
    × (c'.has_storage ≡ c.has_storage)

persist-Keeps :
    (id : String) (u s : Session) (c : Controller)
    → find_session id c.sessions ≡ some s
    → Keeps id s c (persist u c).1
unfolding persist
persist-Keeps id u s c found = by_storage c.has_storage
  where
    saved : (saves : List Bool) → Keeps id s c (save_with saves u c).1
    saved [] = ((s, found, refl), refl, refl)
    saved (true ∷ rest) = ((s, found, refl), refl, refl)
    saved (false ∷ rest) = ((s, found, refl), refl, refl)

    by_storage : (b : Bool) → Keeps id s c (if b then save_with c.saves u c else (true, c)).1
    by_storage true = saved c.saves
    by_storage false = ((s, found, refl), refl, refl)

pub put-found :
    (id : String) (s u : Session) (c : Controller)
    → find_session id c.sessions ≡ some s
    → str_eq u.id id ≡ true
    → find_session id (put_session id u c).sessions ≡ some u
put-found id s u c found k = find-update id (λ x. u) c.sessions s found k

storage-Keeps :
    (now : ℕ) (id : String) (s : Session) (c : Controller)
    → find_session id c.sessions ≡ some s
    → Keeps id s c (update_session_storage now id c)
unfolding update_session_storage store_on
storage-Keeps now id s c found = rw found (by_storage c.has_storage)
  where
    by_storage : (b : Bool) → Keeps id s c (if b then store_on now id (some s) c else c)
    by_storage true =
        let k : str_eq (touch now s).id id ≡ true =
          ap (λ i. str_eq i id) (touch-id now s) ∙ find-id id c.sessions s found in
        let ((s', found', same), ts, hs) =
          persist-Keeps id (touch now s) (touch now s) (put_session id (touch now s) c)
            (put-found id s (touch now s) c found k) in
        ((s', found', same ∙ touch-state now s), ts, hs)
    by_storage false = ((s, found, refl), refl, refl)

launch_from-Keeps :
    (fate : Launch) (now : ℕ) (id : String) (s : Session) (c : Controller)
    → find_session id c.sessions ≡ some s
    → Keeps id s c (launch_from fate now id c)
unfolding launch_from
launch_from-Keeps files_failed now id s c found = ((s, found, refl), refl, refl)
launch_from-Keeps spawn_failed now id s c found =
    let k = find-id id c.sessions s found in
    ((_, find-update id _ c.sessions s found k, refl), refl, refl)
launch_from-Keeps launched now id s c found =
    let k = find-id id c.sessions s found in
    let dropped = find-update id _ c.sessions s found k in
    storage-Keeps now id _ _ (find-update id _ _ _ dropped k)

launch-Keeps :
    (alive : String → Bool) (fate : Launch) (now : ℕ) (id : String) (s : Session) (c : Controller)
    → find_session id c.sessions ≡ some s
    → Keeps id s c (launch_prince alive fate now id c)
unfolding launch_prince
launch-Keeps alive fate now id s c found =
    by_test (has_agent (prince_id id) (find_session id c.sessions) && alive (prince_id id))
  where
    by_test : (b : Bool) → Keeps id s c (if b then c else launch_from fate now id c)
    by_test true = ((s, found, refl), refl, refl)
    by_test false = launch_from-Keeps fate now id s c found

pub respawn-Keeps :
    (alive : String → Bool) (fate : Launch) (now : ℕ) (id : String) (st : SessionState)
    (s : Session) (c : Controller)
    → find_session id c.sessions ≡ some s
    → Keeps id s c (respawn_prince alive fate now id st c)
unfolding respawn_prince
respawn-Keeps alive fate now id st s c found =
    elim (Bool-cases (is_prince_remediation st && not (alive (prince_id id)))) [
      | inl attached ↦ rw attached (launch-Keeps alive fate now id s c found)
      | inr bare ↦ rw bare ((s, found, refl), refl, refl)
    ]
