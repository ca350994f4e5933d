-- ===== src/Ending/Terminals.antt =====
-- src-tauri/src/session/controller.rs: what becomes of the operator's terminals of a session that
-- ends.
use hive_manager.Base.{
  ℕ, ◌≡◌, refl, sym, ap, Bool, true, not, ◌&&◌, some, List, [], ◌∷◌, map, String, Text, codes,
  text_eq, text_eq_iff, any, select, Bool-cases, inl, inr, arith,
}
use hive_manager.Session.{Session}
use hive_manager.Qa.{Controller, find_session}
use hive_manager.Scratch.{
  Scratch, owns, unregister_scratch_pty, begin_scratch_pty_cleanup, finish_scratch_pty_cleanup,
}
use hive_manager.Ending.{
  kill_scratch_ptys, clean_scratch_ptys, stop_found, stop_session, close_found, close_session,
}

abbrev pub owned_by : Text → Text → List (Text × Text) → Bool
owned_by session_id pty_id os =
    any (λ (o : Text × Text). text_eq o.0 session_id && text_eq o.1 pty_id) os

same_text : (a b : Text) → text_eq a b ≡ true → a ≡ b
same_text a b h = (text_eq_iff a b).0 h

self_text : (a : Text) → text_eq a a ≡ true
self_text a = (text_eq_iff a a).1 refl

unregistered :
    (session_id p q : Text) (os : List (Text × Text))
    → owned_by session_id p (select (λ o. not (text_eq o.1 q)) os)
      ≡ (owned_by session_id p os && not (text_eq p q))
unregistered session_id p q [] = refl
unregistered session_id p q (o ∷ os) = elim (Bool-cases (text_eq o.1 p)) [
  | inl e ↦ rw (same_text o.1 p e) (ground (arith, unregistered session_id p q os, self_text p))
  | inr e ↦ ground (arith, unregistered session_id p q os)
]

killed :
    (session_id p : Text) (kill_ok : Text → Bool) (ps : List Text) (sc : Scratch)
    → owned_by session_id p (kill_scratch_ptys kill_ok ps sc).owned
      ≡ (owned_by session_id p sc.owned && not (any (λ q. text_eq p q && kill_ok q) ps))
unfolding kill_scratch_ptys unregister_scratch_pty
killed session_id p kill_ok [] sc = ground arith
killed session_id p kill_ok (q ∷ ps) sc = elim (Bool-cases (kill_ok q)) [
  | inl e ↦ rw e (
      ground (
        arith,
        killed session_id p kill_ok ps (unregister_scratch_pty q sc),
        unregistered session_id p q sc.owned,
      ))
  | inr e ↦ rw e (ground (arith, killed session_id p kill_ok ps sc))
]

only_that :
    (p : Text) (kill_ok : Text → Bool) (ps : List Text)
    → any (λ q. text_eq p q && kill_ok q) ps ≡ (any (λ q. text_eq p q) ps && kill_ok p)
only_that p kill_ok [] = refl
only_that p kill_ok (q ∷ ps) = elim (Bool-cases (text_eq p q)) [
  | inl e ↦
      let same : kill_ok q ≡ kill_ok p = ap kill_ok (sym (same_text p q e)) in
      ground (arith, only_that p kill_ok ps)
  | inr e ↦ ground (arith, only_that p kill_ok ps)
]

text_eq_sym : (a b : Text) → text_eq a b ≡ text_eq b a
text_eq_sym [] [] = refl
text_eq_sym [] (b ∷ bs) = refl
text_eq_sym (a ∷ as_) [] = refl
text_eq_sym (a ∷ as_) (b ∷ bs) = ground (arith, text_eq_sym as_ bs)

listed :
    (session_id p : Text) (os : List (Text × Text))
    → any
        (λ q. text_eq p q)
        (map (λ (o : Text × Text). o.1) (select (λ o. text_eq o.0 session_id) os))
      ≡ owned_by session_id p os
listed session_id p [] = refl
listed session_id p (o ∷ os) = ground (arith, listed session_id p os, text_eq_sym p o.1)

cleaned :
    (kill_ok : Text → Bool) (id : String) (p : Text) (sc : Scratch)
    → owns (codes id) p (clean_scratch_ptys kill_ok id sc)
      ≡ (owns (codes id) p sc && not (kill_ok p))
unfolding clean_scratch_ptys begin_scratch_pty_cleanup finish_scratch_pty_cleanup
cleaned kill_ok id p sc =
    let ptys =
      map (λ (o : Text × Text). o.1)
        (select (λ (o : Text × Text). text_eq o.0 (codes id)) sc.owned) in
    let cut = killed (codes id) p kill_ok ptys (record sc { cleaning = codes id ∷ sc.cleaning }) in
    ground (arith, cut, only_that p kill_ok ptys, listed (codes id) p sc.owned)

-- After a session is stopped or closed, its registered terminals are those that it had before and
-- whose kill failed, whether its save succeeds or not.
pub ending-owns :
    (kill_ok : Text → Bool) (now : ℕ) (id : String) (p : Text) (s : Session) (c : Controller)
    (sc : Scratch)
    → find_session id c.sessions ≡ some s
    → (owns (codes id) p (stop_session kill_ok now id c sc).1.1
        ≡ (owns (codes id) p sc && not (kill_ok p)))
      × (owns (codes id) p (close_session kill_ok now id c sc).1.1
          ≡ (owns (codes id) p sc && not (kill_ok p)))
unfolding stop_session stop_found close_session close_found
ending-owns kill_ok now id p s c sc found =
    rw found (cleaned kill_ok id p sc, cleaned kill_ok id p sc)
