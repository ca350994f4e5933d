-- ===== src/Scratch/Owners.antt =====
-- Who owns a terminal: in every state that the calls reach, one session at most.
use hive_manager.Base.{
  lacks, split_at, split_at-append, strip_prefix, ◌≡◌, refl, sym, ap, ◌∙◌, Bool, true, false, ◌&&◌,
  Option, none, some, List, [], ◌∷◌, ◌++◌, Text, codes, text_eq, text_eq_iff, any, is_nil, select,
  All, Bool-cases, Option-cases, inl, inr, arith,
}
use mathlib.Core.List.{append_assoc}
use hive_manager.Scratch.{
  Scratch, ScratchError, StateOf, has_colon, expected_prefix, unwrap_or_default, is_misnamed, owns,
  reserve_if, reserve_scratch_pty, validate_scratch_pty_session_locked, unregister_scratch_pty,
  begin_scratch_pty_cleanup, finish_scratch_pty_cleanup,
}

-- The states that the calls reach.
pub data IsReached : Scratch → Type 0 where
  initially : IsReached (record { owned = []; cleaning = [] })
  reserved :
      (state_of : StateOf) (session_id pty_id : Text) (s : Scratch)
      → IsReached s
      → IsReached (reserve_scratch_pty state_of session_id pty_id s).1
  unregistered :
      (pty_id : Text) (s : Scratch) → IsReached s → IsReached (unregister_scratch_pty pty_id s)
  cleanup_begun :
      (session_id : Text) (s : Scratch)
      → IsReached s
      → IsReached (begin_scratch_pty_cleanup session_id s).1
  cleanup_finished :
      (session_id : Text) (s : Scratch)
      → IsReached s
      → IsReached (finish_scratch_pty_cleanup session_id s)

abbrev pub AllNamed : List (Text × Text) → Type 0
AllNamed os = All (λ o. is_misnamed o.0 o.1 ≡ false) os

AllNamed-select :
    (p : Text × Text → Bool) (os : List (Text × Text)) → AllNamed os → AllNamed (select p os)
AllNamed-select p [] h = tt
AllNamed-select p (o ∷ os) (h, hs) = elim (Bool-cases (p o)) [
  | inl kept ↦ rw kept (h, AllNamed-select p os hs)
  | inr dropped ↦ rw dropped (AllNamed-select p os hs)
]

AllNamed-reserve :
    (e : Option ScratchError) (session_id pty_id : Text) (s : Scratch)
    → AllNamed s.owned
    → AllNamed (reserve_if e session_id pty_id s).1.owned
unfolding reserve_if
AllNamed-reserve (some e) session_id pty_id s h = h
AllNamed-reserve none session_id pty_id s h = elim (Bool-cases (is_misnamed session_id pty_id)) [
  | inl bad ↦ rw bad h
  | inr good ↦ elim (Bool-cases (owns session_id pty_id s)) [
    | inl old ↦ rw (good, old) h
    | inr new ↦ rw (good, new) (good, h)
  ]
]

reached-AllNamed : (s : Scratch) → IsReached s → AllNamed s.owned
unfolding reserve_scratch_pty unregister_scratch_pty begin_scratch_pty_cleanup
    finish_scratch_pty_cleanup
reached-AllNamed _ initially = tt
reached-AllNamed _ (reserved state_of session_id pty_id s r) =
    AllNamed-reserve (validate_scratch_pty_session_locked state_of session_id s) session_id pty_id s
      (reached-AllNamed s r)
reached-AllNamed _ (unregistered pty_id s r) = AllNamed-select _ s.owned (reached-AllNamed s r)
reached-AllNamed _ (cleanup_begun session_id s r) = reached-AllNamed s r
reached-AllNamed _ (cleanup_finished session_id s r) = reached-AllNamed s r

strip_sound : (p t r : Text) → strip_prefix p t ≡ some r → t ≡ p ++ r
strip_sound [] t r h = ground arith
strip_sound (c ∷ p) [] r h = cc
strip_sound (c ∷ p) (d ∷ t) r h = ground (arith, strip_sound p t r)

colon_free : (t : Text) → has_colon t ≡ false → lacks b':' t ≡ true
colon_free [] h = refl
colon_free (c ∷ t) h = ground (arith, colon_free t)

-- The session that a terminal's name has in it.
abbrev pub second : List Text → Option Text
second (a ∷ b ∷ parts) = some b
second _ = none

named_owner :
    (session_id pty_id : Text)
    → is_misnamed session_id pty_id ≡ false
    → second (split_at b':' pty_id) ≡ some session_id
named_owner session_id pty_id h =
    elim (Option-cases (strip_prefix (expected_prefix session_id) pty_id)) [
      | inl e ↦
          let nothing : is_nil
                (unwrap_or_default (strip_prefix (expected_prefix session_id) pty_id))
              ≡ true =
            ap (λ o. is_nil (unwrap_or_default o)) e in
          ground arith
      | inr (u, e) ↦
          let whole = strip_sound (expected_prefix session_id) pty_id u e in
          ap (λ t. second (split_at b':' t)) whole
          ∙ ap (λ t. second (split_at b':' (codes "scratch:" ++ t)))
              (append_assoc session_id (b':' ∷ []) u)
          ∙ ap (λ ps. second (codes "scratch" ∷ ps))
              (split_at-append b':' session_id u (colon_free session_id (ground arith)))
    ]

owner :
    (session_id pty_id : Text) (os : List (Text × Text))
    → AllNamed os
    → any (λ o. text_eq o.0 session_id && text_eq o.1 pty_id) os ≡ true
    → second (split_at b':' pty_id) ≡ some session_id
owner session_id pty_id [] n h = cc
owner session_id pty_id ((i, p) ∷ os) (n, ns) h =
    elim (Bool-cases (text_eq i session_id && text_eq p pty_id)) [
      | inl hit ↦
          let a : i ≡ session_id = (text_eq_iff i session_id).0 (ground arith) in
          let b : p ≡ pty_id = (text_eq_iff p pty_id).0 (ground arith) in
          sym (ap (λ t. second (split_at b':' t)) b) ∙ named_owner i p n ∙ ap some a
      | inr miss ↦ owner session_id pty_id os ns (ground arith)
    ]

-- In every state that reservations, ends of terminals and cleanups reach from none, a scratch
-- terminal is owned by one session at most.
pub one_owner :
    (s : Scratch) (a b pty_id : Text)
    → IsReached s
    → owns a pty_id s ≡ true
    → owns b pty_id s ≡ true
    → a ≡ b
one_owner s a b pty_id r h k =
    let n = reached-AllNamed s r in
    let e = sym (owner a pty_id s.owned n h) ∙ owner b pty_id s.owned n k in ap unwrap_or_default e
