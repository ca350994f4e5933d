-- ===== src/Session/Persist/Roles.antt =====
-- A stored agent role is read back.
use hive_manager.Base.{
  lacks, last_passes, split_at, split_at-append, starts_with, strip_again, strip_prefix,
  strip_prefix-append, trim_end-append, trim_start_matches, ℕ, zero, suc, ◌==◌, ◌≡◌, ◌<◌, refl, sym,
  ap, ◌∙◌, Bool, true, false, not, ◌&&◌, Option, none, some, [], ◌∷◌, ◌++◌, Text, codes, text_eq,
  text_eq_iff, decimal, decimal-all_digits, decimal-is_nil, is_digit, all, is_nil, length, ltb,
  trim_end, trim_by, is_whitespace, arith,
}
use mathlib.Core.List.{append_assoc}
use hive_manager.Session.{
  AgentRole, master_planner, queen, planner, worker, fusion_agent, judge, evaluator, qa_worker,
  prince, scratch_shell,
}
use hive_manager.Session.Persist.{
  parse_u8, or_none, indexed, serialize_persisted_agent_role, inner, parent_of, indexed_parts,
  parse_indexed_role, as_role, as_planner, parse_agent_role,
}
use hive_manager.Session.Persist.States.{parse_u8-decimal}

abbrev pub is_paren : ℕ → Bool
is_paren c = c == b')'

last_passes-append :
    (p : ℕ → Bool) (xs : Text) (c : ℕ) (ys : Text)
    → p c ≡ false
    → last_passes p ys ≡ false
    → last_passes p (xs ++ c ∷ ys) ≡ false
last_passes-append p [] c [] h l = h
last_passes-append p [] c (y ∷ ys) h l = l
last_passes-append p (x ∷ []) c ys h l = last_passes-append p [] c ys h l
last_passes-append p (x ∷ y ∷ xs) c ys h l = last_passes-append p (y ∷ xs) c ys h l

digits-last : (t : Text) → all is_digit t ≡ true → last_passes is_paren t ≡ false
digits-last [] d = refl
digits-last (x ∷ []) d = ground arith
digits-last (x ∷ y ∷ t) d = ground (arith, digits-last (y ∷ t))

digits-lacks : (t : Text) → all is_digit t ≡ true → lacks b',' t ≡ true
digits-lacks [] d = refl
digits-lacks (x ∷ t) d = ground (arith, digits-lacks t)

-- A number is no beginning of a prefix whose first character is no digit.
digits-strip :
    (p : ℕ) (ps xs ys : Text)
    → is_digit p ≡ false
    → all is_digit xs ≡ true
    → is_nil xs ≡ false
    → strip_prefix (p ∷ ps) (xs ++ ys) ≡ none
digits-strip p ps [] ys k d n = cc
digits-strip p ps (x ∷ xs) ys k d n = ground arith

strip_again-none :
    (fuel : ℕ) (prefix t : Text) → strip_prefix prefix t ≡ none → strip_again fuel prefix t ≡ t
strip_again-none zero prefix t h = refl
strip_again-none (suc fuel) prefix t h = rw (strip_again, h) refl

trim_start-prefix :
    (p : ℕ) (ps t : Text)
    → strip_prefix (p ∷ ps) t ≡ none
    → trim_start_matches (p ∷ ps) ((p ∷ ps) ++ t) ≡ t
trim_start-prefix p ps t s =
    rw (strip_again, strip_prefix-append (p ∷ ps) t)
      (strip_again-none (length (ps ++ t)) (p ∷ ps) t s)

inner_lem :
    (p : ℕ) (ps body : Text)
    → strip_prefix (p ∷ ps) (body ++ b')' ∷ []) ≡ none
    → last_passes is_paren body ≡ false
    → inner (p ∷ ps) ((p ∷ ps) ++ (body ++ b')' ∷ [])) ≡ body
inner_lem p ps body s l =
    ap (trim_end is_paren) (trim_start-prefix p ps (body ++ b')' ∷ []) s)
    ∙ trim_end-append is_paren body b')' refl l

split_at-none : (sep : ℕ) (t : Text) → lacks sep t ≡ true → split_at sep t ≡ t ∷ []
split_at-none sep [] h = refl
split_at-none sep (x ∷ t) h = ground (arith, split_at-none sep t)

-- A parent that the stored form keeps: one without commas, without white space around it, that does
-- not end in a closing parenthesis and is not the word for no parent.
abbrev pub is_plain_parent : Option Text → Bool
is_plain_parent none = true
is_plain_parent (some p) =
    lacks b',' p
    && not (last_passes is_paren p)
    && text_eq (trim_by is_whitespace p) p
    && not (text_eq p (codes "None"))

parent_roundtrip :
    (parent : Option Text)
    → is_plain_parent parent ≡ true
    → parent_of (or_none parent ∷ []) ≡ parent
parent_roundtrip none h = refl
parent_roundtrip (some p) h =
    let same : trim_by is_whitespace p ≡ p =
      (text_eq_iff (trim_by is_whitespace p) p).0 (ground arith) in
    let word : text_eq p (codes "None") ≡ false = ground arith in rw (same, word) refl

parent-lacks :
    (parent : Option Text) → is_plain_parent parent ≡ true → lacks b',' (or_none parent) ≡ true
parent-lacks none h = refl
parent-lacks (some p) h = ground arith

parent-last :
    (parent : Option Text)
    → is_plain_parent parent ≡ true
    → last_passes is_paren (or_none parent) ≡ false
parent-last none h = refl
parent-last (some p) h = ground arith

digits_roundtrip :
    (p : ℕ) (ps ds : Text) (n : ℕ) (parent : Option Text)
    → is_digit p ≡ false
    → all is_digit ds ≡ true
    → is_nil ds ≡ false
    → parse_u8 ds ≡ some n
    → is_plain_parent parent ≡ true
    → parse_indexed_role ((p ∷ ps) ++ (ds ++ b',' ∷ (or_none parent ++ b')' ∷ []))) (p ∷ ps)
      ≡ some (n, parent)
unfolding parse_indexed_role
digits_roundtrip p ps ds n parent k d e u q =
    let body = ds ++ b',' ∷ or_none parent in
    let whole = append_assoc ds (b',' ∷ or_none parent) (b')' ∷ []) in
    let inside : inner (p ∷ ps) ((p ∷ ps) ++ (body ++ b')' ∷ [])) ≡ body =
      inner_lem p ps body (ap (strip_prefix (p ∷ ps)) whole ∙ digits-strip p ps ds _ k d e)
        (last_passes-append is_paren ds b',' (or_none parent) refl (parent-last parent q)) in
    ap (λ t. indexed_parts (split_at b',' (inner (p ∷ ps) ((p ∷ ps) ++ t)))) (sym whole)
    ∙ ap (λ t. indexed_parts (split_at b',' t)) inside
    ∙ ap indexed_parts (
        split_at-append b',' ds (or_none parent) (digits-lacks ds d)
        ∙ ap (ds ∷◌) (split_at-none b',' (or_none parent) (parent-lacks parent q)))
    ∙ rw (indexed_parts, u) (ap (λ r. some (n, r)) (parent_roundtrip parent q))

indexed_roundtrip :
    (p : ℕ) (ps : Text) (n : ℕ) (parent : Option Text)
    → is_digit p ≡ false
    → n < 256
    → is_plain_parent parent ≡ true
    → parse_indexed_role (indexed (p ∷ ps) n parent) (p ∷ ps) ≡ some (n, parent)
unfolding indexed
indexed_roundtrip p ps n parent k h q =
    digits_roundtrip p ps (decimal n) n parent k (decimal-all_digits n) (decimal-is_nil n)
      (parse_u8-decimal n h) q

planner_roundtrip :
    (ds : Text) (n : ℕ)
    → all is_digit ds ≡ true
    → is_nil ds ≡ false
    → parse_u8 ds ≡ some n
    → as_planner (parse_u8 (inner (codes "Planner(") (codes "Planner(" ++ (ds ++ b')' ∷ []))))
      ≡ some (planner n)
planner_roundtrip ds n d e u =
    ap (λ t. as_planner (parse_u8 t))
      (inner_lem b'P' (codes "lanner(") ds (digits-strip b'P' (codes "lanner(") ds _ refl d e)
        (digits-last ds d))
    ∙ ap as_planner u

-- The roles that the stored form keeps: indices are bytes, parents as above, and a variant or a
-- session id does not begin like the stored form itself nor end in a closing parenthesis.
abbrev pub is_plain : AgentRole → Bool
is_plain (planner n) = ltb n 256
is_plain (worker n parent) = ltb n 256 && is_plain_parent parent
is_plain (qa_worker n parent) = ltb n 256 && is_plain_parent parent
is_plain (fusion_agent v) =
    not (starts_with (codes "Fusion(") (v ++ b')' ∷ [])) && not (last_passes is_paren v)
is_plain (judge i) =
    not (starts_with (codes "Judge(") (i ++ b')' ∷ [])) && not (last_passes is_paren i)
is_plain scratch_shell = false
is_plain _ = true

no_start : (prefix t : Text) → starts_with prefix t ≡ false → strip_prefix prefix t ≡ none
no_start prefix t h = ground arith

-- Every role is read back from its stored form, if its index is a byte, its parent has no comma, no
-- outer white space and no closing parenthesis at its end and is not the word None, its variant or
-- session id does not begin like the stored form and does not end in a closing parenthesis, and it
-- is not a scratch shell.
pub role_roundtrip :
    (role : AgentRole)
    → is_plain role ≡ true
    → parse_agent_role (serialize_persisted_agent_role role) ≡ some role
unfolding parse_agent_role serialize_persisted_agent_role
role_roundtrip master_planner h = refl
role_roundtrip queen h = refl
role_roundtrip evaluator h = refl
role_roundtrip prince h = refl
role_roundtrip scratch_shell h = cc
role_roundtrip (planner n) h =
    planner_roundtrip (decimal n) n (decimal-all_digits n) (decimal-is_nil n)
      (parse_u8-decimal n (ground arith))
role_roundtrip (worker n parent) h =
    ap (as_role worker)
      (indexed_roundtrip b'W' (codes "orker(") n parent refl (ground arith) (ground arith))
role_roundtrip (qa_worker n parent) h =
    ap (as_role qa_worker)
      (indexed_roundtrip b'Q' (codes "aWorker(") n parent refl (ground arith) (ground arith))
role_roundtrip (fusion_agent v) h =
    ap (λ t. some (fusion_agent t))
      (inner_lem b'F' (codes "usion(") v
        (no_start (codes "Fusion(") (v ++ b')' ∷ []) (ground arith)) (ground arith))
role_roundtrip (judge i) h =
    ap (λ t. some (judge t))
      (inner_lem b'J' (codes "udge(") i (no_start (codes "Judge(") (i ++ b')' ∷ []) (ground arith))
        (ground arith))
