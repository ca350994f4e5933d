-- ===== src/Knowledge/Stripped.antt =====
-- src-tauri/src/http/handlers/knowledge.rs: the loops that strip a prefix end for want of the prefix.
use hive_manager.Base.{
  ℕ, zero, suc, ◌+◌, ◌==◌, ◌≤◌, ◌≡◌, refl, ap, none, some, [], ◌∷◌, Text, length, strip_prefix,
  strip_again, if_both, Option-cases, inl, inr, arith,
}
use hive_manager.Knowledge.Lookup.{strip_all}

same : (t rest : Text) → some t ≡ some rest → rest ≡ t
same t rest h = cc

-- What is left after a prefix is shorter by it.
pub strip-shorter :
    (prefix t rest : Text)
    → strip_prefix prefix t ≡ some rest
    → length prefix + length rest ≡ length t
strip-shorter [] t rest = λ h. omega (arith, ap length (same t rest h))
strip-shorter (p ∷ ps) [] rest = λ h. cc
strip-shorter (p ∷ ps) (c ∷ cs) rest =
    if_both (λ r. r ≡ some rest → length (p ∷ ps) + length rest ≡ length (c ∷ cs)) (p == c)
      (λ _ h. omega (arith, strip-shorter ps cs rest h)) (λ _ h. cc)

strip_again-done :
    (fuel p : ℕ) (ps t : Text)
    → length t ≤ fuel
    → strip_prefix (p ∷ ps) (strip_again fuel (p ∷ ps) t) ≡ none
strip_again-done zero p ps [] h = refl
strip_again-done zero p ps (c ∷ cs) h = elim h [ ]
strip_again-done (suc fuel) p ps t h = elim (Option-cases (strip_prefix (p ∷ ps) t)) [
  | inl e ↦ rw (strip_again, e, e) refl
  | inr (rest, e) ↦
      rw (strip_again, e)
        (strip_again-done fuel p ps rest (omega (arith, h, strip-shorter (p ∷ ps) t rest e)))
]

-- The loop that strips a prefix as long as it is there ends because it is no longer there, for
-- every prefix that is not empty: as many turns as the text has characters are enough.
pub strip_all-done : (p : ℕ) (ps t : Text) → strip_prefix (p ∷ ps) (strip_all (p ∷ ps) t) ≡ none
strip_all-done p ps t = strip_again-done (length t) p ps t (omega arith)
