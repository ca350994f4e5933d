-- ===== src/Preview/Address/Normal.antt =====
-- src-tauri/src/preview/mod.rs: normalizing an address only puts a scheme before it, and once.
use hive_manager.Base.{
  Bare, trim_by-Bare, trim_by-keeps, last-append, ℕ, ◌≡◌, refl, ap, ◌∙◌, ◌⊎◌, inl, inr, true, false,
  ◌||◌, ◌∷◌, ◌++◌, Text, codes, is_nil, is_whitespace, if_both, arith,
}
use hive_manager.Preview.Address.{
  normalize_trimmed, trim, schemeless_host, is_localhostish_host, has_explicit_scheme, scheme_at,
  scheme_prepended, normalize_preview_input,
}

-- The result is the trimmed input, or that with `http://` or `https://` before it and no other change.
abbrev pub Prepended : Text → Text → Type 0
Prepended t r = (r ≡ t) ⊎ ((r ≡ codes "http://" ++ t) ⊎ (r ≡ codes "https://" ++ t))

with_http : (t : Text) → has_explicit_scheme (codes "http://" ++ t) ≡ true
unfolding has_explicit_scheme scheme_at
with_http t = refl

with_https : (t : Text) → has_explicit_scheme (codes "https://" ++ t) ≡ true
unfolding has_explicit_scheme scheme_at
with_https t = refl

PrependedTo : Text → Text → Type 0
PrependedTo t r =
    (r ≡ t) ⊎ ((is_nil t ≡ false) × ((r ≡ codes "http://" ++ t) ⊎ (r ≡ codes "https://" ++ t)))

scheme_prepended-PrependedTo : (t : Text) → is_nil t ≡ false → PrependedTo t (scheme_prepended t)
unfolding PrependedTo scheme_prepended
scheme_prepended-PrependedTo t n =
    if_both (PrependedTo t) (is_nil (schemeless_host t)) (λ _. inl refl)
      (λ _.
        if_both (PrependedTo t) (is_localhostish_host (schemeless_host t)) (λ _. inr (n, inl refl))
          (λ _. inr (n, inr refl)))

normalize_trimmed-PrependedTo : (t : Text) → PrependedTo t (normalize_trimmed t)
unfolding PrependedTo normalize_trimmed
normalize_trimmed-PrependedTo t =
    if_both (PrependedTo t) (is_nil t || has_explicit_scheme t) (λ _. inl refl)
      (λ e. scheme_prepended-PrependedTo t (ground (arith, e)))

normalize_trimmed-explicit : (t : Text) → has_explicit_scheme t ≡ true → normalize_trimmed t ≡ t
unfolding normalize_trimmed
normalize_trimmed-explicit t e =
    if_both (λ r. r ≡ t) (is_nil t || has_explicit_scheme t) (λ _. refl) (λ n. ground (arith, n, e))

normalize-trimmed :
    (t : Text) → Bare is_whitespace t → normalize_preview_input t ≡ normalize_trimmed t
unfolding normalize_preview_input
normalize-trimmed t b = ap normalize_trimmed (trim_by-keeps is_whitespace t b)

-- A trimmed text after a prefix that starts and carries a scheme.
prefixed :
    (h : ℕ) (prefix t : Text)
    → is_whitespace h ≡ false
    → Bare is_whitespace t
    → is_nil t ≡ false
    → has_explicit_scheme (h ∷ prefix ++ t) ≡ true
    → normalize_preview_input (h ∷ prefix ++ t) ≡ h ∷ prefix ++ t
prefixed h prefix t w b n e =
    normalize-trimmed (h ∷ prefix ++ t)
      record { first = w; last = last-append is_whitespace (h ∷ prefix) t n b.last }
    ∙ normalize_trimmed-explicit (h ∷ prefix ++ t) e

again :
    (t r : Text)
    → Bare is_whitespace t
    → normalize_trimmed t ≡ r
    → PrependedTo t r
    → normalize_preview_input r ≡ r
unfolding PrependedTo
again t r b e (inl k) = rw k (normalize-trimmed t b ∙ e ∙ k)
again t r b e (inr (n, inl k)) = rw k (prefixed b'h' (codes "ttp://") t refl b n (with_http t))
again t r b e (inr (n, inr k)) = rw k (prefixed b'h' (codes "ttps://") t refl b n (with_https t))

forget : (t r : Text) → PrependedTo t r → Prepended t r
unfolding PrependedTo
forget t r (inl k) = inl k
forget t r (inr (_, k)) = inr k

-- Normalizing never takes an address apart: the result is the trimmed input, or that with
-- `http://` or `https://` before it and no other change; and normalizing the result again
-- changes nothing.
pub normalize_preview_input_lem :
    (input : Text)
    → Prepended (trim input) (normalize_preview_input input)
      × (normalize_preview_input (normalize_preview_input input) ≡ normalize_preview_input input)
unfolding normalize_preview_input
normalize_preview_input_lem input =
    let t = trim input in
    let p = normalize_trimmed-PrependedTo t in
    (
      forget t (normalize_trimmed t) p,
      again t (normalize_trimmed t) (trim_by-Bare is_whitespace input) refl p,
    )
