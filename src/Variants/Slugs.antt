-- ===== src/Variants/Slugs.antt =====
-- src-tauri/src/session/controller.rs: what a slug is made of.
use hive_manager.Base.{
  ℕ, ◌≡◌, refl, Bool, true, false, not, ◌&&◌, ◌||◌, leb, [], ◌∷◌, Text, codes, all, is_nil, trim_by,
  trim_start, trim_end, is_whitespace, to_ascii_lowercase, is_ascii_alphanumeric, if_both,
  if◌then◌else◌, Bool-cases, inl, inr, arith,
}
use hive_manager.Base.{Bare, trim_by-Bare}
use hive_manager.Variants.{is_dash, slug_chars, or_variant, slugify_variant_name}

-- A small letter, a digit or a dash.
abbrev pub is_slug_char : ℕ → Bool
is_slug_char c = leb 48 c && leb c 57 || leb 97 c && leb c 122 || is_dash c

-- No two dashes stand together; the flag says that a dash stands before.
abbrev pub single : Bool → Text → Bool
single dash_before [] = true
single dash_before (c ∷ cs) = not (dash_before && is_dash c) && single (is_dash c) cs

-- Small letters and digits, in parts with single dashes between them.
pub record IsSlug (t : Text) : Type 0 where
  pub present : is_nil t ≡ false
  pub chars : all is_slug_char t ≡ true
  pub dashes : single false t ≡ true
  pub bare : Bare is_dash t

lowered-is_slug_char :
    (c : ℕ)
    → is_ascii_alphanumeric (to_ascii_lowercase c) ≡ true
    → (is_slug_char (to_ascii_lowercase c) ≡ true) × (is_dash (to_ascii_lowercase c) ≡ false)
lowered-is_slug_char c h = ground arith

slug_chars-chars : (b : Bool) (cs : Text) → all is_slug_char (slug_chars b cs) ≡ true
unfolding slug_chars
slug_chars-chars b [] = refl
slug_chars-chars b (c ∷ cs) = elim (Bool-cases (is_ascii_alphanumeric (to_ascii_lowercase c))) [
  | inl e ↦ rw (e, (lowered-is_slug_char c e).0, slug_chars-chars false cs) refl
  | inr e ↦ rw e (
      if_both (λ t. all is_slug_char t ≡ true) b (λ _. slug_chars-chars true cs)
        (λ _. slug_chars-chars true cs))
]

slug_chars-single : (b : Bool) (cs : Text) → single b (slug_chars b cs) ≡ true
unfolding slug_chars
slug_chars-single b [] = refl
slug_chars-single b (c ∷ cs) = elim (Bool-cases (is_ascii_alphanumeric (to_ascii_lowercase c))) [
  | inl e ↦ rw e (
      lettered b (to_ascii_lowercase c) (slug_chars false cs) (lowered-is_slug_char c e).1
        (slug_chars-single false cs))
  | inr e ↦ rw e (dashed b (slug_chars true cs) (slug_chars-single true cs))
]
  where
    lettered :
        (b : Bool) (c : ℕ) (r : Text)
        → is_dash c ≡ false
        → single false r ≡ true
        → single b (c ∷ r) ≡ true
    lettered b c r h k = ground arith

    dashed :
        (b : Bool) (r : Text) → single true r ≡ true → single b (if b then r else b'-' ∷ r) ≡ true
    dashed true r h = h
    dashed false r h = h

single-weaken : (b : Bool) (t : Text) → single b t ≡ true → single false t ≡ true
single-weaken b [] h = refl
single-weaken b (c ∷ cs) h = ground arith

cons-single :
    (b : Bool) (p : ℕ → Bool) (c : ℕ) (r : Text)
    → not (b && is_dash c) ≡ true
    → single (is_dash c) r ≡ true
    → single b (elim r [ [] ↦ if p c then [] else c ∷ [] | d ∷ ds ↦ c ∷ d ∷ ds ]) ≡ true
cons-single b p c [] h k = ground arith
cons-single b p c (d ∷ ds) h k = rw (h, k) refl

trim_end-single :
    (b : Bool) (p : ℕ → Bool) (t : Text) → single b t ≡ true → single b (trim_end p t) ≡ true
trim_end-single b p [] h = refl
trim_end-single b p (c ∷ cs) h =
    cons-single b p c (trim_end p cs) (ground arith)
      (trim_end-single (is_dash c) p cs (ground arith))

trim_start-single :
    (p : ℕ → Bool) (t : Text) → single false t ≡ true → single false (trim_start p t) ≡ true
trim_start-single p [] h = refl
trim_start-single p (c ∷ cs) h =
    if_both (λ t. single false t ≡ true) (p c)
      (λ _. trim_start-single p cs (single-weaken (is_dash c) cs (ground arith))) (λ _. h)

cons-all :
    (q p : ℕ → Bool) (c : ℕ) (r : Text)
    → q c ≡ true
    → all q r ≡ true
    → all q (elim r [ [] ↦ if p c then [] else c ∷ [] | d ∷ ds ↦ c ∷ d ∷ ds ]) ≡ true
cons-all q p c [] h k = ground arith
cons-all q p c (d ∷ ds) h k = rw (h, k) refl

trim_end-all : (q p : ℕ → Bool) (t : Text) → all q t ≡ true → all q (trim_end p t) ≡ true
trim_end-all q p [] h = refl
trim_end-all q p (c ∷ cs) h =
    cons-all q p c (trim_end p cs) (ground arith) (trim_end-all q p cs (ground arith))

trim_start-all : (q p : ℕ → Bool) (t : Text) → all q t ≡ true → all q (trim_start p t) ≡ true
trim_start-all q p [] h = refl
trim_start-all q p (c ∷ cs) h =
    if_both (λ t. all q t ≡ true) (p c) (λ _. trim_start-all q p cs (ground arith)) (λ _. h)

variant-IsSlug : IsSlug (codes "variant")
variant-IsSlug = record {
  present = refl;
  chars = refl;
  dashes = refl;
  bare = record { first = refl; last = refl };
}

or_variant-IsSlug :
    (t : Text)
    → all is_slug_char t ≡ true
    → single false t ≡ true
    → Bare is_dash t
    → IsSlug (or_variant t)
or_variant-IsSlug [] a s b = variant-IsSlug
or_variant-IsSlug (c ∷ cs) a s b = record { present = refl; chars = a; dashes = s; bare = b }

-- The slug of every name is not empty and has only small letters, digits and dashes, with no dash at
-- its ends and no two dashes together.
pub slugify_variant_name-IsSlug : (name : Text) → IsSlug (slugify_variant_name name)
unfolding slugify_variant_name
slugify_variant_name-IsSlug name =
    let raw = slug_chars false (trim_by is_whitespace name) in
    or_variant-IsSlug (trim_by is_dash raw)
      (trim_start-all is_slug_char is_dash (trim_end is_dash raw) (
        trim_end-all is_slug_char is_dash raw
          (slug_chars-chars false (trim_by is_whitespace name))))
      (trim_start-single is_dash (trim_end is_dash raw)
        (trim_end-single false is_dash raw (slug_chars-single false (trim_by is_whitespace name))))
      (trim_by-Bare is_dash raw)
