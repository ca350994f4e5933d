-- ===== src/Variants.antt =====
-- src-tauri/src/session/controller.rs: the slugs of variants and debaters, from which their branches
-- and folders are named. The map of the slugs seen is the list of its pairs.
pub mod Slugs
pub mod Distinct
use hive_manager.Base.{
  ℕ, ◌+◌, ◌%◌, ◌^◌, ◌==◌, Bool, true, false, Option, none, some, List, [], ◌∷◌, ◌++◌, map, Text,
  codes, text_eq, is_nil, trim_by, is_whitespace, to_ascii_lowercase, is_ascii_alphanumeric,
  decimal, if◌then◌else◌,
}

abbrev pub is_dash : ℕ → Bool
is_dash c = c == b'-'

-- The loop over the characters; the flag says that the last one written is a dash.
unfoldable pub slug_chars : Bool → Text → Text
slug_chars prev_dash [] = []
slug_chars prev_dash (c ∷ cs) =
    let lowered = to_ascii_lowercase c in
    let after_letter = slug_chars false cs in
    let after_dash = slug_chars true cs in
    if is_ascii_alphanumeric lowered
    then lowered ∷ after_letter
    else if prev_dash
    then after_dash
    else b'-' ∷ after_dash

abbrev pub or_variant : Text → Text
or_variant t = if is_nil t then codes "variant" else t

unfoldable pub slugify_variant_name : Text → Text
unfolding slug_chars
slugify_variant_name name =
    or_variant (trim_by is_dash (slug_chars false (trim_by is_whitespace name)))

abbrev pub Seen : Type 0
Seen = List (Text × ℕ)

-- `*v += 1` on a u16, which wraps around in a release build; a debug build stops instead.
abbrev pub wrapping_inc : ℕ → ℕ
wrapping_inc n = (n + 1) % 2 ^ 16

-- The entry of a slug counted up, or a new one, with the count.
abbrev pub onto_seen : Text × ℕ → ℕ × Seen → ℕ × Seen
onto_seen e r = (r.0, e ∷ r.1)

abbrev pub count_up : Text → Seen → ℕ × Seen
count_up base [] = (1, (base, 1) ∷ [])
count_up base ((slug, n) ∷ rest) =
    if text_eq slug base
    then (wrapping_inc n, (slug, wrapping_inc n) ∷ rest)
    else onto_seen (slug, n) (count_up base rest)

abbrev pub numbered : Text → ℕ → Text
numbered base n = if n == 1 then base else base ++ b'-' ∷ decimal n

unfoldable pub unique_variant_slug : Text → Seen → Text × Seen
unfolding slugify_variant_name
unique_variant_slug name seen =
    let base = slugify_variant_name name in
    let (n, seen') = count_up base seen in (numbered base n, seen')

-- The slugs of a launch's variants, in their order.
abbrev pub onto_slugs : Text × Seen → (Seen → List Text) → List Text
onto_slugs r continue = r.0 ∷ continue r.1

unfoldable pub variant_slugs : List Text → Seen → List Text
unfolding unique_variant_slug
variant_slugs [] seen = []
variant_slugs (name ∷ names) seen =
    onto_slugs (unique_variant_slug name seen) (λ s. variant_slugs names s)
