-- ===== src/Variants/Distinct.antt =====
-- src-tauri/src/session/controller.rs: when the slugs of a launch differ.
use hive_manager.Base.{
  suc, length, ◌<◌, true-false, ℕ, ◌+◌, ◌==◌, ◌≡◌, ◌≤◌, refl, sym, ap, ◌∙◌, Bool, true, false, not,
  ◌&&◌, Option, none, some, List, [], ◌∷◌, ◌++◌, Text, all, is_nil, is_digit, rsplit_once, text_eq,
  text_eq_iff, member, All, decimal, value-decimal, value_from, decimal-all_digits, decimal-is_nil,
  if_both, if◌then◌else◌, Bool-cases, inl, inr, arith,
}
use hive_manager.Variants.{
  is_dash, slugify_variant_name, Seen, count_up, wrapping_inc, numbered, unique_variant_slug,
  variant_slugs,
}

abbrev pub digits_after : Option (Text × Text) → Bool
digits_after none = false
digits_after (some (before, after)) = not (is_nil after) && all is_digit after

-- The text ends in a dash and a number.
abbrev pub is_numbered : Text → Bool
is_numbered t = digits_after (rsplit_once is_dash t)

digits_no_dash : (t : Text) → all is_digit t ≡ true → rsplit_once is_dash t ≡ none
digits_no_dash [] h = refl
digits_no_dash (c ∷ cs) h =
    let plain : is_dash c ≡ false = ground arith in
    rw (plain, digits_no_dash cs (ground arith)) refl

numbered_split :
    (t d : Text) → all is_digit d ≡ true → rsplit_once is_dash (t ++ b'-' ∷ d) ≡ some (t, d)
numbered_split [] d h = rw (digits_no_dash d h) refl
numbered_split (c ∷ cs) d h = rw (numbered_split cs d h) refl

abbrev pub split_number : Text → ℕ → Option (Text × Text)
split_number base n = rsplit_once is_dash (base ++ b'-' ∷ decimal n)

split_number_lem : (base : Text) (n : ℕ) → split_number base n ≡ some (base, decimal n)
split_number_lem base n = numbered_split base (decimal n) (decimal-all_digits n)

numbered_ends : (base : Text) (n : ℕ) → is_numbered (base ++ b'-' ∷ decimal n) ≡ true
numbered_ends base n = rw (split_number_lem base n, decimal-is_nil n, decimal-all_digits n) refl

decimal_injective : (n m : ℕ) → decimal n ≡ decimal m → n ≡ m
decimal_injective n m h = sym (value-decimal n) ∙ ap (value_from 0) h ∙ value-decimal m

abbrev pub part_of : Text × Text → Option (Text × Text) → Text × Text
part_of other none = other
part_of other (some x) = x

pair_of : (x y : Text × Text) → some x ≡ some y → (x.0 ≡ y.0) × (x.1 ≡ y.1)
pair_of x y h = (ap (λ o. (part_of x o).0) h, ap (λ o. (part_of x o).1) h)

both_numbered :
    (a b : Text) (n m : ℕ) → a ++ b'-' ∷ decimal n ≡ b ++ b'-' ∷ decimal m → (a ≡ b) × (n ≡ m)
both_numbered a b n m h =
    let (same, digits) =
      pair_of (a, decimal n) (b, decimal m)
        (sym (split_number_lem a n) ∙ ap (λ t. rsplit_once is_dash t) h ∙ split_number_lem b m) in
    (same, decimal_injective n m digits)

one_numbered : (a b : Text) (m : ℕ) → is_numbered a ≡ false → ¬ (a ≡ b ++ b'-' ∷ decimal m)
one_numbered a b m h e = true-false (sym (numbered_ends b m) ∙ ap is_numbered (sym e) ∙ h)

is_one : (n : ℕ) → (n == 1) ≡ true → n ≡ 1
is_one n h = ground arith

-- A slug says which name it comes from and which repetition it is.
numbered_injective :
    (a b : Text) (n m : ℕ)
    → is_numbered a ≡ false
    → is_numbered b ≡ false
    → numbered a n ≡ numbered b m
    → (a ≡ b) × (n ≡ m)
numbered_injective a b n m pa pb =
    if_both (λ s. s ≡ numbered b m → (a ≡ b) × (n ≡ m)) (n == 1)
      (λ en.
        if_both (λ s. a ≡ s → (a ≡ b) × (n ≡ m)) (m == 1)
          (λ em h. (h, is_one n en ∙ sym (is_one m em)))
          (λ _ h. elim (one_numbered a b m pa h) [ ]))
      (λ _.
        if_both (λ s. a ++ b'-' ∷ decimal n ≡ s → (a ≡ b) × (n ≡ m)) (m == 1)
          (λ _ h. elim (one_numbered b a n pb (sym h)) [ ]) (λ _ h. both_numbered a b n m h))

abbrev pub count_of : Text → Seen → ℕ
count_of base [] = 0
count_of base ((slug, n) ∷ rest) = if text_eq slug base then n else count_of base rest

small_inc : (n : ℕ) → n + 1 < 65536 → wrapping_inc n ≡ n + 1
small_inc n h = omega (arith, h)

count_up-count_of :
    (b : Text) (seen : Seen)
    → count_of b seen + 1 < 65536
    → ((count_up b seen).0 ≡ count_of b seen + 1)
      × (count_of b (count_up b seen).1 ≡ count_of b seen + 1)
count_up-count_of b [] h = rw ((text_eq_iff b b).1 refl) (refl, refl)
count_up-count_of b ((slug, n) ∷ rest) h = elim (Bool-cases (text_eq slug b)) [
  | inl e ↦
      let small : n + 1 < 65536 = ground arith in rw (e, e) (small_inc n small, small_inc n small)
  | inr e ↦
      let small : count_of b rest + 1 < 65536 = ground arith in
      rw (e, e) (count_up-count_of b rest small)
]

-- The counts of all slugs are so low that this many more are counted without a wrap.
unfoldable pub Room : ℕ → Seen → Type 0
Room k seen = (b : Text) → count_of b seen + k < 65536

count_up_grows :
    (base b : Text) (seen : Seen)
    → count_of b seen + 1 < 65536
    → (count_of base seen ≤ count_of base (count_up b seen).1)
      × (count_of base (count_up b seen).1 ≤ count_of base seen + 1)
count_up_grows base b [] h =
    if_both (λ n. (0 ≤ n) × (n ≤ 1)) (text_eq b base) (λ _. (omega arith, omega arith))
      (λ _. (omega arith, omega arith))
count_up_grows base b ((slug, n) ∷ rest) h = elim (Bool-cases (text_eq slug b)) [
  | inl e ↦
      let small : n + 1 < 65536 = ground arith in
      rw (e, small_inc n small) (one_more (text_eq slug base) n (count_of base rest))
  | inr e ↦
      let small : count_of b rest + 1 < 65536 = ground arith in
      rw e (same_head (text_eq slug base) n _ _ (count_up_grows base b rest small))
]
  where
    one_more :
        (c : Bool) (n k : ℕ)
        → ((if c then n else k) ≤ (if c then n + 1 else k))
          × ((if c then n + 1 else k) ≤ (if c then n else k) + 1)
    one_more true n k = (omega arith, omega arith)
    one_more false n k = (omega arith, omega arith)

    same_head :
        (c : Bool) (n k l : ℕ)
        → (k ≤ l) × (l ≤ k + 1)
        → ((if c then n else k) ≤ (if c then n else l))
          × ((if c then n else l) ≤ (if c then n else k) + 1)
    same_head true n k l h = (omega arith, omega arith)
    same_head false n k l h = h

one_counted : (k : ℕ) (b : Text) (seen : Seen) → Room (suc k) seen → Room k (count_up b seen).1
unfolding Room
one_counted k b seen room base =
    omega (arith, room base, (count_up_grows base b seen (omega (arith, room b))).1)

-- The slugs of the names, none of which ends in a number, are of a kind that the numbered ones are not.
abbrev pub AllPlain : List Text → Type 0
AllPlain names = All (λ name. is_numbered (slugify_variant_name name) ≡ false) names

no_match : (a b : Text) → ¬ (a ≡ b) → text_eq a b ≡ false
no_match a b h = elim (Bool-cases (text_eq a b)) [
  | inl e ↦ elim (h ((text_eq_iff a b).0 e)) [ ]
  | inr e ↦ e
]

too_many :
    (a b : Text) (n : ℕ) (seen : Seen) → a ≡ b → n ≤ count_of a seen → ¬ (n ≡ count_of b seen + 1)
too_many a b n seen same le e =
    let counts = ap (λ t. count_of t seen) same in omega (arith, le, e, counts)

later_other :
    (a : Text) (n : ℕ) (names : List Text) (seen : Seen)
    → is_numbered a ≡ false
    → AllPlain names
    → n ≤ count_of a seen
    → Room (length names) seen
    → member (numbered a n) (variant_slugs names seen) ≡ false
unfolding variant_slugs unique_variant_slug Room
later_other a n [] seen p ps le room = refl
later_other a n (name ∷ names) seen p (q, qs) le room =
    let b = slugify_variant_name name in
    let small : count_of b seen + 1 < 65536 = omega (arith, room b) in
    let counted = count_up b seen in
    let differs : ¬ (numbered a n ≡ numbered b counted.0) = λ h.
      (let (same, m) = numbered_injective a b n counted.0 p q h in
        too_many a b n seen same le (m ∙ (count_up-count_of b seen small).0)) in
    rw
      (
        no_match (numbered a n) (numbered b counted.0) differs,
        later_other a n names counted.1 p qs (omega (arith, le, (count_up_grows a b seen small).0))
            (one_counted (length names) b seen room),
      )
      refl

-- No text stands twice in the list.
abbrev pub AllDiffer : List Text → Type 0
AllDiffer [] = Unit
AllDiffer (t ∷ ts) = (member t ts ≡ false) × AllDiffer ts

slugs-AllDiffer :
    (names : List Text) (seen : Seen)
    → AllPlain names
    → Room (length names) seen
    → AllDiffer (variant_slugs names seen)
unfolding variant_slugs unique_variant_slug Room
slugs-AllDiffer [] seen ps room = tt
slugs-AllDiffer (name ∷ names) seen (q, qs) room =
    let b = slugify_variant_name name in
    let counted = count_up b seen in
    let (number, count) = count_up-count_of b seen (omega (arith, room b)) in
    let left = one_counted (length names) b seen room in
    (
      later_other b counted.0 names counted.1 q qs (omega (arith, number, count)) left,
      slugs-AllDiffer names counted.1 qs left,
    )

-- The variants of a launch, at most 65535, get slugs that all differ, however often a name is
-- repeated, if no name's own slug ends in a dash and a number.
pub variant_slugs-AllDiffer :
    (names : List Text) → AllPlain names → length names < 65536 → AllDiffer (variant_slugs names [])
unfolding Room
variant_slugs-AllDiffer names ps few = slugs-AllDiffer names [] ps (λ _. omega (arith, few))
