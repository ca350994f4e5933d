-- ===== src/Templates/Ended.antt =====
-- src-tauri/src/templates/mod.rs: how the loop over the blocks of a key ends.
use hive_manager.Base.{
  sym, ◌⊎◌, ℕ, zero, suc, ◌+◌, ◌≤◌, ◌<◌, ◌≡◌, refl, Option, none, some, [], ◌∷◌, ◌++◌, Text, codes,
  length, strip_prefix, find_text, found_here, onto_before, subst, Bool, true, false, if◌then◌else◌,
  Option-cases, inl, inr, arith,
}
use hive_manager.Knowledge.Stripped.{strip-shorter}
use hive_manager.Templates.{
  start_tag, drop, turn, after_turn, matching_end, is_true, with_end, with_start, replace_block,
  or_end, replace_blocks, render_key,
}

length-append : (xs ys : Text) → length (xs ++ ys) ≡ length xs + length ys
length-append [] ys = omega arith
length-append (x ∷ xs) ys = omega (arith, length-append xs ys)

drop-shorter : (n : ℕ) (t : Text) → length (drop n t) ≤ length t
drop-shorter zero t = omega arith
drop-shorter (suc n) [] = omega arith
drop-shorter (suc n) (c ∷ cs) = omega (arith, drop-shorter n cs)

-- Two parts that are together no longer than a number, if there are any.
Parts : ℕ → Option (Text × Text) → Type 0
Parts n none = Unit
Parts n (some (a, b)) = length a + length b ≤ n

onto-Parts : (n c : ℕ) (o : Option (Text × Text)) → Parts n o → Parts (suc n) (onto_before c o)
unfolding Parts
onto-Parts n c none h = tt
onto-Parts n c (some (a, b)) h = omega (arith, h)

after_turn-Parts :
    (c : ℕ) (cs : Text) (o : Option (ℕ × ℕ)) (continue : ℕ → ℕ → Option (Text × Text))
    → ((skip d : ℕ) → Parts (length cs) (continue skip d))
    → Parts (suc (length cs)) (after_turn c cs o continue)
unfolding Parts
after_turn-Parts c cs none continue k = omega (arith, drop-shorter 6 cs)
after_turn-Parts c cs (some (skip, d)) continue k = onto-Parts (length cs) c _ (k skip d)

matching_end-Parts : (skip depth : ℕ) (t : Text) → Parts (length t) (matching_end skip depth t)
unfolding Parts matching_end
matching_end-Parts skip depth [] = tt
matching_end-Parts (suc skip) depth (c ∷ cs) =
    onto-Parts (length cs) c _ (matching_end-Parts skip depth cs)
matching_end-Parts zero depth (c ∷ cs) =
    after_turn-Parts c cs (turn depth (c ∷ cs)) (λ skip d. matching_end skip d cs)
      (λ skip d. matching_end-Parts skip d cs)

-- Two parts with a needle between them that together are as long as a number, if there are any.
Between : ℕ → ℕ → Option (Text × Text) → Type 0
Between k n none = Unit
Between k n (some (b, a)) = length b + k + length a ≡ n

onto-Between :
    (k n c : ℕ) (o : Option (Text × Text)) → Between k n o → Between k (suc n) (onto_before c o)
unfolding Between
onto-Between k n c none h = tt
onto-Between k n c (some (b, a)) h = omega (arith, h)

found_here-Between :
    (needle t : Text) (o : Option Text) (later : Option (Text × Text))
    → strip_prefix needle t ≡ o
    → Between (length needle) (length t) later
    → Between (length needle) (length t) (found_here o later)
unfolding Between
found_here-Between needle t none later h k = k
found_here-Between needle t (some rest) later h k = omega (arith, strip-shorter needle t rest h)

find_text-Between :
    (c : ℕ) (cs t : Text) → Between (length (c ∷ cs)) (length t) (find_text (c ∷ cs) t)
unfolding Between
find_text-Between c cs [] = tt
find_text-Between c cs (x ∷ xs) =
    found_here-Between (c ∷ cs) (x ∷ xs) (strip_prefix (c ∷ cs) (x ∷ xs))
      (onto_before x (find_text (c ∷ cs) xs)) refl
      (onto-Between (length (c ∷ cs)) (length xs) x (find_text (c ∷ cs) xs)
        (find_text-Between c cs xs))

-- A text that is shorter than a number, if there is one.
Shorter : ℕ → Option Text → Type 0
Shorter n none = Unit
Shorter n (some t) = length t < n

kept-short : (b : Bool) (inner : Text) → length (if b then inner else []) ≤ length inner
kept-short true inner = omega arith
kept-short false inner = omega arith

with_end-Shorter :
    (n : ℕ) (value before content : Text) (o : Option (Text × Text))
    → length before + length content < n
    → Parts (length content) o
    → Shorter n (with_end value before o)
unfolding Shorter Parts
with_end-Shorter n value before content none h k = tt
with_end-Shorter n value before content (some (inner, rest)) h k = omega (
  arith,
  h,
  k,
  kept-short (is_true value) inner,
  length-append before ((if is_true value then inner else []) ++ rest),
  length-append (if is_true value then inner else []) rest,
)

with_start-Shorter :
    (k n : ℕ) (value : Text) (o : Option (Text × Text))
    → Between (suc k) n o
    → Shorter n (with_start value o)
unfolding Shorter Between with_start
with_start-Shorter k n value none h = tt
with_start-Shorter k n value (some (before, content)) h =
    with_end-Shorter n value before content (matching_end 0 1 content) (omega (arith, h))
      (matching_end-Parts 0 1 content)

replace_block-Shorter : (key value t : Text) → Shorter (length t) (replace_block key value t)
unfolding replace_block
replace_block-Shorter key value t =
    with_start-Shorter (length (codes "{#if " ++ (key ++ codes "}}"))) (length t) value
      (find_text (start_tag key) t)
      (find_text-Between b'{' (codes "{#if " ++ (key ++ codes "}}")) t)

found_bound : (n : ℕ) (u : Text) (o : Option Text) → o ≡ some u → Shorter n o → length u < n
unfolding Shorter
found_bound n u none e h = cc
found_bound n u (some v) e h = subst (λ (o : Option Text). Shorter n o) e h

no_less : (a n : ℕ) → n ≤ 0 → ¬ (a < n)
no_less a n h k = omega (arith, h, k)

replace_blocks-done :
    (fuel : ℕ) (key value t : Text)
    → length t ≤ fuel
    → replace_block key value (replace_blocks fuel key value t) ≡ none
unfolding replace_blocks
replace_blocks-done zero key value t h = elim (Option-cases (replace_block key value t)) [
  | inl e ↦ e
  | inr (u, e) ↦
      elim (no_less (length u) (length t) h
        (found_bound (length t) u _ e (replace_block-Shorter key value t))) [ ]
]
replace_blocks-done (suc fuel) key value t h = elim (Option-cases (replace_block key value t)) [
  | inl e ↦ rw (e, e) refl
  | inr (u, e) ↦ rw e (
      replace_blocks-done fuel key value u
        (omega (arith, h, found_bound (length t) u _ e (replace_block-Shorter key value t))))
]

-- Turns of the loop, each of which replaces the first block of the key.
pub data Turns (key value : Text) : Text → Text → Type 0 where
  over : (t : Text) → Turns key value t t
  turned :
      (t u v : Text)
      → replace_block key value t ≡ some u
      → Turns key value u v
      → Turns key value t v

replace_blocks-Turns :
    (fuel : ℕ) (key value t : Text) → Turns key value t (replace_blocks fuel key value t)
unfolding replace_blocks
replace_blocks-Turns zero key value t = over t
replace_blocks-Turns (suc fuel) key value t = elim (Option-cases (replace_block key value t)) [
  | inl e ↦ rw e (over t)
  | inr (u, e) ↦
      subst (λ (o : Option Text). Turns key value t (or_end t o (replace_blocks fuel key value)))
        (sym e) (turned t u _ e (replace_blocks-Turns fuel key value u))
]

-- The text has no start tag of the key, or the first has no matching end.
abbrev pub HasNoTurn : Text → Text → Type 0
HasNoTurn key t =
    (find_text (start_tag key) t ≡ none)
    ⊎ ((before : Text) × (content : Text) × (find_text (start_tag key) t ≡ some (before, content))
        × (matching_end 0 1 content ≡ none))

without_end :
    (value before : Text) (o : Option (Text × Text)) → with_end value before o ≡ none → o ≡ none
without_end value before none h = refl
without_end value before (some (inner, rest)) h = cc

stopped :
    (value : Text) (o : Option (Text × Text))
    → with_start value o ≡ none
    → (o ≡ none)
      ⊎ ((before : Text) × (content : Text) × (o ≡ some (before, content))
          × (matching_end 0 1 content ≡ none))
unfolding with_start
stopped value none h = inl refl
stopped value (some (before, content)) h =
    inr (before, content, refl, without_end value before (matching_end 0 1 content) h)

-- The loop over the blocks of a key ends, for every key, value and template: its result is reached
-- by turns that each replace the first block of the key, and in it the first start tag of the key,
-- if one is left, has no matching end. As many turns as the template has characters are enough. (A
-- block that stands after such a start tag, or in it, may be left.)
pub render_key-done :
    (key value t : Text)
    → Turns key value t (render_key key value t) × HasNoTurn key (render_key key value t)
unfolding render_key replace_block
render_key-done key value t = (
  replace_blocks-Turns (length t) key value t,
  stopped value _ (replace_blocks-done (length t) key value t (omega arith)),
)
