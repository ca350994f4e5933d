-- ===== src/Templates.antt =====
-- src-tauri/src/templates/mod.rs: the conditional blocks of a prompt. A block whose variable is set
-- to true, 1 or yes leaves its content, another leaves nothing; blocks may be nested.
pub mod Ended
use hive_manager.Base.{
  ℕ, zero, suc, ◌+◌, ◌-◌, ◌==◌, ltb, Bool, true, false, ◌&&◌, ◌||◌, Option, none, some, List, [],
  ◌∷◌, ◌++◌, Text, codes, text_eq, length, sort_by, starts_with, find_text, onto_before,
  if◌then◌else◌,
}

abbrev pub open_tag : Text
open_tag = codes "{{#if "

abbrev pub end_tag : Text
end_tag = codes "{{/if}}"

abbrev pub start_tag : Text → Text
start_tag key = codes "{{#if " ++ (key ++ codes "}}")

abbrev pub drop : ℕ → Text → Text
drop zero t = t
drop (suc n) [] = []
drop (suc n) (c ∷ cs) = drop n cs

-- What stands at a place of the content of a block: the end of the block, or how many characters
-- after this one to pass over, and the depth from there on.
unfoldable pub turn : ℕ → Text → Option (ℕ × ℕ)
turn depth t =
    if starts_with open_tag t
    then some (5, depth + 1)
    else if starts_with end_tag t
    then (if depth == 1 then none else some (6, depth - 1))
    else some (0, depth)

abbrev pub after_turn :
    ℕ → Text → Option (ℕ × ℕ) → (ℕ → ℕ → Option (Text × Text)) → Option (Text × Text)
after_turn c cs none continue = some ([], drop 6 cs)
after_turn c cs (some (skip, depth)) continue = onto_before c (continue skip depth)

-- The content up to the matching end, and what follows that.
unfoldable pub matching_end : ℕ → ℕ → Text → Option (Text × Text)
unfolding turn
matching_end skip depth [] = none
matching_end (suc skip) depth (c ∷ cs) = onto_before c (matching_end skip depth cs)
matching_end zero depth (c ∷ cs) =
    after_turn c cs (turn depth (c ∷ cs)) (λ skip d. matching_end skip d cs)

abbrev pub is_true : Text → Bool
is_true value =
    text_eq value (codes "true") || text_eq value (codes "1") || text_eq value (codes "yes")

abbrev pub with_end : Text → Text → Option (Text × Text) → Option Text
with_end value before none = none
with_end value before (some (inner, rest)) =
    some (before ++ ((if is_true value then inner else []) ++ rest))

abbrev pub with_start : Text → Option (Text × Text) → Option Text
unfolding matching_end
with_start value none = none
with_start value (some (before, content)) = with_end value before (matching_end 0 1 content)

-- One turn of the loop: the first block of the key replaced, or none when the loop ends.
unfoldable pub replace_block : Text → Text → Text → Option Text
unfolding with_start
replace_block key value template = with_start value (find_text (start_tag key) template)

abbrev pub or_end : Text → Option Text → (Text → Text) → Text
or_end t none continue = t
or_end t (some u) continue = continue u

unfoldable pub replace_blocks : ℕ → Text → Text → Text → Text
unfolding replace_block
replace_blocks zero key value template = template
replace_blocks (suc fuel) key value template =
    or_end template (replace_block key value template) (replace_blocks fuel key value)

-- The loop: the template gets shorter with each turn.
unfoldable pub render_key : Text → Text → Text → Text
unfolding replace_blocks
render_key key value template = replace_blocks (length template) key value template

-- The order of strings.
abbrev pub text_leb : Text → Text → Bool
text_leb [] b = true
text_leb (x ∷ a) [] = false
text_leb (x ∷ a) (y ∷ b) = ltb x y || x == y && text_leb a b

abbrev pub render_keys : List (Text × Text) → Text → Text
unfolding render_key
render_keys [] template = template
render_keys ((key, value) ∷ rest) template = render_keys rest (render_key key value template)

unfoldable pub render_if_blocks : Text → List (Text × Text) → Text
unfolding render_keys
render_if_blocks template variables =
    render_keys (sort_by (λ (a : Text × Text) (b : Text × Text). text_leb a.0 b.0) variables)
      template
