-- ===== src/Contracts/Printed.antt =====
-- src-tauri/src/coordination/contracts.rs: one criterion as the contracts write it, and its reading.
pub mod Readings
pub mod Whole
use hive_manager.Base.{
  ℕ, ◌==◌, ◌≡◌, ◌<◌, refl, sym, ap, ◌∙◌, Bool, true, false, not, ◌&&◌, Option, none, some, List, [],
  ◌∷◌, ◌++◌, ◌⊎◌, inl, inr, all, Text, codes, is_nil, is_digit, is_whitespace, decimal,
  decimal-all_digits, first_passes, last_passes, Bare, last-append, trim_by-keeps, trim-space,
  digits-Bare, digits-fail, split_once, split_once-append, strip_prefix, parse_below,
  parse_below-decimal, if◌then◌else◌, arith,
}
use hive_manager.Contracts.{
  ContractCriterion, ContractParseError, trim, u16_range, non_empty, bracketed, criterion_body,
  numbered, parts_of, parse_criterion_line,
}

-- A text that stands on one line: not empty, without a space at its ends or a line feed.
pub record Inline (t : Text) : Type 0 where
  pub filled : is_nil t ≡ false
  pub bare : Bare is_whitespace t
  pub one_line : all (λ c. not (c == 10)) t ≡ true

-- `[category] description`, or the description alone.
abbrev pub print_body : Option Text → Text → Text
print_body none d = d
print_body (some category) d = b'[' ∷ category ++ (b']' ∷ b' ' ∷ d)

unfoldable pub print_criterion : ContractCriterion → Text
print_criterion c = decimal c.number ++ (b'.' ∷ b' ' ∷ print_body c.category c.description)

-- What a category has to be, with the description that follows, for the two to be told apart.
abbrev pub FitsCategory : Option Text → Text → Type 0
FitsCategory none description = strip_prefix (codes "[") description ≡ none
FitsCategory (some category) description =
    Inline category × (all (λ c. not (c == b']')) category ≡ true)

pub record Printable (c : ContractCriterion) : Type 0 where
  pub in_range : c.number < u16_range
  pub described : Inline c.description
  pub categorised : FitsCategory c.category c.description

pub trim-keeps : (t : Text) → Inline t → trim t ≡ t
trim-keeps t i = trim_by-keeps is_whitespace t i.bare

bracketed-print :
    (line : Text) (n : ℕ) (category d : Text)
    → Inline category
    → Inline d
    → bracketed line n (some (category, b' ' ∷ d))
      ≡ inr record { number = n; category = some category; description = d }
unfolding bracketed
bracketed-print line n category d ci i =
    rw (trim-space d i.bare i.filled, i.filled, trim-keeps category ci, ci.filled) refl

criterion_body-print :
    (line : Text) (n : ℕ) (o : Option Text) (d : Text)
    → Inline d
    → FitsCategory o d
    → criterion_body line n (print_body o d) (strip_prefix (codes "[") (print_body o d))
      ≡ inr record { number = n; category = o; description = d }
unfolding criterion_body
criterion_body-print line n none d i f = rw f refl
criterion_body-print line n (some category) d i (ci, lacks) =
    ap (bracketed line n) (split_once-append (λ c. c == b']') category b']' (b' ' ∷ d) lacks refl)
    ∙ bracketed-print line n category d ci i

pub print_body-Bare : (o : Option Text) (d : Text) → Inline d → Bare is_whitespace (print_body o d)
print_body-Bare none d i = i.bare
print_body-Bare (some category) d i = record {
  first = refl;
  last =
      last-append is_whitespace (b'[' ∷ category) (b']' ∷ b' ' ∷ d) refl
        (last-append is_whitespace (b']' ∷ b' ' ∷ []) d i.filled i.bare.last);
}

pub print_body-filled : (o : Option Text) (d : Text) → Inline d → is_nil (print_body o d) ≡ false
print_body-filled none d i = i.filled
print_body-filled (some category) d i = refl

no_dot : (c : ℕ) → is_digit c ≡ true → (c == b'.') ≡ false
no_dot c h = ground arith

trim-decimal : (n : ℕ) → trim (decimal n) ≡ decimal n
trim-decimal n =
    trim_by-keeps is_whitespace (decimal n) (digits-Bare (decimal n) (decimal-all_digits n))

numbered-print :
    (line : Text) (c : ContractCriterion)
    → Printable c
    → numbered line (b' ' ∷ print_body c.category c.description) (some c.number) ≡ inr c
unfolding numbered
numbered-print line c p =
    let body = print_body c.category c.description in
    let filled = print_body-filled c.category c.description p.described in
    let space = trim-space body (print_body-Bare c.category c.description p.described) filled in
    rw (space, filled)
      (criterion_body-print line c.number c.category c.description p.described p.categorised)

-- A criterion that was printed is read back from its line.
pub parse-print_criterion :
    (c : ContractCriterion) → Printable c → parse_criterion_line (print_criterion c) ≡ inr c
unfolding parse_criterion_line parts_of print_criterion
parse-print_criterion c p =
    let line = print_criterion c in
    let rest = b' ' ∷ print_body c.category c.description in
    ap (parts_of line) (
      split_once-append (λ x. x == b'.') (decimal c.number) b'.' rest
        (digits-fail (λ x. x == b'.') (decimal c.number) no_dot (decimal-all_digits c.number)) refl)
    ∙ ap (numbered line rest) (
        ap (parse_below u16_range) (trim-decimal c.number)
        ∙ parse_below-decimal u16_range c.number p.in_range)
    ∙ numbered-print line c p
