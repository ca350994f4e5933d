-- ===== src/Contracts/Printed/Readings.antt =====
-- src-tauri/src/coordination/contracts.rs: how each printed line is read.
use hive_manager.Base.{
  ℕ, ◌≡◌, refl, ap, ◌∙◌, true, false, none, some, [], ◌∷◌, ◌++◌, inr, all, Text, codes, is_nil,
  is_digit, is_whitespace, decimal, decimal-all_digits, decimal-is_nil, first_passes, Bare,
  last-append, trim_by-keeps, digits-Bare, trim-space, strip_prefix, starts_with,
  eq_ignore_ascii_case, arith,
}
use hive_manager.Contracts.{
  ContractCriterion, parse_criterion_line, Reading, and_then, push_criterion, read_plain,
  read_titled, read_line,
}
use hive_manager.Contracts.Printed.{
  Inline, print_body, print_criterion, Printable, print_body-Bare, print_body-filled, trim-keeps,
  parse-print_criterion,
}

unfoldable pub print_item : Text → Text
print_item t = codes "- " ++ t

plain-title :
    (c : ℕ) (t : Text)
    → is_digit c ≡ true
    → strip_prefix (codes "# Sprint Contract:") (c ∷ t) ≡ none
plain-title c t h = ground arith

plain-heading :
    (c : ℕ) (t h : Text) → is_digit c ≡ true → eq_ignore_ascii_case (c ∷ t) (b'#' ∷ h) ≡ false
plain-heading c t h d = ground arith

plain-hash : (c : ℕ) (t : Text) → is_digit c ≡ true → starts_with (codes "#") (c ∷ t) ≡ false
plain-hash c t h = ground arith

read_plain-digit :
    (c : ℕ) (t : Text) (s : Reading)
    → is_digit c ≡ true
    → s.in_acceptance ≡ true
    → read_plain (c ∷ t) s ≡ and_then (parse_criterion_line (c ∷ t)) (push_criterion s)
unfolding read_plain
read_plain-digit c t s h k =
    rw
      (
        plain-heading c t (codes "# Acceptance Criteria") h,
        plain-heading c t (codes "# Pass Threshold") h,
        plain-hash c t h,
        k,
      )
      refl

head_digit : (c : ℕ) (cs : Text) → all is_digit (c ∷ cs) ≡ true → is_digit c ≡ true
head_digit c cs d = ground arith

read_line-digits :
    (ds rest : Text) (s : Reading)
    → is_nil ds ≡ false
    → all is_digit ds ≡ true
    → Bare is_whitespace (ds ++ rest)
    → s.in_acceptance ≡ true
    → read_line (ds ++ rest) s ≡ and_then (parse_criterion_line (ds ++ rest)) (push_criterion s)
unfolding read_line read_titled
read_line-digits [] rest s n d b k = cc
read_line-digits (c ∷ cs) rest s n d b k =
    let first = head_digit c cs d in
    rw (trim_by-keeps is_whitespace (c ∷ cs ++ rest) b, plain-title c (cs ++ rest) first)
      (read_plain-digit c (cs ++ rest) s first k)

first-append :
    (xs ys : Text)
    → is_nil xs ≡ false
    → first_passes is_whitespace xs ≡ false
    → first_passes is_whitespace (xs ++ ys) ≡ false
first-append [] ys n h = cc
first-append (x ∷ xs) ys n h = h

after-Bare :
    (x : ℕ) (xs t : Text) → is_whitespace x ≡ false → Inline t → Bare is_whitespace (x ∷ xs ++ t)
after-Bare x xs t h i = record {
  first = h;
  last = last-append is_whitespace (x ∷ xs) t i.filled i.bare.last;
}

pub print_criterion-Bare :
    (c : ContractCriterion) → Printable c → Bare is_whitespace (print_criterion c)
unfolding print_criterion
print_criterion-Bare c p =
    let digits = decimal-all_digits c.number in
    let body = print_body c.category c.description in
    let filled = print_body-filled c.category c.description p.described in
    record {
      first =
          first-append (decimal c.number) _ (decimal-is_nil c.number)
            (digits-Bare (decimal c.number) digits).first;
      last = last-append is_whitespace (decimal c.number) (b'.' ∷ b' ' ∷ body) refl (
          last-append is_whitespace (b'.' ∷ b' ' ∷ []) body filled
            (print_body-Bare c.category c.description p.described).last);
    }

pub read_line-criterion :
    (c : ContractCriterion) (s : Reading)
    → Printable c
    → s.in_acceptance ≡ true
    → read_line (print_criterion c) s ≡ inr (record s { criteria = s.criteria ++ c ∷ [] })
unfolding print_criterion
read_line-criterion c s p k =
    read_line-digits (decimal c.number) _ s (decimal-is_nil c.number) (decimal-all_digits c.number)
      (print_criterion-Bare c p) k
    ∙ ap (λ r. and_then r (push_criterion s)) (parse-print_criterion c p)

pub read_line-item :
    (t : Text) (s : Reading)
    → Inline t
    → s.in_acceptance ≡ false
    → s.in_threshold ≡ true
    → read_line (print_item t) s ≡ inr (record s { pass_threshold = s.pass_threshold ++ t ∷ [] })
unfolding read_line read_titled read_plain print_item
read_line-item t s i k h =
    rw
      (
        trim_by-keeps is_whitespace (codes "- " ++ t) (after-Bare b'-' (b' ' ∷ []) t refl i),
        k,
        h,
        trim-keeps t i,
        i.filled,
      )
      refl

pub read_line-title :
    (name : Text) (s : Reading)
    → Inline name
    → read_line (codes "# Sprint Contract: " ++ name) s
      ≡ inr (record s { milestone_name = some name; in_acceptance = false; in_threshold = false })
unfolding read_line read_titled
read_line-title name s i =
    rw
      (
        trim_by-keeps is_whitespace (codes "# Sprint Contract: " ++ name)
            (after-Bare b'#' (codes " Sprint Contract: ") name refl i),
        trim-space name i.bare i.filled,
      )
      refl
