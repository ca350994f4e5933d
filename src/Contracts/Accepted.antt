-- ===== src/Contracts/Accepted.antt =====
-- src-tauri/src/coordination/contracts.rs: what is known of a contract that was read.
use hive_manager.Base.{
  ℕ, ◌==◌, ◌≡◌, ◌<◌, refl, subst, false, not, ◌&&◌, Option, none, some, List, [], ◌∷◌, ◌++◌, ◌⊎◌,
  inl, inr, All, Text, codes, is_nil, is_whitespace, trim_by-Bare, trim_by-keeps, split_once,
  strip_prefix, parse_below, parse_digits, all, is_digit, ltb, value_from, starts_with,
  eq_ignore_ascii_case, if_both, arith,
}
use hive_manager.Contracts.{
  ContractCriterion, SprintContract, ContractParseError, trim, u16_range, and_then, bracketed,
  criterion_body, numbered, parts_of, parse_criterion_line, Reading, reading_none, push_item,
  push_criterion, read_plain, read_titled, read_line, read_lines, lines, finish_titled, finish,
  or_error, missing_title, parse_sprint_contract,
}

-- A text without spaces at its ends, and not empty.
pub Clean : Text → Type 0
Clean t = (is_nil t ≡ false) × (trim t ≡ t)

pub record GoodCriterion (c : ContractCriterion) : Type 0 where
  pub in_range : c.number < u16_range
  pub described : Clean c.description

-- What holds of every result.
Holds : {A : Type 0} → (A → Type 0) → ContractParseError ⊎ A → Type 0
Holds P (inl e) = Unit
Holds P (inr a) = P a

trim-Clean : (t : Text) → is_nil (trim t) ≡ false → Clean (trim t)
unfolding Clean
trim-Clean t n = (n, trim_by-keeps is_whitespace (trim t) (trim_by-Bare is_whitespace t))

bracketed-good :
    (line : Text) (n : ℕ) (o : Option (Text × Text))
    → n < u16_range
    → Holds GoodCriterion (bracketed line n o)
unfolding Holds bracketed
bracketed-good line n none h = tt
bracketed-good line n (some (inside, desc)) h =
    if_both (Holds GoodCriterion) (is_nil (trim desc)) (λ _. tt)
      (λ e. record { in_range = h; described = trim-Clean desc e })

criterion_body-good :
    (line : Text) (n : ℕ) (remainder : Text) (o : Option Text)
    → n < u16_range
    → Clean remainder
    → Holds GoodCriterion (criterion_body line n remainder o)
unfolding Holds criterion_body
criterion_body-good line n remainder none h k = record { in_range = h; described = k }
criterion_body-good line n remainder (some rest) h k =
    bracketed-good line n (split_once (λ c. c == b']') rest) h

numbered-good :
    (line rest : Text) (o : Option ℕ)
    → ((n : ℕ) → o ≡ some n → n < u16_range)
    → Holds GoodCriterion (numbered line rest o)
unfolding Holds numbered
numbered-good line rest none h = tt
numbered-good line rest (some n) h =
    if_both (Holds GoodCriterion) (is_nil (trim rest)) (λ _. tt)
      (λ e.
        criterion_body-good line n (trim rest) (strip_prefix (codes "[") (trim rest)) (h n refl)
          (trim-Clean rest e))

parse_digits-below : (limit : ℕ) (t : Text) (n : ℕ) → parse_digits limit t ≡ some n → n < limit
parse_digits-below limit t n =
    if_both (λ r. r ≡ some n → n < limit)
      (not (is_nil t) && all is_digit t && ltb (value_from 0 t) limit) (λ e h. ground (arith, e, h))
      (λ _ h. cc)

parse_below-bound : (limit : ℕ) (t : Text) (n : ℕ) → parse_below limit t ≡ some n → n < limit
parse_below-bound limit [] n = λ h. cc
parse_below-bound limit (c ∷ cs) n =
    if_both (λ r. r ≡ some n → n < limit) (c == b'+') (λ _. parse_digits-below limit cs n)
      (λ _. parse_digits-below limit (c ∷ cs) n)

parts_of-good : (line : Text) (o : Option (Text × Text)) → Holds GoodCriterion (parts_of line o)
unfolding Holds parts_of
parts_of-good line none = tt
parts_of-good line (some (number_part, rest)) =
    numbered-good line rest (parse_below u16_range (trim number_part))
      (parse_below-bound u16_range (trim number_part))

parse_criterion_line-good : (line : Text) → Holds GoodCriterion (parse_criterion_line line)
unfolding parse_criterion_line
parse_criterion_line-good line = parts_of-good line (split_once (λ c. c == b'.') line)

pub All-push :
    {A : Type 0} (P : A → Type 0) (xs : List A) (x : A) → All P xs → P x → All P (xs ++ x ∷ [])
All-push P [] x h k = (k, tt)
All-push P (y ∷ xs) x (q, h) k = (q, All-push P xs x h k)

record GoodReading (s : Reading) : Type 0 where
  criteria_good : All GoodCriterion s.criteria
  items_clean : All Clean s.pass_threshold

push_item-Good : (s : Reading) (o : Option Text) → GoodReading s → GoodReading (push_item s o)
push_item-Good s none g = g
push_item-Good s (some item) g =
    if_both GoodReading (is_nil (trim item)) (λ _. g)
      (λ e. record {
        criteria_good = g.criteria_good;
        items_clean = All-push Clean s.pass_threshold (trim item) g.items_clean (trim-Clean item e);
      })

push_criterion-Good :
    (s : Reading) (r : ContractParseError ⊎ ContractCriterion)
    → GoodReading s
    → Holds GoodCriterion r
    → Holds GoodReading (and_then r (push_criterion s))
unfolding Holds
push_criterion-Good s (inl e) g k = tt
push_criterion-Good s (inr c) g k = record {
  criteria_good = All-push GoodCriterion s.criteria c g.criteria_good k;
  items_clean = g.items_clean;
}

read_plain-Good :
    (line : Text) (s : Reading) → GoodReading s → Holds GoodReading (read_plain line s)
unfolding read_plain Holds
read_plain-Good line s g =
    if_both (Holds GoodReading) (eq_ignore_ascii_case line (codes "## Acceptance Criteria"))
      (λ _. record { criteria_good = g.criteria_good; items_clean = g.items_clean })
      (λ _.
        if_both (Holds GoodReading) (eq_ignore_ascii_case line (codes "## Pass Threshold"))
          (λ _. record { criteria_good = g.criteria_good; items_clean = g.items_clean })
          (λ _.
            if_both (Holds GoodReading) (starts_with (codes "#") line)
              (λ _. record { criteria_good = g.criteria_good; items_clean = g.items_clean })
              (λ _.
                if_both (Holds GoodReading) s.in_acceptance
                  (λ _.
                    push_criterion-Good s (parse_criterion_line line) g
                      (parse_criterion_line-good line))
                  (λ _.
                    if_both (Holds GoodReading) s.in_threshold
                      (λ _. push_item-Good s (strip_prefix (codes "- ") line) g) (λ _. g)))))

read_titled-Good :
    (line : Text) (o : Option Text) (s : Reading)
    → GoodReading s
    → Holds GoodReading (read_titled line o s)
unfolding read_titled Holds
read_titled-Good line none s g = read_plain-Good line s g
read_titled-Good line (some title) s g = record {
  criteria_good = g.criteria_good;
  items_clean = g.items_clean;
}

read_line-Good : (l : Text) (s : Reading) → GoodReading s → Holds GoodReading (read_line l s)
unfolding read_line Holds
read_line-Good l s g =
    if_both (Holds GoodReading) (is_nil (trim l)) (λ _. g)
      (λ _. read_titled-Good (trim l) (strip_prefix (codes "# Sprint Contract:") (trim l)) s g)

and_then-Holds :
    {A B : Type 0} (P : A → Type 0) (Q : B → Type 0) (r : ContractParseError ⊎ A)
    (f : A → ContractParseError ⊎ B)
    → Holds P r
    → ((a : A) → P a → Holds Q (f a))
    → Holds Q (and_then r f)
unfolding Holds
and_then-Holds P Q (inl e) f h k = tt
and_then-Holds P Q (inr a) f h k = k a h

read_lines-Good :
    (ls : List Text) (s : Reading) → GoodReading s → Holds GoodReading (read_lines ls s)
unfolding read_lines Holds
read_lines-Good [] s g = g
read_lines-Good (l ∷ ls) s g =
    and_then-Holds GoodReading GoodReading (read_line l s) (read_lines ls) (read_line-Good l s g)
      (λ t k. read_lines-Good ls t k)

-- What a contract that was read is sure to be.
pub record WellFormed (markdown : Text) (c : SprintContract) : Type 0 where
  pub criteria_good : All GoodCriterion c.acceptance_criteria
  pub items_clean : All Clean c.pass_threshold
  pub some_criterion : is_nil c.acceptance_criteria ≡ false
  pub some_item : is_nil c.pass_threshold ≡ false
  pub kept_raw : c.raw_markdown ≡ markdown

any_title : (o : Option Text) → Holds (λ _. Unit) (or_error missing_title o)
unfolding Holds
any_title none = tt
any_title (some name) = tt

finish-WellFormed :
    (markdown : Text) (s : Reading)
    → GoodReading s
    → Holds (WellFormed markdown) (finish markdown s)
unfolding finish Holds
finish-WellFormed markdown s g =
    and_then-Holds (λ _. Unit) (WellFormed markdown) (or_error missing_title s.milestone_name)
      (finish_titled markdown s) (any_title s.milestone_name)
      (λ name _.
        if_both (Holds (WellFormed markdown)) (is_nil s.criteria) (λ _. tt)
          (λ c.
            if_both (Holds (WellFormed markdown)) (is_nil s.pass_threshold) (λ _. tt)
              (λ p. record {
                criteria_good = g.criteria_good;
                items_clean = g.items_clean;
                some_criterion = c;
                some_item = p;
                kept_raw = refl;
              })))

-- A contract that is read has at least one criterion and one item of the threshold; every
-- criterion's number is a `u16` and its description, like every item, is not empty and has no
-- space at its ends; and the contract keeps the text it was read from.
pub parse_sprint_contract-WellFormed :
    (markdown : Text) (c : SprintContract)
    → parse_sprint_contract markdown ≡ inr c
    → WellFormed markdown c
unfolding parse_sprint_contract Holds
parse_sprint_contract-WellFormed markdown c h = subst (Holds (WellFormed markdown)) h (
    and_then-Holds GoodReading (WellFormed markdown) (read_lines (lines markdown) reading_none)
      (finish markdown)
      (read_lines-Good (lines markdown) reading_none
        record { criteria_good = tt; items_clean = tt })
      (finish-WellFormed markdown))
