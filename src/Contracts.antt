-- ===== src/Contracts.antt =====
-- src-tauri/src/coordination/contracts.rs: reading a sprint contract from its Markdown. In the two
-- searches for a heading, lower-casing is that of ASCII: no other letter becomes one of theirs.
pub mod Accepted
pub mod Printed
use hive_manager.Base.{
  contains, ℕ, ◌==◌, Bool, true, false, not, ◌&&◌, ◌||◌, Option, none, some, List, [], ◌∷◌, ◌++◌,
  ◌⊎◌, inl, inr, map, Text, codes, is_nil, is_whitespace, trim_by, split_at, split_once,
  strip_prefix, starts_with, parse_below, to_ascii_lowercase, eq_ignore_ascii_case, if◌then◌else◌,
}

pub record ContractCriterion : Type 0 where
  pub number : ℕ
  pub category : Option Text
  pub description : Text

pub record SprintContract : Type 0 where
  pub milestone_name : Text
  pub acceptance_criteria : List ContractCriterion
  pub pass_threshold : List Text
  pub raw_markdown : Text

pub data ContractParseError : Type 0 where
  missing_title : ContractParseError
  missing_acceptance_criteria : ContractParseError
  missing_pass_threshold : ContractParseError
  invalid_criterion : Text → ContractParseError
  no_criteria : ContractParseError
  no_thresholds : ContractParseError

abbrev pub trim : Text → Text
trim t = trim_by is_whitespace t

abbrev pub u16_range : ℕ
u16_range = 65536

-- `str::lines`: a line ends at a line feed, with a carriage return before it or not, and nothing
-- after the last line feed is no line.
abbrev pub without_return : Text → Text
without_return [] = []
without_return (c ∷ []) = if c == 13 then [] else c ∷ []
without_return (c ∷ d ∷ cs) = c ∷ without_return (d ∷ cs)

abbrev pub drop_last_empty : List Text → List Text
drop_last_empty [] = []
drop_last_empty (l ∷ []) = if is_nil l then [] else l ∷ []
drop_last_empty (l ∷ k ∷ ls) = l ∷ drop_last_empty (k ∷ ls)

unfoldable pub lines : Text → List Text
lines t = map without_return (drop_last_empty (split_at 10 t))

abbrev pub or_error : {A : Type 0} → ContractParseError → Option A → ContractParseError ⊎ A
or_error e none = inl e
or_error e (some a) = inr a

abbrev pub and_then :
    {A B : Type 0} → ContractParseError ⊎ A → (A → ContractParseError ⊎ B) → ContractParseError ⊎ B
and_then (inl e) f = inl e
and_then (inr a) f = f a

abbrev pub non_empty : Text → Option Text
non_empty t = if is_nil t then none else some t

-- A category in brackets and the description after it.
unfoldable pub bracketed : Text → ℕ → Option (Text × Text) → ContractParseError ⊎ ContractCriterion
bracketed line n none = inl (invalid_criterion line)
bracketed line n (some (inside, desc)) =
    if is_nil (trim desc)
    then inl (invalid_criterion line)
    else inr record { number = n; category = non_empty (trim inside); description = trim desc }

unfoldable pub criterion_body :
    Text → ℕ → Text → Option Text → ContractParseError ⊎ ContractCriterion
unfolding bracketed
criterion_body line n remainder (some rest) = bracketed line n (split_once (λ c. c == b']') rest)
criterion_body line n remainder none =
    inr record { number = n; category = none; description = remainder }

unfoldable pub numbered : Text → Text → Option ℕ → ContractParseError ⊎ ContractCriterion
unfolding criterion_body
numbered line rest none = inl (invalid_criterion line)
numbered line rest (some n) =
    let remainder = trim rest in
    if is_nil remainder
    then inl (invalid_criterion line)
    else criterion_body line n remainder (strip_prefix (codes "[") remainder)

unfoldable pub parts_of : Text → Option (Text × Text) → ContractParseError ⊎ ContractCriterion
unfolding numbered
parts_of line none = inl (invalid_criterion line)
parts_of line (some (number_part, rest)) =
    numbered line rest (parse_below u16_range (trim number_part))

unfoldable pub parse_criterion_line : Text → ContractParseError ⊎ ContractCriterion
unfolding parts_of
parse_criterion_line line = parts_of line (split_once (λ c. c == b'.') line)

-- The local variables of the loop over the lines.
pub record Reading : Type 0 where
  pub milestone_name : Option Text
  pub in_acceptance : Bool
  pub in_threshold : Bool
  pub criteria : List ContractCriterion
  pub pass_threshold : List Text

abbrev pub reading_none : Reading
reading_none = record {
  milestone_name = none;
  in_acceptance = false;
  in_threshold = false;
  criteria = [];
  pass_threshold = [];
}

abbrev pub push_criterion : Reading → ContractCriterion → ContractParseError ⊎ Reading
push_criterion s c = inr (record s { criteria = s.criteria ++ c ∷ [] })

abbrev pub push_item : Reading → Option Text → Reading
push_item s none = s
push_item s (some item) =
    if is_nil (trim item)
    then s
    else record s { pass_threshold = s.pass_threshold ++ trim item ∷ [] }

-- A line that is no title.
unfoldable pub read_plain : Text → Reading → ContractParseError ⊎ Reading
unfolding parse_criterion_line
read_plain line s =
    if eq_ignore_ascii_case line (codes "## Acceptance Criteria")
    then inr (record s { in_acceptance = true; in_threshold = false })
    else if eq_ignore_ascii_case line (codes "## Pass Threshold")
    then inr (record s { in_acceptance = false; in_threshold = true })
    else if starts_with (codes "#") line
    then inr (record s { in_acceptance = false; in_threshold = false })
    else if s.in_acceptance
    then and_then (parse_criterion_line line) (push_criterion s)
    else if s.in_threshold
    then inr (push_item s (strip_prefix (codes "- ") line))
    else inr s

unfoldable pub read_titled : Text → Option Text → Reading → ContractParseError ⊎ Reading
unfolding read_plain
read_titled line (some title) s =
    inr
      (record s { milestone_name = some (trim title); in_acceptance = false; in_threshold = false })
read_titled line none s = read_plain line s

unfoldable pub read_line : Text → Reading → ContractParseError ⊎ Reading
unfolding read_titled
read_line raw_line s =
    let line = trim raw_line in
    if is_nil line
    then inr s
    else read_titled line (strip_prefix (codes "# Sprint Contract:") line) s

unfoldable pub read_lines : List Text → Reading → ContractParseError ⊎ Reading
unfolding read_line
read_lines [] s = inr s
read_lines (l ∷ ls) s = and_then (read_line l s) (read_lines ls)

abbrev pub has_heading : Text → Text → Bool
has_heading heading markdown = contains heading (map to_ascii_lowercase markdown)

abbrev pub finish_titled : Text → Reading → Text → ContractParseError ⊎ SprintContract
finish_titled markdown s milestone_name =
    if is_nil s.criteria
    then inl (
        if has_heading (codes "## acceptance criteria") markdown
        then no_criteria
        else missing_acceptance_criteria)
    else if is_nil s.pass_threshold
    then inl (
        if has_heading (codes "## pass threshold") markdown
        then no_thresholds
        else missing_pass_threshold)
    else inr record {
      milestone_name = milestone_name;
      acceptance_criteria = s.criteria;
      pass_threshold = s.pass_threshold;
      raw_markdown = markdown;
    }

unfoldable pub finish : Text → Reading → ContractParseError ⊎ SprintContract
finish markdown s = and_then (or_error missing_title s.milestone_name) (finish_titled markdown s)

unfoldable pub parse_sprint_contract : Text → ContractParseError ⊎ SprintContract
unfolding lines read_lines finish
parse_sprint_contract markdown =
    and_then (read_lines (lines markdown) reading_none) (finish markdown)
