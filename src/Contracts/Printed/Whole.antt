-- ===== src/Contracts/Printed/Whole.antt =====
-- src-tauri/src/coordination/contracts.rs: a whole contract as the contracts write it, and its reading.
use mathlib.Core.List.{append-nil, append_assoc}
use hive_manager.Base.{
  ℕ, ◌==◌, ◌≡◌, refl, sym, ap, ◌∙◌, Bool, true, false, not, Option, none, some, List, [], ◌∷◌, ◌++◌,
  inr, map, all, All, Text, codes, is_nil, is_digit, is_whitespace, decimal, decimal-all_digits,
  digits-fail, last_passes, last-append, split_at, split_at-append, arith,
}
use hive_manager.Contracts.{
  ContractCriterion, without_return, drop_last_empty, lines, Reading, reading_none, and_then,
  read_lines, finish, parse_sprint_contract,
}
use hive_manager.Contracts.Printed.{FitsCategory, Inline, print_body, print_criterion, Printable}
use hive_manager.Contracts.Printed.Readings.{
  print_item, read_line-criterion, read_line-item, read_line-title, print_criterion-Bare,
}

-- The lines of a contract, and the contract with each line ended.
unfoldable pub contract_lines : Text → List ContractCriterion → List Text → List Text
contract_lines name criteria items =
    (codes "# Sprint Contract: " ++ name)
      ∷ codes "## Acceptance Criteria"
      ∷ map print_criterion criteria
    ++ codes "## Pass Threshold" ∷ map print_item items

abbrev pub unlines : List Text → Text
unlines [] = []
unlines (l ∷ ls) = l ++ 10 ∷ unlines ls

-- A line that `lines` gives back: no line feed in it, and no carriage return at its end.
record Line (l : Text) : Type 0 where
  one : all (λ c. not (c == 10)) l ≡ true
  whole : without_return l ≡ l

no_return : (l : Text) → last_passes is_whitespace l ≡ false → without_return l ≡ l
no_return [] h = refl
no_return (c ∷ []) h = ground (arith, h)
no_return (c ∷ d ∷ l) h = ap (λ r. c ∷ r) (no_return (d ∷ l) h)

split-unlines : (ls : List Text) → All Line ls → split_at 10 (unlines ls) ≡ ls ++ [] ∷ []
split-unlines [] a = refl
split-unlines (l ∷ ls) (h, a) =
    split_at-append 10 l (unlines ls) h.one ∙ ap (λ r. l ∷ r) (split-unlines ls a)

drop_last : (ls : List Text) → drop_last_empty (ls ++ [] ∷ []) ≡ ls
drop_last [] = refl
drop_last (l ∷ []) = refl
drop_last (l ∷ k ∷ ls) = ap (λ r. l ∷ r) (drop_last (k ∷ ls))

returns : (ls : List Text) → All Line ls → map without_return ls ≡ ls
returns [] a = refl
returns (l ∷ ls) (h, a) = rw (h.whole, returns ls a) refl

-- The lines of a text of ended lines are those lines.
lines-unlines : (ls : List Text) → All Line ls → lines (unlines ls) ≡ ls
unfolding lines
lines-unlines ls a =
    ap (λ r. map without_return (drop_last_empty r)) (split-unlines ls a)
    ∙ ap (map without_return) (drop_last ls)
    ∙ returns ls a

read_lines-criteria :
    (cs : List ContractCriterion) (ls : List Text) (s : Reading)
    → All Printable cs
    → s.in_acceptance ≡ true
    → read_lines (map print_criterion cs ++ ls) s
      ≡ read_lines ls (record s { criteria = s.criteria ++ cs })
unfolding read_lines
read_lines-criteria [] ls s a k =
    ap (λ r. read_lines ls (record s { criteria = r })) (sym (append-nil s.criteria))
read_lines-criteria (c ∷ cs) ls s (p, a) k =
    ap (λ r. and_then r (read_lines (map print_criterion cs ++ ls))) (read_line-criterion c s p k)
    ∙ read_lines-criteria cs ls (record s { criteria = s.criteria ++ c ∷ [] }) a k
    ∙ ap (λ r. read_lines ls (record s { criteria = r })) (append_assoc s.criteria (c ∷ []) cs)

read_lines-items :
    (ts : List Text) (s : Reading)
    → All Inline ts
    → s.in_acceptance ≡ false
    → s.in_threshold ≡ true
    → read_lines (map print_item ts) s ≡ inr (record s { pass_threshold = s.pass_threshold ++ ts })
unfolding read_lines
read_lines-items [] s a k h =
    ap (λ r. inr (record s { pass_threshold = r })) (sym (append-nil s.pass_threshold))
read_lines-items (t ∷ ts) s (p, a) k h =
    ap (λ r. and_then r (read_lines (map print_item ts))) (read_line-item t s p k h)
    ∙ read_lines-items ts (record s { pass_threshold = s.pass_threshold ++ t ∷ [] }) a k h
    ∙ ap (λ r. inr (record s { pass_threshold = r })) (append_assoc s.pass_threshold (t ∷ []) ts)

all-join :
    (p : ℕ → Bool) (xs ys : Text) → all p xs ≡ true → all p ys ≡ true → all p (xs ++ ys) ≡ true
all-join p [] ys h k = k
all-join p (x ∷ xs) ys h k = ground (arith, all-join p xs ys, h, k)

no_feed : (c : ℕ) → is_digit c ≡ true → (c == 10) ≡ false
no_feed c h = ground arith

body-one_line :
    (o : Option Text) (d : Text)
    → Inline d
    → FitsCategory o d
    → all (λ c. not (c == 10)) (print_body o d) ≡ true
body-one_line none d i f = i.one_line
body-one_line (some category) d i (ci, _) =
    all-join (λ c. not (c == 10)) category (b']' ∷ b' ' ∷ d) ci.one_line i.one_line

criterion-Line : (c : ContractCriterion) → Printable c → Line (print_criterion c)
unfolding print_criterion
criterion-Line c p = record {
  one =
      all-join (λ x. not (x == 10)) (decimal c.number)
        (b'.' ∷ b' ' ∷ print_body c.category c.description)
        (digits-fail (λ x. x == 10) (decimal c.number) no_feed (decimal-all_digits c.number))
        (body-one_line c.category c.description p.described p.categorised);
  whole = no_return _ (print_criterion-Bare c p).last;
}

prefix-Line :
    (prefix t : Text) → all (λ c. not (c == 10)) prefix ≡ true → Inline t → Line (prefix ++ t)
prefix-Line prefix t h i = record {
  one = all-join (λ c. not (c == 10)) prefix t h i.one_line;
  whole = no_return (prefix ++ t) (last-append is_whitespace prefix t i.filled i.bare.last);
}

items-Line : (ts : List Text) → All Inline ts → All Line (map print_item ts)
unfolding print_item
items-Line [] a = tt
items-Line (t ∷ ts) (i, a) = (prefix-Line (codes "- ") t refl i, items-Line ts a)

criteria-Line :
    (cs : List ContractCriterion) (ls : List Text)
    → All Printable cs
    → All Line ls
    → All Line (map print_criterion cs ++ ls)
criteria-Line [] ls a b = b
criteria-Line (c ∷ cs) ls (p, a) b = (criterion-Line c p, criteria-Line cs ls a b)

contract-Line :
    (name : Text) (cs : List ContractCriterion) (ts : List Text)
    → Inline name
    → All Printable cs
    → All Inline ts
    → All Line (contract_lines name cs ts)
unfolding contract_lines
contract-Line name cs ts i a b = (
  prefix-Line (codes "# Sprint Contract: ") name refl i,
  (
    record { one = refl; whole = refl },
    criteria-Line cs _ a (record { one = refl; whole = refl }, items-Line ts b),
  ),
)

read_lines-contract :
    (name : Text) (cs : List ContractCriterion) (ts : List Text)
    → Inline name
    → All Printable cs
    → All Inline ts
    → read_lines (contract_lines name cs ts) reading_none
      ≡ inr record {
        milestone_name = some name;
        in_acceptance = false;
        in_threshold = true;
        criteria = cs;
        pass_threshold = ts;
      }
unfolding contract_lines read_lines
read_lines-contract name cs ts i a b =
    ap (λ r. and_then r (read_lines rest)) (read_line-title name reading_none i)
    ∙ read_lines-criteria cs (codes "## Pass Threshold" ∷ map print_item ts) _ a refl
    ∙ read_lines-items ts _ b refl refl
  where
    rest : List Text
    rest =
        codes "## Acceptance Criteria" ∷ map print_criterion cs
        ++ codes "## Pass Threshold" ∷ map print_item ts

finish-found :
    (markdown name : Text) (cs : List ContractCriterion) (ts : List Text)
    → is_nil cs ≡ false
    → is_nil ts ≡ false
    → finish markdown record {
      milestone_name = some name;
      in_acceptance = false;
      in_threshold = true;
      criteria = cs;
      pass_threshold = ts;
    }
      ≡ inr record {
        milestone_name = name;
        acceptance_criteria = cs;
        pass_threshold = ts;
        raw_markdown = markdown;
      }
unfolding finish
finish-found markdown name cs ts n m = rw (n, m) refl

-- The text of a contract.
abbrev pub print_contract : Text → List ContractCriterion → List Text → Text
print_contract name cs ts = unlines (contract_lines name cs ts)

-- A contract written with its title, its numbered criteria (with or without a category) and its
-- threshold, of which there is at least one each, is read back whole: for texts of one line without
-- spaces at their ends, numbers in the range of `u16`, no closing bracket in a category and no
-- opening bracket at the start of a description that has none.
pub parse-print_contract :
    (name : Text) (cs : List ContractCriterion) (ts : List Text)
    → Inline name
    → All Printable cs
    → All Inline ts
    → is_nil cs ≡ false
    → is_nil ts ≡ false
    → parse_sprint_contract (print_contract name cs ts)
      ≡ inr record {
        milestone_name = name;
        acceptance_criteria = cs;
        pass_threshold = ts;
        raw_markdown = print_contract name cs ts;
      }
unfolding parse_sprint_contract
parse-print_contract name cs ts i a b n m =
    let whole = print_contract name cs ts in
    ap (λ ls. and_then (read_lines ls reading_none) (finish whole))
      (lines-unlines (contract_lines name cs ts) (contract-Line name cs ts i a b))
    ∙ ap (λ r. and_then r (finish whole)) (read_lines-contract name cs ts i a b)
    ∙ finish-found whole name cs ts n m
