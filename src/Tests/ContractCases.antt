-- ===== src/Tests/ContractCases.antt =====
-- A sprint contract at a concrete input.
use hive_manager.Base.{decimal, ◌≡◌, refl, arith, inl, inr, none, some, [], ◌∷◌, Text, codes}
use hive_manager.Contracts.{
  ContractCriterion, SprintContract, invalid_criterion, missing_pass_threshold, no_thresholds,
  parse_sprint_contract,
}
use hive_manager.Contracts.Accepted.{WellFormed, parse_sprint_contract-WellFormed}
use hive_manager.Contracts.Printed.{Inline, Printable, print_criterion}
use hive_manager.Contracts.Printed.Readings.{print_item}
use hive_manager.Contracts.Printed.Whole.{contract_lines, print_contract, parse-print_contract}

abbrev loads : ContractCriterion
loads = record { number = 1; category = some (codes "FUNC"); description = codes "Dashboard loads" }

abbrev fast : ContractCriterion
fast = record { number = 12; category = none; description = codes "First paint is quick" }

loads-Printable : Printable loads
loads-Printable = record {
  in_range = omega arith;
  described = record {
    filled = refl;
    bare = record { first = refl; last = refl };
    one_line = refl;
  };
  categorised = (
    record { filled = refl; bare = record { first = refl; last = refl }; one_line = refl },
    refl,
  );
}

fast-Printable : Printable fast
fast-Printable = record {
  in_range = omega arith;
  described = record {
    filled = refl;
    bare = record { first = refl; last = refl };
    one_line = refl;
  };
  categorised = refl;
}

name-Inline : Inline (codes "Dashboard QA")
name-Inline = record { filled = refl; bare = record { first = refl; last = refl }; one_line = refl }

item-Inline : Inline (codes "All FUNC criteria must PASS")
item-Inline = record { filled = refl; bare = record { first = refl; last = refl }; one_line = refl }

abbrev dashboard : Text
dashboard =
    print_contract (codes "Dashboard QA") (loads ∷ fast ∷ [])
      (codes "All FUNC criteria must PASS" ∷ [])

abbrev dashboard_contract : SprintContract
dashboard_contract = record {
  milestone_name = codes "Dashboard QA";
  acceptance_criteria = loads ∷ fast ∷ [];
  pass_threshold = codes "All FUNC criteria must PASS" ∷ [];
  raw_markdown = dashboard;
}

parse-print_contract_example : parse_sprint_contract dashboard ≡ inr dashboard_contract
parse-print_contract_example =
    parse-print_contract (codes "Dashboard QA") (loads ∷ fast ∷ [])
      (codes "All FUNC criteria must PASS" ∷ []) name-Inline (loads-Printable, (fast-Printable, tt))
      (item-Inline, tt) refl refl

dashboard_parsed : parse_sprint_contract dashboard ≡ inr dashboard_contract
unfolding parse_sprint_contract contract_lines print_criterion decimal print_item
dashboard_parsed = refl

parse_sprint_contract-WellFormed_example : WellFormed dashboard dashboard_contract
parse_sprint_contract-WellFormed_example =
    parse_sprint_contract-WellFormed dashboard dashboard_contract dashboard_parsed

-- Errors: a line that is no criterion, and a heading of another name in place of the threshold's.
bad_line :
    parse_sprint_contract (codes "# Sprint Contract: A\n## Acceptance Criteria\nnone\n")
    ≡ inl (invalid_criterion (codes "none"))
unfolding parse_sprint_contract
bad_line = refl

no_heading :
    parse_sprint_contract
      (codes "# Sprint Contract: A\n## Acceptance Criteria\n1. Works\n## Threshold\n- all\n")
    ≡ inl missing_pass_threshold
unfolding parse_sprint_contract
no_heading = refl

empty_heading :
    parse_sprint_contract
      (codes "# Sprint Contract: A\n## acceptance criteria\n1. Works\n## PASS Threshold\n")
    ≡ inl no_thresholds
unfolding parse_sprint_contract
empty_heading = refl
