-- ===== src/Tests/JournalCases.antt =====
-- The run journal at concrete steps.
use Prim.Native.Char.{code}
use hive_manager.Base.{
  ℕ, zero, suc, ◌≡◌, refl, sym, ap, ◌∙◌, true, false, none, some, List, [], ◌∷◌, String, ◌==◌,
  if◌then◌else◌,
}
use hive_manager.Journal.{
  git_commit, started, completed, unknown, high, uncertain, deterministic_step_id, Store,
  RunJournalEntry, LedgerEntry,
}
use hive_manager.Journal.Tables.{read_journal, read_ledger_for_step}
use hive_manager.Database.{with_conn}
use hive_manager.Journal.Protocol.{after_ledger, verdict, contract, contract-verdict}
use hive_manager.Resume.{is_write_step_completed, build_resume_report}
use hive_manager.Resume.Guard.{completed_stays, up_again}

-- A text of `a`s and `b`s that determines a list of numbers, for a UUID without collisions.
put : ℕ → String → String
put zero s = String.◌∷◌ "b" s
put (suc n) s = String.◌∷◌ "a" (put n s)

encode : List ℕ → String
unfolding put
encode [] = ""
encode (n ∷ ns) = put n (encode ns)

abbrev bump : List ℕ → List ℕ
bump [] = []
bump (n ∷ ns) = suc n ∷ ns

decode : String → List ℕ
decode String.[] = []
decode (String.◌∷◌ c s) = if code c == b'a' then bump (decode s) else 0 ∷ decode s

decode-put : (n : ℕ) (s : String) → decode (put n s) ≡ n ∷ decode s
unfolding decode put
decode-put zero s = refl
decode-put (suc n) s = ap bump (decode-put n s)

decode-encode : (ns : List ℕ) → decode (encode ns) ≡ ns
unfolding encode
decode-encode [] = unfold decode in refl
decode-encode (n ∷ ns) = decode-put n (encode ns) ∙ ap (◌∷◌ n) (decode-encode ns)

encode_injective : (xs ys : List ℕ) → encode xs ≡ encode ys → xs ≡ ys
encode_injective xs ys p = sym (decode-encode xs) ∙ ap decode p ∙ decode-encode ys

empty_store : Store
empty_store = record { journal = []; ledger = [] }

-- A crash after the ledger row of a new step was written.
contract-verdict_example :
    verdict "run-1" (deterministic_step_id encode "run-1" git_commit 2) (
      contract encode 7 "run-1" git_commit 2 none "git_commit"
        (some "abc")
        none
        uncertain
        high
        after_ledger
        empty_store)
    ≡ some unknown
unfolding empty_store read_ledger_for_step
contract-verdict_example =
    contract-verdict encode 7 "run-1" git_commit 2 none "git_commit" (some "abc") none uncertain
      high after_ledger empty_store

abbrev entry : String → RunJournalEntry
entry step_id = record {
  run_id = "run-1";
  step_id = step_id;
  kind = git_commit;
  status = completed;
  started_at = 3;
  finished_at = some 4;
  detail = none;
}

abbrev one_done : Store
one_done = record { journal = entry "c" ∷ []; ledger = [] }

completed_stays_example :
    is_write_step_completed
      (λ ns. "c")
      "run-1"
      git_commit
      2
      (up_again
        (build_resume_report
          (λ args. false)
          9
          "run-1"
          (some (record { table = one_done; faults = [] }))).1)
    ≡ true
unfolding is_write_step_completed with_conn read_journal deterministic_step_id
completed_stays_example =
    completed_stays (λ ns. "c") (λ args. false) 9 "run-1" "run-1" git_commit 2
      (record { table = one_done; faults = [] }) refl

abbrev open_step : RunJournalEntry
open_step = record {
  run_id = "run-1";
  step_id = "c";
  kind = git_commit;
  status = started;
  started_at = 3;
  finished_at = none;
  detail = none;
}

abbrev open_effect : LedgerEntry
open_effect = record {
  run_id = "run-1";
  step_id = "c";
  effect_kind = "git_commit";
  effect_ref = some "abc";
  confirmed = false;
  confidence = uncertain;
  recorded_at = 3;
}

abbrev one_open : Store
one_open = record { journal = open_step ∷ []; ledger = open_effect ∷ [] }
