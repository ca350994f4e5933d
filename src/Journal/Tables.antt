-- ===== src/Journal/Tables.antt =====
-- src-tauri/src/storage/run_journal.rs: the statements on the journal and the ledger. A table is the
-- list of its rows, and a statement is a function on the two tables. The text order of the stored
-- timestamps is taken to be their order in time.
use hive_manager.Base.{
  ℕ, Bool, true, false, ◌&&◌, ◌||◌, Option, none, some, List, [], ◌∷◌, String, str_eq, str_leb, ltb,
  ◌==◌, if◌then◌else◌, select, sort_by, update_where,
}
use hive_manager.Journal.{
  StepKind, StepStatus, Confidence, RunJournalEntry, LedgerEntry, Store, deterministic_step_id,
  started,
}

-- The primary keys of the two tables.
abbrev pub is_step : String → String → RunJournalEntry → Bool
is_step run_id step_id e = str_eq e.run_id run_id && str_eq e.step_id step_id

abbrev pub is_effect : String → String → LedgerEntry → Bool
is_effect run_id step_id l = str_eq l.run_id run_id && str_eq l.step_id step_id

-- `ON CONFLICT(run_id, step_id) DO UPDATE` keeps the kind of the row that is there.
abbrev pub upsert_step : RunJournalEntry → List RunJournalEntry → List RunJournalEntry
upsert_step row [] = row ∷ []
upsert_step row (e ∷ es) =
    if is_step row.run_id row.step_id e
    then record e {
      status = started;
      started_at = row.started_at;
      finished_at = none;
      detail = row.detail;
    }
      ∷ es
    else e ∷ upsert_step row es

unfoldable pub record_step_started :
    (List ℕ → String) → ℕ → String → StepKind → ℕ → Option String → Store → String × Store
unfolding deterministic_step_id
record_step_started uuid now run_id kind ordinal detail s =
    let step_id = deterministic_step_id uuid run_id kind ordinal in
    (
      step_id,
      record s {
        journal =
            upsert_step
              (record {
                run_id = run_id;
                step_id = step_id;
                kind = kind;
                status = started;
                started_at = now;
                finished_at = none;
                detail = detail;
              })
              s.journal;
      },
    )

unfoldable pub record_step_finished : ℕ → String → String → StepStatus → Store → Store
record_step_finished now run_id step_id status s = record s {
  journal =
      update_where (is_step run_id step_id)
        (λ e. record e { status = status; finished_at = some now }) s.journal;
}

-- `ON CONFLICT(run_id, step_id) DO UPDATE` keeps `confirmed` of the row that is there.
abbrev pub upsert_effect : LedgerEntry → List LedgerEntry → List LedgerEntry
upsert_effect row [] = row ∷ []
upsert_effect row (l ∷ ls) =
    if is_effect row.run_id row.step_id l
    then record l {
      effect_kind = row.effect_kind;
      effect_ref = row.effect_ref;
      confidence = row.confidence;
      recorded_at = row.recorded_at;
    }
      ∷ ls
    else l ∷ upsert_effect row ls

unfoldable pub record_ledger :
    ℕ → String → String → String → Option String → Confidence → Store → Store
record_ledger now run_id step_id effect_kind effect_ref confidence s = record s {
  ledger =
      upsert_effect
        (record {
          run_id = run_id;
          step_id = step_id;
          effect_kind = effect_kind;
          effect_ref = effect_ref;
          confirmed = false;
          confidence = confidence;
          recorded_at = now;
        })
        s.ledger;
}

-- SQL's `COALESCE`.
abbrev pub coalesce : Option String → Option String → Option String
coalesce none b = b
coalesce (some a) b = some a

unfoldable pub confirm_ledger : String → String → Option String → Confidence → Store → Store
confirm_ledger run_id step_id effect_ref confidence s = record s {
  ledger =
      update_where (is_effect run_id step_id)
        (λ l. record l {
          confirmed = true;
          confidence = confidence;
          effect_ref = coalesce effect_ref l.effect_ref;
        })
        s.ledger;
}

-- `ORDER BY started_at, step_id`.
abbrev pub comes_before : RunJournalEntry → RunJournalEntry → Bool
comes_before a b =
    ltb a.started_at b.started_at || a.started_at == b.started_at && str_leb a.step_id b.step_id

unfoldable pub read_journal : String → Store → List RunJournalEntry
read_journal run_id s = sort_by comes_before (select (λ e. str_eq e.run_id run_id) s.journal)

abbrev pub find_effect : String → String → List LedgerEntry → Option LedgerEntry
find_effect run_id step_id [] = none
find_effect run_id step_id (l ∷ ls) =
    if is_effect run_id step_id l then some l else find_effect run_id step_id ls

unfoldable pub read_ledger_for_step : String → String → Store → Option LedgerEntry
read_ledger_for_step run_id step_id s = find_effect run_id step_id s.ledger
