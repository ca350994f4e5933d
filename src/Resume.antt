-- ===== src/Resume.antt =====
-- src-tauri/src/session/controller.rs: the controller's use of the run journal, and the report of a
-- resumed session. Git is the parameter `git`: whether a command succeeds in the project's folder.
-- Store errors are swallowed where the code swallows them.
pub mod Guard
pub mod Report
use hive_manager.Base.{
  ℕ, Bool, true, false, not, ◌&&◌, ◌||◌, Option, none, some, List, [], ◌∷◌, ◌++◌, String, str_eq,
  any, if◌then◌else◌,
}
use hive_manager.Database.{StorageError, Result, ok, err, Db, with_conn}
use hive_manager.Journal.{
  StepKind, git_commit, git_branch, worker_spawn, StepStatus, completed, failed, interrupted,
  unknown, skipped, started, Confidence, high, uncertain, RunJournalEntry, LedgerEntry,
  ResumeReport, Store, is_write_step, classify_step, deterministic_step_id,
}
use hive_manager.Journal.Tables.{
  record_step_started, record_step_finished, confirm_ledger, read_journal, read_ledger_for_step,
}
use hive_manager.Journal.Protocol.{unconfirmed}

abbrev pub Git : Type 0
Git = List String → Bool

abbrev pub git_finds : Git → StepKind → String → Bool
git_finds git git_commit reference = git ("cat-file" ∷ "-e" ∷ reference ∷ [])
git_finds git git_branch reference = git ("rev-parse" ∷ "--verify" ∷ reference ∷ [])
git_finds git worker_spawn reference = git ("rev-parse" ∷ "--verify" ∷ reference ∷ [])
git_finds git _ reference = false

unfoldable pub verify_ledger_effect : Git → StepKind → Option String → Confidence
verify_ledger_effect git kind none = uncertain
verify_ledger_effect git kind (some reference) =
    if git_finds git kind reference then high else uncertain

abbrev pub is_high : Confidence → Bool
is_high high = true
is_high _ = false

abbrev pub is_done : StepStatus → Bool
is_done completed = true
is_done skipped = true
is_done _ = false

abbrev pub value_or_none : {A : Type 0} → Result (Option A) → Option A
value_or_none (ok a) = a
value_or_none (err e) = none

abbrev pub id_or_none : Result String → Option String
id_or_none (ok id) = some id
id_or_none (err e) = none

-- A statement whose error is dropped.
abbrev pub forget : (Store → Store) → Db Store → Db Store
forget stmt db = (with_conn {A = Unit {0}} (λ s. (tt, stmt s)) db).1

-- The controller's journal: none if no store is attached.
abbrev pub RunJournal : Type 0
RunJournal = Option (Db Store)

unfoldable pub journal_step_started :
    (List ℕ → String)
    → ℕ
    → String
    → StepKind
    → ℕ
    → Option String
    → RunJournal
    → Option String × RunJournal
journal_step_started uuid now run_id kind ordinal detail none = (none, none)
journal_step_started uuid now run_id kind ordinal detail (some db) =
    let (res, db') = with_conn (record_step_started uuid now run_id kind ordinal detail) db in
    (id_or_none res, some db')

unfoldable pub journal_step_finished : ℕ → String → String → StepStatus → RunJournal → RunJournal
journal_step_finished now run_id step_id status none = none
journal_step_finished now run_id step_id status (some db) =
    some (forget (record_step_finished now run_id step_id status) db)

abbrev pub is_done_step : String → RunJournalEntry → Bool
is_done_step step_id e = str_eq e.step_id step_id && is_done e.status

abbrev pub any_done : String → Result (List RunJournalEntry) → Bool
any_done step_id (ok entries) = any (is_done_step step_id) entries
any_done step_id (err e) = false

unfoldable pub is_write_step_completed :
    (List ℕ → String) → String → StepKind → ℕ → RunJournal → Bool
is_write_step_completed uuid run_id kind ordinal none = false
is_write_step_completed uuid run_id kind ordinal (some db) =
    any_done (deterministic_step_id uuid run_id kind ordinal)
      (with_conn (λ s. (read_journal run_id s, s)) db).0

abbrev pub add_skipped : RunJournalEntry → ResumeReport → ResumeReport
add_skipped e r = record r { skipped_steps = r.skipped_steps ++ record e { status = skipped } ∷ [] }

abbrev pub add_interrupted : RunJournalEntry → ResumeReport → ResumeReport
add_interrupted e r = record r { interrupted_steps = r.interrupted_steps ++ e ∷ [] }

abbrev pub add_uncertain : LedgerEntry → ResumeReport → ResumeReport
add_uncertain l r = record r { uncertain_effects = r.uncertain_effects ++ l ∷ [] }

-- The branch for an unknown step whose effect has been looked up and verified.
abbrev pub recover :
    ℕ
    → String
    → RunJournalEntry
    → LedgerEntry
    → Confidence
    → ResumeReport
    → Db Store
    → ResumeReport × Db Store
recover now run_id entry led confidence report db =
    let confirmed = forget (confirm_ledger run_id entry.step_id none confidence) db in
    if is_high confidence
    then (report, forget (record_step_finished now run_id entry.step_id completed) confirmed)
    else (
      add_interrupted entry (add_uncertain (record led { confidence = confidence }) report),
      confirmed,
    )

-- The loop's `match` on the classification.
abbrev pub act_on :
    Git
    → ℕ
    → String
    → RunJournalEntry
    → StepStatus
    → Option LedgerEntry
    → ResumeReport
    → Db Store
    → ResumeReport × Db Store
act_on git now run_id entry completed ledger report db =
    if is_write_step entry.kind
    then (
      add_skipped entry report,
      forget (record_step_finished now run_id entry.step_id skipped) db,
    )
    else (report, db)
act_on git now run_id entry unknown (some led) report db =
    recover now run_id entry led (verify_ledger_effect git entry.kind led.effect_ref) report db
act_on git now run_id entry unknown none report db = (add_interrupted entry report, db)
act_on git now run_id entry interrupted ledger report db = (add_interrupted entry report, db)
act_on git now run_id entry _ ledger report db = (report, db)

unfoldable pub resume_entry :
    Git → ℕ → String → RunJournalEntry → ResumeReport → Db Store → ResumeReport × Db Store
resume_entry git now run_id entry report db =
    let (found, db') = with_conn (λ s. (read_ledger_for_step run_id entry.step_id s, s)) db in
    let ledger = value_or_none found in
    act_on git now run_id entry (classify_step entry (unconfirmed ledger)) ledger report db'

unfoldable pub resume_entries :
    Git → ℕ → String → List RunJournalEntry → ResumeReport → Db Store → ResumeReport × Db Store
resume_entries git now run_id [] report db = (report, db)
resume_entries git now run_id (e ∷ es) report db =
    let (report', db') = resume_entry git now run_id e report db in
    resume_entries git now run_id es report' db'

abbrev pub empty_report : ResumeReport
empty_report = record { skipped_steps = []; interrupted_steps = []; uncertain_effects = [] }

abbrev pub report_on :
    Git → ℕ → String → Result (List RunJournalEntry) → Db Store → ResumeReport × Db Store
report_on git now run_id (ok entries) db = resume_entries git now run_id entries empty_report db
report_on git now run_id (err e) db = (empty_report, db)

abbrev pub attach : ResumeReport × Db Store → ResumeReport × RunJournal
attach (report, db) = (report, some db)

unfoldable pub build_resume_report : Git → ℕ → String → RunJournal → ResumeReport × RunJournal
build_resume_report git now run_id none = (empty_report, none)
build_resume_report git now run_id (some db) =
    let (res, db') = with_conn (λ s. (read_journal run_id s, s)) db in
    attach (report_on git now run_id res db')
