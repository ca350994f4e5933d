-- ===== src/Resume/Report.antt =====
-- What the resume report says, and what happens to an effect that cannot be verified.
use hive_manager.Base.{
  ℕ, ◌≡◌, refl, sym, ap, ◌∙◌, Bool, true, false, ◌&&◌, Option, none, some, List, [], ◌∷◌, ◌++◌, map,
  String, select, if◌then◌else◌, arith,
}
use mathlib.Core.List.{append-nil, append_assoc}
use hive_manager.Database.{StorageError, Db, with_conn}
use hive_manager.Journal.{
  StepStatus, started, completed, skipped, Confidence, uncertain, RunJournalEntry, LedgerEntry,
  ResumeReport, Store, is_write_step, classify_step,
}
use hive_manager.Journal.Tables.{read_journal, read_ledger_for_step, confirm_ledger}
use hive_manager.Journal.Protocol.{find_effect-update_where}
use hive_manager.Resume.{
  Git, verify_ledger_effect, act_on, resume_entry, resume_entries, build_resume_report,
  empty_report, add_interrupted, add_uncertain,
}

abbrev pub is_completed : StepStatus → Bool
is_completed completed = true
is_completed _ = false

-- The completed write-steps, as the report lists them.
abbrev pub skips : RunJournalEntry → Bool
skips e = is_completed e.status && is_write_step e.kind

abbrev pub as_skipped : RunJournalEntry → RunJournalEntry
as_skipped e = record e { status = skipped }

act_on-skipped :
    (git : Git) (now : ℕ) (r : String) (e : RunJournalEntry) (b : Bool) (led : Option LedgerEntry)
    (report : ResumeReport) (db : Db Store)
    → (act_on git now r e (classify_step e b) led report db).0.skipped_steps
      ≡ (if skips e then report.skipped_steps ++ as_skipped e ∷ [] else report.skipped_steps)
unfolding classify_step
act_on-skipped git now r e b led report db = ground arith

entry-skipped :
    (git : Git) (now : ℕ) (r : String) (e : RunJournalEntry) (report : ResumeReport) (db : Db Store)
    → (resume_entry git now r e report db).0.skipped_steps
      ≡ (if skips e then report.skipped_steps ++ as_skipped e ∷ [] else report.skipped_steps)
unfolding resume_entry
entry-skipped git now r e report db = act_on-skipped git now r e _ _ report _

entries-skipped :
    (git : Git) (now : ℕ) (r : String) (es : List RunJournalEntry) (report : ResumeReport)
    (db : Db Store)
    → (resume_entries git now r es report db).0.skipped_steps
      ≡ report.skipped_steps ++ map as_skipped (select skips es)
unfolding resume_entries
entries-skipped git now r [] report db = sym (append-nil report.skipped_steps)
entries-skipped git now r (e ∷ es) report db =
    let next = resume_entry git now r e report db in
    entries-skipped git now r es next.0 next.1
    ∙ ap (λ xs. xs ++ map as_skipped (select skips es)) (entry-skipped git now r e report db)
    ∙ joined (skips e)
  where
    joined :
        (b : Bool)
        → (if b then report.skipped_steps ++ as_skipped e ∷ [] else report.skipped_steps)
            ++ map as_skipped (select skips es)
          ≡ report.skipped_steps
            ++ map as_skipped (if b then e ∷ select skips es else select skips es)
    joined true = append_assoc report.skipped_steps (as_skipped e ∷ []) _
    joined false = refl

-- Once the journal is read, the resume report lists as skipped the run's completed write-steps, all
-- of them and no other step, in the journal's order, whatever else fails during the resume.
pub report-skipped :
    (git : Git) (now : ℕ) (run_id : String) (db : Db Store) (faults : List (Option StorageError))
    → db.faults ≡ none ∷ faults
    → (build_resume_report git now run_id (some db)).0.skipped_steps
      ≡ map as_skipped (select skips (read_journal run_id db.table))
unfolding build_resume_report with_conn
report-skipped git now run_id db faults f =
    rw f (entries-skipped git now run_id (read_journal run_id db.table) empty_report _)

first_look :
    (git : Git) (now : ℕ) (run_id : String) (e : RunJournalEntry) (l : LedgerEntry) (s : Store)
    → e.status ≡ started
    → read_ledger_for_step run_id e.step_id s ≡ some l
    → l.confirmed ≡ false
    → verify_ledger_effect git e.kind l.effect_ref ≡ uncertain
    → resume_entry git now run_id e empty_report (record { table = s; faults = [] }) ≡ (
      add_interrupted e (add_uncertain (record l { confidence = uncertain }) empty_report),
      record { table = confirm_ledger run_id e.step_id none uncertain s; faults = [] },
    )
unfolding resume_entry with_conn classify_step
first_look git now run_id e l s st found open_row unsure = rw (found, st, open_row, unsure)

confirmed_look :
    (git : Git) (now : ℕ) (run_id : String) (e : RunJournalEntry) (l : LedgerEntry) (s : Store)
    → e.status ≡ started
    → read_ledger_for_step run_id e.step_id s ≡ some l
    → l.confirmed ≡ true
    → (resume_entry git now run_id e empty_report (record { table = s; faults = [] })).0
      ≡ add_interrupted e empty_report
unfolding resume_entry with_conn classify_step
confirmed_look git now run_id e l s st found shut = rw (found, st, shut)

confirmed_row :
    (run_id step_id : String) (c : Confidence) (s : Store) (l : LedgerEntry)
    → read_ledger_for_step run_id step_id s ≡ some l
    → read_ledger_for_step run_id step_id (confirm_ledger run_id step_id none c s)
      ≡ some (record l { confirmed = true; confidence = c })
unfolding read_ledger_for_step confirm_ledger
confirmed_row run_id step_id c s l found =
    find_effect-update_where run_id step_id _ s.ledger l (λ x. refl) found

-- If no statement fails, an unconfirmed effect of a started step that git cannot confirm is
-- reported as uncertain once only: the resume that reports it also confirms its ledger row, and the
-- next look at the step reports it as interrupted, with no uncertain effect.
pub uncertain_once :
    (git later_git : Git) (now later : ℕ) (run_id : String) (e : RunJournalEntry) (l : LedgerEntry)
    (s : Store)
    → e.status ≡ started
    → read_ledger_for_step run_id e.step_id s ≡ some l
    → l.confirmed ≡ false
    → verify_ledger_effect git e.kind l.effect_ref ≡ uncertain
    → let (first, db1) =
        resume_entry git now run_id e empty_report (record { table = s; faults = [] }) in
      let (second, db2) = resume_entry later_git later run_id e empty_report db1 in
      (first.uncertain_effects ≡ record l { confidence = uncertain } ∷ [])
      × (first.interrupted_steps ≡ e ∷ [])
      × (second.uncertain_effects ≡ [])
      × (second.interrupted_steps ≡ e ∷ [])
uncertain_once git later_git now later run_id e l s st found open_row unsure =
    let one = first_look git now run_id e l s st found open_row unsure in
    let two =
      confirmed_look later_git later run_id e
        (record l { confirmed = true; confidence = uncertain })
        (confirm_ledger run_id e.step_id none uncertain s) st
        (confirmed_row run_id e.step_id uncertain s l found) refl in
    (
      ap (λ p. p.0.uncertain_effects) one,
      ap (λ p. p.0.interrupted_steps) one,
      ap (λ p. (resume_entry later_git later run_id e empty_report p.1).0.uncertain_effects) one
          ∙ ap (λ r. r.uncertain_effects) two,
      ap (λ p. (resume_entry later_git later run_id e empty_report p.1).0.interrupted_steps) one
          ∙ ap (λ r. r.interrupted_steps) two,
    )
