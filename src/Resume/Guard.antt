-- ===== src/Resume/Guard.antt =====
-- The resume guard: a completed write-step stays completed through every resume.
use hive_manager.Base.{
  ℕ, ◌≡◌, refl, sym, ap, ◌∙◌, true, ◌&&◌, Option, none, some, List, [], ◌∷◌, String, str_eq,
  update_where, any, any-update_where, select, any-sort_by, any-select, Bool-cases, inl, inr, arith,
}
use mathlib.Core.Path.{fun_ext}
use hive_manager.Database.{Result, ok, err, Db, with_conn, fault_cases}
use hive_manager.Journal.{
  StepKind, StepStatus, completed, skipped, unknown, interrupted, RunJournalEntry, LedgerEntry,
  ResumeReport, Store, is_write_step, deterministic_step_id,
}
use hive_manager.Journal.Tables.{
  comes_before, is_step, record_step_finished, confirm_ledger, read_journal, read_ledger_for_step,
}
use hive_manager.Resume.{
  Git, is_done, is_done_step, is_high, forget, RunJournal, is_write_step_completed, recover, act_on,
  resume_entry, resume_entries, report_on, build_resume_report, verify_ledger_effect,
}

-- The journal has a completed or skipped row for the step.
abbrev pub IsDone : String → String → Store → Type 0
IsDone run_id step_id s = any (λ e. is_step run_id step_id e && is_done e.status) s.journal ≡ true

finished-IsDone :
    (run_id step_id r i : String) (now : ℕ) (st : StepStatus) (es : List RunJournalEntry)
    → is_done st ≡ true
    → any (λ e. is_step run_id step_id e && is_done e.status) es ≡ true
    → any
        (λ e. is_step run_id step_id e && is_done e.status)
        (update_where (is_step r i) (λ e. record e { status = st; finished_at = some now }) es)
      ≡ true
finished-IsDone run_id step_id r i now st es d h =
    any-update_where (λ e. is_step run_id step_id e && is_done e.status) (is_step r i)
      (λ e. record e { status = st; finished_at = some now }) es (λ e k. ground arith) h

module _ (run_id step_id : String) where
  forget-IsDone :
      (stmt : Store → Store) (db : Db Store)
      → ((s : Store) → IsDone run_id step_id s → IsDone run_id step_id (stmt s))
      → IsDone run_id step_id db.table
      → IsDone run_id step_id (forget stmt db).table
  unfolding with_conn
  forget-IsDone stmt db k h = elim (fault_cases db.faults) [
    | inl (x, rest, e) ↦ rw e h
    | inr (inl e) ↦ rw e (k db.table h)
    | inr (inr (rest, e)) ↦ rw e (k db.table h)
  ]

  finish-IsDone :
      (now : ℕ) (r i : String) (st : StepStatus) (db : Db Store)
      → is_done st ≡ true
      → IsDone run_id step_id db.table
      → IsDone run_id step_id (forget (record_step_finished now r i st) db).table
  unfolding record_step_finished
  finish-IsDone now r i st db d =
      forget-IsDone _ db λ s. finished-IsDone run_id step_id r i now st s.journal d

  recover-IsDone :
      (now : ℕ) (r : String) (entry : RunJournalEntry) (led : LedgerEntry) (c : _)
      (report : ResumeReport) (db : Db Store)
      → IsDone run_id step_id db.table
      → IsDone run_id step_id (recover now r entry led c report db).1.table
  unfolding confirm_ledger
  recover-IsDone now r entry led c report db h =
      let confirmed = forget (confirm_ledger r entry.step_id none c) db in
      let kept : IsDone run_id step_id confirmed.table = forget-IsDone _ db (λ s k. k) h in
      elim (Bool-cases (is_high c)) [
        | inl sure ↦ rw sure (finish-IsDone now r entry.step_id completed confirmed refl kept)
        | inr unsure ↦ rw unsure kept
      ]

  act_on-IsDone :
      (git : Git) (now : ℕ) (r : String) (entry : RunJournalEntry) (st : StepStatus)
      (led : Option LedgerEntry) (report : ResumeReport) (db : Db Store)
      → IsDone run_id step_id db.table
      → IsDone run_id step_id (act_on git now r entry st led report db).1.table
  act_on-IsDone git now r entry completed led report db h =
      elim (Bool-cases (is_write_step entry.kind)) [
        | inl write ↦ rw write (finish-IsDone now r entry.step_id skipped db refl h)
        | inr read ↦ rw read h
      ]
  act_on-IsDone git now r entry unknown (some led) report db h =
      recover-IsDone now r entry led (verify_ledger_effect git entry.kind led.effect_ref) report db
        h
  act_on-IsDone git now r entry unknown none report db h = h
  act_on-IsDone git now r entry interrupted led report db h = h
  act_on-IsDone git now r entry _ led report db h = h

  read-IsDone :
      {A : Type 0} (f : Store → A) (db : Db Store)
      → IsDone run_id step_id db.table
      → IsDone run_id step_id (with_conn (λ s. (f s, s)) db).1.table
  unfolding with_conn
  read-IsDone f db h = elim (fault_cases db.faults) [
    | inl (x, rest, e) ↦ rw e h
    | inr (inl e) ↦ rw e h
    | inr (inr (rest, e)) ↦ rw e h
  ]

  entry-IsDone :
      (git : Git) (now : ℕ) (r : String) (entry : RunJournalEntry) (report : ResumeReport)
      (db : Db Store)
      → IsDone run_id step_id db.table
      → IsDone run_id step_id (resume_entry git now r entry report db).1.table
  unfolding resume_entry
  entry-IsDone git now r entry report db h =
      act_on-IsDone git now r entry _ _ report _
        (read-IsDone (read_ledger_for_step r entry.step_id) db h)

  entries-IsDone :
      (git : Git) (now : ℕ) (r : String) (entries : List RunJournalEntry) (report : ResumeReport)
      (db : Db Store)
      → IsDone run_id step_id db.table
      → IsDone run_id step_id (resume_entries git now r entries report db).1.table
  unfolding resume_entries
  entries-IsDone git now r [] report db h = h
  entries-IsDone git now r (e ∷ es) report db h =
      let next = resume_entry git now r e report db in
      entries-IsDone git now r es next.0 next.1 (entry-IsDone git now r e report db h)

  report-IsDone :
      (git : Git) (now : ℕ) (r : String) (res : Result (List RunJournalEntry)) (db : Db Store)
      → IsDone run_id step_id db.table
      → IsDone run_id step_id (report_on git now r res db).1.table
  report-IsDone git now r (ok entries) db h = entries-IsDone git now r entries _ db h
  report-IsDone git now r (err e) db h = h

-- The journal when the database is up again.
abbrev pub up_again : RunJournal → RunJournal
up_again none = none
up_again (some db) = some (record { table = db.table; faults = [] })

guard-eq :
    (uuid : List ℕ → String) (run_id : String) (kind : StepKind) (ordinal : ℕ) (s : Store)
    → is_write_step_completed uuid run_id kind ordinal (some (record { table = s; faults = [] }))
      ≡ any
          (λ e.
            is_step run_id (deterministic_step_id uuid run_id kind ordinal) e && is_done e.status)
          s.journal
unfolding is_write_step_completed with_conn read_journal
guard-eq uuid run_id kind ordinal s =
    any-sort_by comes_before (is_done_step (deterministic_step_id uuid run_id kind ordinal))
      (select (λ e. str_eq e.run_id run_id) s.journal)
    ∙ any-select (is_done_step (deterministic_step_id uuid run_id kind ordinal))
        (λ e. str_eq e.run_id run_id) s.journal
    ∙ ap (λ p. any p s.journal) (fun_ext (λ e. ground arith))

-- A write-step that the resume guard knows to be completed is known to be completed after any
-- resume, of this run or another, whatever git answers and whichever statements of the resume fail.
pub completed_stays :
    (uuid : List ℕ → String) (git : Git) (now : ℕ) (resumed run_id : String) (kind : StepKind)
    (ordinal : ℕ) (db : Db Store)
    → is_write_step_completed uuid run_id kind ordinal (up_again (some db)) ≡ true
    → is_write_step_completed uuid run_id kind ordinal
        (up_again (build_resume_report git now resumed (some db)).1)
      ≡ true
unfolding build_resume_report
completed_stays uuid git now resumed run_id kind ordinal db h =
    let step_id = deterministic_step_id uuid run_id kind ordinal in
    let before = sym (guard-eq uuid run_id kind ordinal db.table) ∙ h in
    let read = with_conn (λ s. (read_journal resumed s, s)) db in
    guard-eq uuid run_id kind ordinal (report_on git now resumed read.0 read.1).1.table
    ∙ report-IsDone run_id step_id git now resumed read.0 read.1
        (read-IsDone run_id step_id (read_journal resumed) db before)
