-- ===== src/Journal/Protocol.antt =====
-- The write-step contract: started, ledger row, the operation itself, finished, confirmed. What the
-- resume classifier says of a step when the program stops at any point of it.
use hive_manager.Base.{
  ℕ, ◌≡◌, refl, ap, ◌∙◌, Bool, true, false, Option, none, some, List, [], ◌∷◌, String, str_eq_iff,
  update_where, if◌then◌else◌, Bool-cases, inl, inr, arith,
}
use hive_manager.Journal.{
  StepKind, StepStatus, started, completed, interrupted, unknown, Confidence, RunJournalEntry,
  LedgerEntry, Store, classify, classify_step, deterministic_step_id,
}
use hive_manager.Journal.Tables.{
  is_step, is_effect, upsert_step, upsert_effect, record_step_started, record_step_finished,
  record_ledger, confirm_ledger, find_effect, read_ledger_for_step,
}

abbrev pub find_step : String → String → List RunJournalEntry → Option RunJournalEntry
find_step run_id step_id [] = none
find_step run_id step_id (e ∷ es) =
    if is_step run_id step_id e then some e else find_step run_id step_id es

abbrev pub unconfirmed : Option LedgerEntry → Bool
unconfirmed none = false
unconfirmed (some l) = if l.confirmed then false else true

abbrev pub status_of : Option RunJournalEntry → Option StepStatus
status_of none = none
status_of (some e) = some e.status

abbrev pub classified : Option RunJournalEntry → Option LedgerEntry → Option StepStatus
classified none l = none
classified (some e) l = some (classify_step e (unconfirmed l))

-- What a resume says of a step.
abbrev pub verdict : String → String → Store → Option StepStatus
verdict run_id step_id s =
    classified (find_step run_id step_id s.journal) (read_ledger_for_step run_id step_id s)

-- How far the contract got.
pub data Stop : Type 0 where
  after_started after_ledger after_finished after_confirmed : Stop

pub find_step-update_where :
    (run_id step_id : String) (f : RunJournalEntry → RunJournalEntry) (es : List RunJournalEntry)
    (e : RunJournalEntry)
    → ((x : RunJournalEntry) → is_step run_id step_id (f x) ≡ is_step run_id step_id x)
    → find_step run_id step_id es ≡ some e
    → find_step run_id step_id (update_where (is_step run_id step_id) f es) ≡ some (f e)
find_step-update_where run_id step_id f [] e k h = cc
find_step-update_where run_id step_id f (x ∷ es) e k h =
    elim (Bool-cases (is_step run_id step_id x)) [
      | inl hit ↦ ground (arith, k x)
      | inr miss ↦ ground (arith, k x, find_step-update_where run_id step_id f es e k)
    ]

pub find_effect-update_where :
    (run_id step_id : String) (f : LedgerEntry → LedgerEntry) (ls : List LedgerEntry)
    (l : LedgerEntry)
    → ((x : LedgerEntry) → is_effect run_id step_id (f x) ≡ is_effect run_id step_id x)
    → find_effect run_id step_id ls ≡ some l
    → find_effect run_id step_id (update_where (is_effect run_id step_id) f ls) ≡ some (f l)
find_effect-update_where run_id step_id f [] l k h = cc
find_effect-update_where run_id step_id f (x ∷ ls) l k h =
    elim (Bool-cases (is_effect run_id step_id x)) [
      | inl hit ↦ ground (arith, k x)
      | inr miss ↦ ground (arith, k x, find_effect-update_where run_id step_id f ls l k)
    ]

status-upsert_step :
    (row : RunJournalEntry) (es : List RunJournalEntry)
    → row.status ≡ started
    → status_of (find_step row.run_id row.step_id (upsert_step row es)) ≡ some started
status-upsert_step row [] h =
    ground (arith, str_eq_iff row.run_id row.run_id, str_eq_iff row.step_id row.step_id)
status-upsert_step row (e ∷ es) h = elim (Bool-cases (is_step row.run_id row.step_id e)) [
  | inl hit ↦ ground arith
  | inr miss ↦ ground (arith, status-upsert_step row es h)
]

-- Whether the ledger row of a step will be unconfirmed once it is recorded again: a new row is, and
-- one that replaces another is as confirmed as that.
abbrev pub will_be_unconfirmed : Option LedgerEntry → Bool
will_be_unconfirmed none = true
will_be_unconfirmed (some l) = if l.confirmed then false else true

unconfirmed-upsert_effect :
    (row : LedgerEntry) (ls : List LedgerEntry)
    → row.confirmed ≡ false
    → unconfirmed (find_effect row.run_id row.step_id (upsert_effect row ls))
      ≡ will_be_unconfirmed (find_effect row.run_id row.step_id ls)
unconfirmed-upsert_effect row [] h =
    ground (arith, str_eq_iff row.run_id row.run_id, str_eq_iff row.step_id row.step_id)
unconfirmed-upsert_effect row (l ∷ ls) h = elim (Bool-cases (is_effect row.run_id row.step_id l)) [
  | inl hit ↦ ground arith
  | inr miss ↦ ground (arith, unconfirmed-upsert_effect row ls h)
]

classified-status :
    (e : Option RunJournalEntry) (l : Option LedgerEntry) (st : StepStatus)
    → status_of e ≡ some st
    → classified e l ≡ some (classify st (unconfirmed l))
unfolding classify_step
classified-status none l st h = cc
classified-status (some e) l st h = ground arith

status-finished :
    (run_id step_id : String) (now : ℕ) (es : List RunJournalEntry) (st old : StepStatus)
    → status_of (find_step run_id step_id es) ≡ some old
    → status_of (
        find_step run_id step_id (
          update_where
            (is_step run_id step_id)
            (λ e. record e { status = st; finished_at = some now })
            es))
      ≡ some st
status-finished run_id step_id now [] st old h = cc
status-finished run_id step_id now (e ∷ es) st old h =
    elim (Bool-cases (is_step run_id step_id e)) [
      | inl hit ↦ ground arith
      | inr miss ↦ ground (arith, status-finished run_id step_id now es st old)
    ]

-- What the classifier says at each stop, by the ledger row that the step had before.
abbrev pub expected : Stop → Option LedgerEntry → StepStatus
expected after_started l = if unconfirmed l then unknown else interrupted
expected after_ledger l = if will_be_unconfirmed l then unknown else interrupted
expected after_finished l = completed
expected after_confirmed l = completed

module _ (uuid : List ℕ → String) (now : ℕ) (run_id : String) (kind : StepKind) (ordinal : ℕ)
    (detail : Option String) (effect_kind : String) (effect_ref confirmed_ref : Option String)
    (confidence confirmed_confidence : Confidence) where
  -- The contract's calls on the store, up to the point where the program stops.
  abbrev pub contract : Stop → Store → Store
  contract after_started s = (record_step_started uuid now run_id kind ordinal detail s).1
  contract after_ledger s =
      record_ledger now run_id (deterministic_step_id uuid run_id kind ordinal) effect_kind
        effect_ref confidence (record_step_started uuid now run_id kind ordinal detail s).1
  contract after_finished s =
      record_step_finished now run_id (deterministic_step_id uuid run_id kind ordinal) completed (
        record_ledger now run_id (deterministic_step_id uuid run_id kind ordinal) effect_kind
          effect_ref confidence (record_step_started uuid now run_id kind ordinal detail s).1)
  contract after_confirmed s =
      confirm_ledger run_id (deterministic_step_id uuid run_id kind ordinal) confirmed_ref
        confirmed_confidence
        (record_step_finished now run_id (deterministic_step_id uuid run_id kind ordinal) completed
          (record_ledger now run_id (deterministic_step_id uuid run_id kind ordinal) effect_kind
            effect_ref confidence (record_step_started uuid now run_id kind ordinal detail s).1))

  -- What the resume classifier says of a write-step when the program stops after the step was
  -- started, after its ledger row, after it was finished or after it was confirmed, by the ledger
  -- row that the step had before: after the ledger row the step is unknown, but if the step already
  -- had a confirmed row, only interrupted.
  pub contract-verdict :
      (stop : Stop) (s : Store)
      → verdict run_id (deterministic_step_id uuid run_id kind ordinal) (contract stop s)
        ≡ some (
            expected stop
              (read_ledger_for_step run_id (deterministic_step_id uuid run_id kind ordinal) s))
  unfolding read_ledger_for_step record_step_started record_step_finished record_ledger
      confirm_ledger
  contract-verdict after_started s =
      classified-status _ _ started (status-upsert_step _ s.journal refl)
  contract-verdict after_ledger s =
      classified-status _ _ started (status-upsert_step _ s.journal refl)
      ∙ ap (λ b. some (classify started b)) (unconfirmed-upsert_effect _ s.ledger refl)
  contract-verdict after_finished s =
      classified-status _ _ completed
        (status-finished run_id _ now _ completed started (status-upsert_step _ s.journal refl))
  contract-verdict after_confirmed s =
      classified-status _ _ completed
        (status-finished run_id _ now _ completed started (status-upsert_step _ s.journal refl))
