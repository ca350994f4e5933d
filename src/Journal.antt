-- ===== src/Journal.antt =====
-- src-tauri/src/domain/run_journal.rs, with the classifier and the tags of
-- src-tauri/src/storage/run_journal.rs: the rows of the run journal and of the side-effect ledger.
-- Rows hold the enums whose tags the columns store. Times are natural numbers. The UUID of a text is
-- the parameter `uuid`.
pub mod Tables
pub mod Tags
pub mod Protocol
use hive_manager.Base.{
  ℕ, ◌≡◌, Bool, true, false, not, ◌&&◌, ◌||◌, Option, none, some, List, [], ◌∷◌, ◌++◌, String,
  str_eq, str_leb, codes, decimal, ltb, ◌==◌, if◌then◌else◌, select, sort_by, update_where, is_nil,
}

pub data StepKind : Type 0 where
  worker_spawn evaluator_spawn git_commit git_branch file_write task_injection other : StepKind

unfoldable pub is_write_step : StepKind → Bool
is_write_step worker_spawn = true
is_write_step evaluator_spawn = true
is_write_step git_commit = true
is_write_step git_branch = true
is_write_step file_write = true
is_write_step _ = false

unfoldable pub kind_tag : StepKind → String
kind_tag worker_spawn = "worker_spawn"
kind_tag evaluator_spawn = "evaluator_spawn"
kind_tag git_commit = "git_commit"
kind_tag git_branch = "git_branch"
kind_tag file_write = "file_write"
kind_tag task_injection = "task_injection"
kind_tag other = "other"

unfoldable pub kind_of_tag : String → StepKind
kind_of_tag tag =
    if str_eq tag "worker_spawn"
    then worker_spawn
    else if str_eq tag "evaluator_spawn"
    then evaluator_spawn
    else if str_eq tag "git_commit"
    then git_commit
    else if str_eq tag "git_branch"
    then git_branch
    else if str_eq tag "file_write"
    then file_write
    else if str_eq tag "task_injection"
    then task_injection
    else other

pub data StepStatus : Type 0 where
  started completed failed interrupted unknown skipped : StepStatus

unfoldable pub status_tag : StepStatus → String
status_tag started = "started"
status_tag completed = "completed"
status_tag failed = "failed"
status_tag interrupted = "interrupted"
status_tag unknown = "unknown"
status_tag skipped = "skipped"

unfoldable pub status_of_tag : String → StepStatus
status_of_tag tag =
    if str_eq tag "started"
    then started
    else if str_eq tag "completed"
    then completed
    else if str_eq tag "failed"
    then failed
    else if str_eq tag "interrupted"
    then interrupted
    else if str_eq tag "skipped"
    then skipped
    else unknown

pub data Confidence : Type 0 where
  high likely uncertain : Confidence

unfoldable pub confidence_tag : Confidence → String
confidence_tag high = "high"
confidence_tag likely = "likely"
confidence_tag uncertain = "uncertain"

unfoldable pub confidence_from_tag : String → Confidence
confidence_from_tag tag =
    if str_eq tag "high" then high else if str_eq tag "likely" then likely else uncertain

pub record RunJournalEntry : Type 0 where
  pub run_id : String
  pub step_id : String
  pub kind : StepKind
  pub status : StepStatus
  pub started_at : ℕ
  pub finished_at : Option ℕ
  pub detail : Option String

pub record LedgerEntry : Type 0 where
  pub run_id : String
  pub step_id : String
  pub effect_kind : String
  pub effect_ref : Option String
  pub confirmed : Bool
  pub confidence : Confidence
  pub recorded_at : ℕ

pub record ResumeReport : Type 0 where
  pub skipped_steps : List RunJournalEntry
  pub interrupted_steps : List RunJournalEntry
  pub uncertain_effects : List LedgerEntry

unfoldable pub is_empty : ResumeReport → Bool
is_empty r = is_nil r.skipped_steps && is_nil r.interrupted_steps && is_nil r.uncertain_effects

-- The two tables.
pub record Store : Type 0 where
  pub journal : List RunJournalEntry
  pub ledger : List LedgerEntry

-- `format!("{}:{}:{}", run_id, kind, ordinal)`.
unfoldable pub step_content : String → StepKind → ℕ → List ℕ
unfolding kind_tag decimal
step_content run_id kind ordinal =
    codes run_id ++ b':' ∷ (codes (kind_tag kind) ++ b':' ∷ decimal ordinal)

unfoldable pub deterministic_step_id : (List ℕ → String) → String → StepKind → ℕ → String
deterministic_step_id uuid run_id kind ordinal = uuid (step_content run_id kind ordinal)

abbrev pub classify : StepStatus → Bool → StepStatus
classify completed has_unconfirmed_ledger = completed
classify failed has_unconfirmed_ledger = failed
classify skipped has_unconfirmed_ledger = skipped
classify _ has_unconfirmed_ledger = if has_unconfirmed_ledger then unknown else interrupted

unfoldable pub classify_step : RunJournalEntry → Bool → StepStatus
classify_step entry has_unconfirmed_ledger = classify entry.status has_unconfirmed_ledger
