-- ===== src/Queue.antt =====
-- src-tauri/src/storage/queue.rs: the durable run queue. A table is the list of its rows, and a
-- statement is a function on tables. The `status` column is stored by its tag; since `from_tag`
-- undoes `as_tag`, a row holds the status itself. Timestamps are milliseconds since the epoch and
-- counters start at 0, so both are natural numbers. The payload is JSON that no statement reads.
pub mod Rows
pub mod Claim
pub mod Steps
pub mod Beats
pub mod Maintenance
pub mod Invariant
pub mod Views
use hive_manager.Base.{
  ℕ, ◌+◌, Bool, true, false, not, ◌&&◌, ◌||◌, Option, none, some, List, [], ◌∷◌, map, String,
  str_eq, ltb, leb, ◌==◌, if◌then◌else◌, select, count_where, update_where, is_nil,
}

pub data QueueStatus : Type 0 where
  queued running finalized failed : QueueStatus

unfoldable pub as_tag : QueueStatus → String
as_tag queued = "queued"
as_tag running = "running"
as_tag finalized = "finalized"
as_tag failed = "failed"

unfoldable pub from_tag : String → QueueStatus
from_tag tag =
    if str_eq tag "running"
    then running
    else if str_eq tag "finalized"
    then finalized
    else if str_eq tag "failed"
    then failed
    else queued

abbrev pub is_queued : QueueStatus → Bool
is_queued queued = true
is_queued _ = false

abbrev pub is_running : QueueStatus → Bool
is_running running = true
is_running _ = false

abbrev pub is_finalized : QueueStatus → Bool
is_finalized finalized = true
is_finalized _ = false

abbrev pub is_failed : QueueStatus → Bool
is_failed failed = true
is_failed _ = false

-- `status IN ('queued', 'running')`.
abbrev pub is_open : QueueStatus → Bool
is_open queued = true
is_open running = true
is_open _ = false

pub record QueueRow (J : Type 0) : Type 0 where
  pub id : String
  pub task_id : Option String
  pub session_id : String
  pub worker_id : String
  pub role_type : String
  pub cli : String
  pub status : QueueStatus
  pub payload : J
  pub attempts : ℕ
  pub continuation_count : ℕ
  pub no_progress_count : ℕ
  pub last_status : Option String
  pub heartbeat_at : Option ℕ
  pub created_at : ℕ
  pub updated_at : ℕ

pub record QueueSnapshot (J : Type 0) : Type 0 where
  pub queued_rows : ℕ
  pub running_rows : ℕ
  pub finalized_rows : ℕ
  pub failed_rows : ℕ
  pub rows : List (QueueRow J)

abbrev pub Table : Type 0 → Type 0
Table J = List (QueueRow J)

-- `heartbeat_at IS NULL OR heartbeat_at < cutoff`.
abbrev pub is_stale : ℕ → Option ℕ → Bool
is_stale cutoff none = true
is_stale cutoff (some beat) = ltb beat cutoff

-- `last_status IS NOT NULL AND last_status = status`.
abbrev pub is_repeat : Option String → String → Bool
is_repeat none status = false
is_repeat (some last) status = str_eq last status

module _ {J : Type 0} where
  abbrev pub has_id : String → QueueRow J → Bool
  has_id id r = str_eq r.id id

  -- The condition of the claiming statement, but for the id.
  abbrev pub is_claimable : ℕ → QueueRow J → Bool
  is_claimable cutoff r =
      is_queued r.status || is_running r.status && is_stale cutoff r.heartbeat_at

  abbrev pub is_stuck : ℕ → QueueRow J → Bool
  is_stuck cutoff r = is_running r.status && is_stale cutoff r.heartbeat_at

  abbrev pub is_exhausted : ℕ → ℕ → QueueRow J → Bool
  is_exhausted max_continuations max_no_progress r =
      is_open r.status
      && (leb max_continuations r.continuation_count || leb max_no_progress r.no_progress_count)

  -- `INSERT … ON CONFLICT(id) DO NOTHING`.
  unfoldable pub enqueue : QueueRow J → Table J → Table J
  enqueue row [] = row ∷ []
  enqueue row (r ∷ rs) = r ∷ (if str_eq r.id row.id then rs else enqueue row rs)

  abbrev pub claim_row : ℕ → QueueRow J → QueueRow J
  claim_row now r = record r {
    status = running;
    attempts = r.attempts + 1;
    updated_at = now;
    heartbeat_at = some now;
  }

  unfoldable pub try_claim : String → ℕ → ℕ → Table J → Bool × Table J
  try_claim id stuck_cutoff_ms now_ms t =
      let won = λ (r : QueueRow J). has_id id r && is_claimable stuck_cutoff_ms r in
      (count_where won t == 1, update_where won (claim_row now_ms) t)

  abbrev pub beat_row : String → ℕ → QueueRow J → QueueRow J
  beat_row status now r = record r {
    status = if str_eq status "completed" && is_open r.status then finalized else r.status;
    heartbeat_at = some now;
    updated_at = now;
    no_progress_count = if is_repeat r.last_status status then r.no_progress_count + 1 else 0;
    continuation_count =
        if is_repeat r.last_status status then r.continuation_count else r.continuation_count + 1;
    last_status = some status;
  }

  abbrev pub beats : String → String → QueueRow J → Bool
  beats session_id worker_id r =
      str_eq r.session_id session_id && str_eq r.worker_id worker_id && is_open r.status

  unfoldable pub record_heartbeat : String → String → String → ℕ → Table J → Bool × Table J
  record_heartbeat session_id worker_id status now_ms t = (
    leb 1 (count_where (beats session_id worker_id) t),
    update_where (beats session_id worker_id) (beat_row status now_ms) t,
  )

  abbrev pub set_status : QueueStatus → ℕ → QueueRow J → QueueRow J
  set_status s now r = record r { status = s; updated_at = now }

  abbrev pub ids : Table J → List String
  ids = map λ r. r.id

  -- The ids are read first, and the update is made only if there are any.
  unfoldable pub reclaim_stuck : ℕ → ℕ → Table J → List String × Table J
  reclaim_stuck stuck_cutoff_ms now_ms t =
      let found = ids (select (is_stuck stuck_cutoff_ms) t) in
      (
        found,
        if not (is_nil found)
            then update_where (is_stuck stuck_cutoff_ms) (set_status queued now_ms) t
            else t,
      )

  unfoldable pub finalize_no_progress : ℕ → ℕ → ℕ → Table J → List String × Table J
  finalize_no_progress max_continuations max_no_progress now_ms t =
      let found = ids (select (is_exhausted max_continuations max_no_progress) t) in
      (
        found,
        if not (is_nil found)
            then update_where (is_exhausted max_continuations max_no_progress)
                (set_status finalized now_ms) t
            else t,
      )

  unfoldable pub requeue_running : String → ℕ → Table J → Bool × Table J
  requeue_running id now_ms t =
      let orphan = λ (r : QueueRow J). has_id id r && is_running r.status in
      (count_where orphan t == 1, update_where orphan (set_status queued now_ms) t)

  unfoldable pub get_row : String → Table J → Option (QueueRow J)
  get_row id [] = none
  get_row id (r ∷ rs) = if has_id id r then some r else get_row id rs
