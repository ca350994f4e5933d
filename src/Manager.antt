-- ===== src/Manager.antt =====
-- src-tauri/src/coordination/queue_manager.rs: the queue manager over the run queue and the event
-- bus. The clock is an argument of each operation. The bus may fail to publish an event, which the
-- manager only logs: the environment chooses which, by the list `bus_faults`.
pub mod Cadence
pub mod Claims
pub mod Reconcile
use hive_manager.Base.{
  ℕ, ◌+◌, ◌-◌, ◌*◌, ◌/◌, Bool, true, false, not, ◌&&◌, Option, none, some, List, [], ◌∷◌, ◌++◌,
  String, str_eq, ltb, ◌==◌, if◌then◌else◌, any,
}
use hive_manager.Database.{StorageError, Result, ok, err, Db, with_conn}
use hive_manager.Events.{
  EventType, Severity, Event, worker_queued, worker_claimed, worker_claim_failed, worker_reclaimed,
  worker_finalized, info, warning,
}
use hive_manager.Queue.{
  QueueRow, Table, QueueSnapshot, queued, is_running, enqueue, try_claim, record_heartbeat as beat,
  reclaim_stuck as reclaim, finalize_no_progress as finalize, requeue_running, get_row,
}
use hive_manager.Queue.Views.{rows_for_session, snapshot}

abbrev pub stuck_cutoff_ms : ℕ
stuck_cutoff_ms = 90000

abbrev pub stuck_cutoff_secs : ℕ
stuck_cutoff_secs = stuck_cutoff_ms / 1000

abbrev pub heartbeat_cadence_granularity_secs : ℕ
heartbeat_cadence_granularity_secs = 5

abbrev pub heartbeat_safety_factor : ℕ
heartbeat_safety_factor = 2

unfoldable pub derived_heartbeat_max_interval_secs : ℕ
derived_heartbeat_max_interval_secs =
    let budget = stuck_cutoff_secs / heartbeat_safety_factor in
    let rounded =
      budget / heartbeat_cadence_granularity_secs * heartbeat_cadence_granularity_secs in
    let strict =
      if ltb (rounded * heartbeat_safety_factor) stuck_cutoff_secs
      then rounded
      else rounded - heartbeat_cadence_granularity_secs in
    if strict == 0 then 1 else strict

unfoldable pub derived_heartbeat_min_interval_secs : ℕ
unfolding derived_heartbeat_max_interval_secs
derived_heartbeat_min_interval_secs =
    let half = derived_heartbeat_max_interval_secs / 2 in
    let rounded = half / heartbeat_cadence_granularity_secs * heartbeat_cadence_granularity_secs in
    if rounded == 0 then derived_heartbeat_max_interval_secs else rounded

abbrev pub max_continuations : ℕ
max_continuations = 8

abbrev pub no_progress_window_secs : ℕ
no_progress_window_secs = 1800

-- `NO_PROGRESS_WINDOW_SECS.div_ceil(HEARTBEAT_MIN_INTERVAL_SECS)`.
unfoldable pub max_no_progress_continuations : ℕ
unfolding derived_heartbeat_min_interval_secs
max_no_progress_continuations =
    (no_progress_window_secs + derived_heartbeat_min_interval_secs - 1)
    / derived_heartbeat_min_interval_secs

pub record World (J : Type 0) : Type 0 where
  pub db : Db (Table J)
  pub log : List Event
  pub bus_faults : List Bool

abbrev pub M : Type 0 → Type 0 → Type 0
M J A = World J → Result A × World J

module _ {J : Type 0} where
  abbrev pub continue_with : {A B : Type 0} → Result A → (A → M J B) → M J B
  continue_with (ok a) f w = f a w
  continue_with (err e) f w = (err e, w)

  infixl 5 ◌>>=◌ ◌>>◌
  abbrev pub ◌>>=◌ : {A B : Type 0} → M J A → (A → M J B) → M J B
  ◌>>=◌ m f w = continue_with (m w).0 f (m w).1

  abbrev pub ◌>>◌ : {B : Type 0} → M J (Unit {0}) → M J B → M J B
  ◌>>◌ m k w = continue_with (m w).0 (λ _. k) (m w).1

  abbrev pub pure : {A : Type 0} → A → M J A
  pure a w = (ok a, w)

  abbrev pub sql : {A : Type 0} → (Table J → A × Table J) → M J A
  sql stmt w = let (r, db) = with_conn stmt w.db in (r, record w { db = db })

  -- `publish` on the bus: an event that could not be persisted is dropped with a warning.
  abbrev pub published : List Bool → Event → World J → World J
  published [] event w = record w { log = w.log ++ event ∷ [] }
  published (false ∷ rest) event w = record w { log = w.log ++ event ∷ []; bus_faults = rest }
  published (true ∷ rest) event w = record w { bus_faults = rest }

  -- Neither way of emitting returns an error.
  unfoldable pub emit : String → String → EventType → Severity → World J → World J
  emit session_id worker_id event_type severity w =
      published w.bus_faults
        (record {
          session_id = session_id;
          cell_id = none;
          agent_id = some worker_id;
          event_type = event_type;
          severity = severity;
        })
        w

  abbrev pub tell : (World J → World J) → M J (Unit {0})
  tell f w = (ok tt, f w)

  abbrev emit_found : Result (Option (QueueRow J)) → EventType → Severity → World J → World J
  emit_found (ok (some row)) event_type severity w =
      emit row.session_id row.worker_id event_type severity w
  emit_found (ok none) event_type severity w = w
  emit_found (err e) event_type severity w = w

  unfoldable pub emit_for_row : String → EventType → Severity → World J → World J
  unfolding emit
  emit_for_row id event_type severity w =
      let (found, w') = sql (λ t. (get_row id t, t)) w in emit_found found event_type severity w'

  unfoldable pub enqueue_worker :
      ℕ → String → String → String → String → String → J → Option String → M J (Unit {0})
  unfolding emit
  enqueue_worker now id session_id worker_id role_type cli payload task_id = do
    let row : QueueRow J = record {
      id = id;
      task_id = task_id;
      session_id = session_id;
      worker_id = worker_id;
      role_type = role_type;
      cli = cli;
      status = queued;
      payload = payload;
      attempts = 0;
      continuation_count = 0;
      no_progress_count = 0;
      last_status = none;
      heartbeat_at = none;
      created_at = now;
      updated_at = now;
    }
    sql (λ t. (tt, enqueue row t))
    tell (emit session_id worker_id worker_queued info)

  unfoldable pub claim_and_spawn : ℕ → String → String → String → M J Bool
  unfolding emit
  claim_and_spawn now id session_id worker_id = do
    let cutoff = now - stuck_cutoff_ms
    won ← sql (try_claim id cutoff now)
    if won
        then tell (emit session_id worker_id worker_claimed info)
        else tell (emit session_id worker_id worker_claim_failed warning)
    pure won

  unfoldable pub record_heartbeat : ℕ → String → String → String → M J Bool
  unfolding emit
  record_heartbeat now session_id worker_id status = do
    updated ← sql (beat session_id worker_id status now)
    if updated && str_eq status "completed"
        then tell (emit session_id worker_id worker_finalized info)
        else pure tt
    pure updated

  -- The loop over the ids that a maintenance pass found.
  pub emit_each : List String → EventType → Severity → World J → World J
  emit_each [] event_type severity w = w
  emit_each (id ∷ rest) event_type severity w =
      emit_each rest event_type severity (emit_for_row id event_type severity w)

  unfoldable pub reclaim_stuck : ℕ → M J (List String)
  unfolding emit_each
  reclaim_stuck now = do
    let cutoff = now - stuck_cutoff_ms
    found ← sql (reclaim cutoff now)
    tell (emit_each found worker_reclaimed warning)
    pure found

  unfoldable pub finalize_no_progress : ℕ → M J (List String)
  unfolding emit_each max_no_progress_continuations
  finalize_no_progress now = do
    found ← sql (finalize max_continuations max_no_progress_continuations now)
    tell (emit_each found worker_finalized info)
    pure found

  -- The two passes read the clock one after the other.
  unfoldable pub run_maintenance : ℕ → ℕ → M J (Unit {0})
  unfolding reclaim_stuck finalize_no_progress
  run_maintenance now later = do
    reclaimed ← reclaim_stuck now
    finalized_ids ← finalize_no_progress later
    pure tt

  abbrev pub is_orphaned : List String → QueueRow J → Bool
  is_orphaned live_worker_ids row =
      is_running row.status && not (any (λ w. str_eq w row.worker_id) live_worker_ids)

  -- One round of `reconcile`'s loop, with the id that it adds.
  abbrev pub reconcile_row : ℕ → String → List String → QueueRow J → M J (List String)
  reconcile_row now session_id live_worker_ids row =
      if is_orphaned live_worker_ids row
      then (do
        changed ← sql (requeue_running row.id now)
        if changed
            then (do
              tell (emit session_id row.worker_id worker_reclaimed warning)
              pure (row.id ∷ []))
            else pure [])
      else pure []

  unfoldable pub reconcile_rows :
      ℕ → String → List String → List (QueueRow J) → List String → M J (List String)
  unfolding emit
  reconcile_rows now session_id live_worker_ids [] reclaimed = pure reclaimed
  reconcile_rows now session_id live_worker_ids (row ∷ rows) reclaimed = do
    more ← reconcile_row now session_id live_worker_ids row
    reconcile_rows now session_id live_worker_ids rows (reclaimed ++ more)

  unfoldable pub reconcile : ℕ → String → List String → M J (List String)
  unfolding reconcile_rows
  reconcile now session_id live_worker_ids = do
    rows ← sql (λ t. (rows_for_session session_id t, t))
    reconcile_rows now session_id live_worker_ids rows []

  unfoldable pub queue_snapshot : String → M J (QueueSnapshot J)
  queue_snapshot session_id = sql (λ t. (snapshot session_id t, t))
