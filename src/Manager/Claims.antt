-- ===== src/Manager/Claims.antt =====
-- Claims and enqueues through the manager: the events that they publish, and what a database fault
-- leaves behind.
use hive_manager.Base.{
  ℕ, ◌+◌, ◌-◌, ◌≤◌, ◌≡◌, ap, ◌∙◌, Bool, true, false, Option, none, some, List, [], ◌∷◌, ◌++◌,
  String, Bool-cases, inl, inr, arith,
}
use hive_manager.Database.{StorageError, ok, err, with_conn}
use hive_manager.Events.{Event, worker_claimed, worker_claim_failed, info, warning}
use hive_manager.Queue.{QueueRow, queued, claim_row, get_row, try_claim}
use hive_manager.Queue.Rows.{IsKeyed}
use hive_manager.Queue.Claim.{try_claim_open, try_claim_shut, try_claim-IsKeyed}
use hive_manager.Manager.{
  World, stuck_cutoff_ms, enqueue_worker, claim_and_spawn, record_heartbeat, reclaim_stuck,
  finalize_no_progress, reconcile, queue_snapshot,
}

abbrev pub claim_event : String → String → Bool → Event
claim_event session worker true = record {
  session_id = session;
  cell_id = none;
  agent_id = some worker;
  event_type = worker_claimed;
  severity = info;
}
claim_event session worker false = record {
  session_id = session;
  cell_id = none;
  agent_id = some worker;
  event_type = worker_claim_failed;
  severity = warning;
}

module _ {J : Type 0} where
  -- The world after a statement that failed: one fault is used up, and nothing else has changed.
  abbrev pub Untouched : World J → List (Option StorageError) → World J
  Untouched w rest = record w { db = record { table = w.db.table; faults = rest } }

  -- When the statement of an operation fails, the operation returns that error, changes no row and
  -- publishes no event: an event never runs ahead of the database. (For `reconcile` and the
  -- maintenance passes this is their first statement.)
  pub fault_silent :
      (e : StorageError) (rest : List (Option StorageError)) (w : World J) (now : ℕ)
      (id session worker role cli status : String) (payload : J) (task : Option String)
      (live : List String)
      → w.db.faults ≡ some e ∷ rest
      → (enqueue_worker now id session worker role cli payload task w ≡ (err e, Untouched w rest))
        × (claim_and_spawn now id session worker w ≡ (err e, Untouched w rest))
        × (record_heartbeat now session worker status w ≡ (err e, Untouched w rest))
        × (reclaim_stuck now w ≡ (err e, Untouched w rest))
        × (finalize_no_progress now w ≡ (err e, Untouched w rest))
        × (reconcile now session live w ≡ (err e, Untouched w rest))
        × (queue_snapshot session w ≡ (err e, Untouched w rest))
  unfolding with_conn enqueue_worker claim_and_spawn record_heartbeat reclaim_stuck
      finalize_no_progress reconcile queue_snapshot
  fault_silent e rest w now id session worker role cli status payload task live f =
      (rw f, rw f, rw f, rw f, rw f, rw f, rw f)

  -- Without faults a claim returns whether it won, changes the table by its statement, and
  -- publishes exactly one event: claimed for a win, claim failed for a loss.
  pub claim_and_spawn_lem :
      (now : ℕ) (id session worker : String) (w : World J)
      → w.db.faults ≡ []
      → w.bus_faults ≡ []
      → let stmt = try_claim id (now - stuck_cutoff_ms) now w.db.table in
        ((claim_and_spawn now id session worker w).0 ≡ ok stmt.0)
        × ((claim_and_spawn now id session worker w).1.db.table ≡ stmt.1)
        × ((claim_and_spawn now id session worker w).1.log
            ≡ w.log ++ claim_event session worker stmt.0 ∷ [])
        × ((claim_and_spawn now id session worker w).1.db.faults ≡ [])
        × ((claim_and_spawn now id session worker w).1.bus_faults ≡ [])
  unfolding with_conn claim_and_spawn
  claim_and_spawn_lem now id session worker w f b =
      elim (Bool-cases (try_claim id (now - stuck_cutoff_ms) now w.db.table).0) [
        | inl won ↦ (rw (f, b, won), rw (f, b, won), rw (f, b, won), rw (f, b, won), rw (f, b, won))
        | inr lost ↦
            (rw (f, b, lost), rw (f, b, lost), rw (f, b, lost), rw (f, b, lost), rw (f, b, lost))
      ]

  -- No double spawn: while no statement and no publication fails, and no two rows have one id, of
  -- two claims of a queued run, the second at most `stuck_cutoff_ms` after the first, the first
  -- returns true and the second false, and the row is left as the first claim made it.
  pub claim_once :
      (now later : ℕ) (id session worker rival : String) (w : World J) (r : QueueRow J)
      → w.db.faults ≡ []
      → w.bus_faults ≡ []
      → IsKeyed w.db.table
      → get_row id w.db.table ≡ some r
      → r.status ≡ queued
      → later ≤ now + stuck_cutoff_ms
      → let (first, w1) = claim_and_spawn now id session worker w in
        let (second, w2) = claim_and_spawn later id session rival w1 in
        (first ≡ ok true) × (second ≡ ok false) × (get_row id w2.db.table ≡ some (claim_row now r))
  claim_once now later id session worker rival w r f b k h q soon =
      let cutoff = now - stuck_cutoff_ms in
      let (one, table, log, f1, b1) = claim_and_spawn_lem now id session worker w f b in
      let w1 = (claim_and_spawn now id session worker w).1 in
      let (two, table2, log2, f2, b2) = claim_and_spawn_lem later id session rival w1 f1 b1 in
      let (won, found) = try_claim_open id cutoff now w.db.table r k h (ground arith) in
      let (lost, kept) =
        try_claim_shut id (later - stuck_cutoff_ms) later w1.db.table (claim_row now r)
          (rw table (try_claim-IsKeyed id cutoff now w.db.table k)) (rw table found)
          (ground arith) in
      (one ∙ ap ok won, two ∙ ap ok lost, rw table2 kept)
