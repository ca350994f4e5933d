-- ===== src/Queue/Invariant.antt =====
-- What holds of every row in every table that the queue's operations can produce.
use hive_manager.Base.{
  ℕ, ◌<◌, ◌≡◌, refl, Bool, true, false, none, some, List, [], ◌∷◌, String, str_eq, if◌then◌else◌,
  All, update_where, Option-cases, Bool-cases, inl, inr, arith,
}
use hive_manager.Queue.{
  queued, running, finalized, is_failed, QueueRow, Table, claim_row, beat_row, set_status, enqueue,
  try_claim, record_heartbeat, requeue_running,
}
use hive_manager.Queue.Steps.{
  Op, enqueues, claims, heartbeats, reclaims, finalizes, requeues, step, run, reclaim_stuck-eq,
  finalize_no_progress-eq,
}

module _ {J : Type 0} where
  -- A running row has been claimed and carries a heartbeat; a row that has seen a status has
  -- counted it as a continuation; a row that has seen none has counted no beat; no row is failed.
  pub record RowInv (r : QueueRow J) : Type 0 where
    pub claimed : r.status ≡ running → 0 < r.attempts
    pub beating : r.status ≡ running → (beat : ℕ) × (r.heartbeat_at ≡ some beat)
    pub seen : (s : String) → r.last_status ≡ some s → 0 < r.continuation_count
    pub unseen : r.last_status ≡ none → r.no_progress_count ≡ 0
    pub not_failed : is_failed r.status ≡ false

  -- A row as `enqueue_worker` makes it.
  pub record IsFresh (r : QueueRow J) : Type 0 where
    pub waits : r.status ≡ queued
    pub no_attempts : r.attempts ≡ 0
    pub no_continuations : r.continuation_count ≡ 0
    pub no_beats : r.no_progress_count ≡ 0
    pub no_status : r.last_status ≡ none

  -- Every row that an operation enqueues is fresh.
  abbrev pub EnqueuesFresh : Op J → Type 0
  EnqueuesFresh (enqueues row) = IsFresh row
  EnqueuesFresh _ = Unit {0}

  fresh-RowInv : (r : QueueRow J) → IsFresh r → RowInv r
  fresh-RowInv r f = record {
    claimed = λ e. ground arith;
    beating = λ e. ground arith;
    seen = λ s e. ground arith;
    unseen = λ e. ground arith;
    not_failed = ground arith;
  }

  claim_row-RowInv : (now : ℕ) (r : QueueRow J) → RowInv r → RowInv (claim_row now r)
  claim_row-RowInv now r v = record {
    claimed = λ e. omega arith;
    beating = λ e. (now, refl);
    seen = v.seen;
    unseen = v.unseen;
    not_failed = refl;
  }

  beat_row-RowInv :
      (status : String) (now : ℕ) (r : QueueRow J) → RowInv r → RowInv (beat_row status now r)
  beat_row-RowInv status now r v = record {
    claimed = λ e. v.claimed (ground arith);
    beating = λ e. (now, refl);
    seen = λ s e. elim (Option-cases r.last_status) [
      | inl fresh ↦ ground arith
      | inr (last, old) ↦ ground (arith, v.seen last old)
    ];
    unseen = λ e. ground arith;
    not_failed = ground (arith, v.not_failed);
  }

  set_queued-RowInv : (now : ℕ) (r : QueueRow J) → RowInv r → RowInv (set_status queued now r)
  set_queued-RowInv now r v = record {
    claimed = λ e. cc;
    beating = λ e. cc;
    seen = v.seen;
    unseen = v.unseen;
    not_failed = refl;
  }

  set_finalized-RowInv : (now : ℕ) (r : QueueRow J) → RowInv r → RowInv (set_status finalized now r)
  set_finalized-RowInv now r v = record {
    claimed = λ e. cc;
    beating = λ e. cc;
    seen = v.seen;
    unseen = v.unseen;
    not_failed = refl;
  }

  if-RowInv : (b : Bool) (r' r : QueueRow J) → RowInv r' → RowInv r → RowInv (if b then r' else r)
  if-RowInv true r' r v w = v
  if-RowInv false r' r v w = w

  All-update_where :
      (p : QueueRow J → Bool) (f : QueueRow J → QueueRow J) (t : Table J)
      → ((r : QueueRow J) → RowInv r → RowInv (f r))
      → All RowInv t
      → All RowInv (update_where p f t)
  All-update_where p f [] k h = tt
  All-update_where p f (r ∷ rs) k h =
      (if-RowInv (p r) (f r) r (k r h.0) h.0, All-update_where p f rs k h.1)

  All-enqueue :
      (row : QueueRow J) (t : Table J) → RowInv row → All RowInv t → All RowInv (enqueue row t)
  unfolding enqueue
  All-enqueue row [] v h = (v, tt)
  All-enqueue row (r ∷ rs) v h = elim (Bool-cases (str_eq r.id row.id)) [
    | inl same ↦ rw same h
    | inr other ↦ rw other (h.0, All-enqueue row rs v h.1)
  ]

  step-RowInv : (o : Op J) (t : Table J) → EnqueuesFresh o → All RowInv t → All RowInv (step o t)
  unfolding step try_claim record_heartbeat requeue_running
  step-RowInv (enqueues row) t f h = All-enqueue row t (fresh-RowInv row f) h
  step-RowInv (claims id cutoff now) t f h = All-update_where _ _ t (claim_row-RowInv now) h
  step-RowInv (heartbeats session worker status now) t f h =
      All-update_where _ _ t (beat_row-RowInv status now) h
  step-RowInv (reclaims cutoff now) t f h =
      rw (reclaim_stuck-eq cutoff now t) (All-update_where _ _ t (set_queued-RowInv now) h)
  step-RowInv (finalizes continuations no_progress now) t f h =
      rw (finalize_no_progress-eq continuations no_progress now t)
        (All-update_where _ _ t (set_finalized-RowInv now) h)
  step-RowInv (requeues id now) t f h = All-update_where _ _ t (set_queued-RowInv now) h

  -- If only fresh rows are enqueued, every row of every table that is reached is consistent: a
  -- running row was claimed at least once and has a heartbeat, the counters agree with the last
  -- status, and no row is failed.
  pub run-RowInv :
      (os : List (Op J)) (t : Table J) → All EnqueuesFresh os → All RowInv t → All RowInv (run os t)
  unfolding run
  run-RowInv [] t f h = h
  run-RowInv (o ∷ os) t f h = run-RowInv os (step o t) f.1 (step-RowInv o t f.0 h)
