-- ===== src/Queue/Maintenance.antt =====
-- The maintenance passes: which rows they take, and what becomes of them.
use hive_manager.Base.{
  ℕ, ◌≡◌, refl, Bool, true, false, some, [], ◌∷◌, String, str_eq, str_eq_iff, if◌then◌else◌, select,
  any, Bool-cases, inl, inr, ap, arith,
}
use hive_manager.Queue.{
  queued, finalized, QueueRow, Table, has_id, is_stuck, is_exhausted, ids, set_status,
  reclaim_stuck, finalize_no_progress, try_claim, get_row, claim_row,
}
use hive_manager.Queue.Rows.{IsKeyed}
use hive_manager.Queue.Claim.{try_claim_open}
use hive_manager.Queue.Steps.{reclaims, finalizes, step, get_row-step, step-IsKeyed}

module _ {J : Type 0} where
  listed_none :
      (p : QueueRow J → Bool) (id : String) (t : Table J)
      → any (has_id id) t ≡ false
      → any (λ j. str_eq j id) (ids (select p t)) ≡ false
  listed_none p id [] h = refl
  listed_none p id (r ∷ rs) h = ground (arith, listed_none p id rs)

  listed_lem :
      (p : QueueRow J → Bool) (id : String) (t : Table J) (r : QueueRow J)
      → IsKeyed t
      → get_row id t ≡ some r
      → any (λ j. str_eq j id) (ids (select p t)) ≡ p r
  unfolding get_row
  listed_lem p id [] r k h = cc
  listed_lem p id (x ∷ rs) r k h = elim (Bool-cases (has_id id x)) [
    | inl same ↦
        ground
          (arith, listed_none p id rs, ap (λ j. any (has_id j) rs) ((str_eq_iff x.id id).0 same))
    | inr other ↦ ground (arith, listed_lem p id rs r k.1 (ground arith))
  ]

  -- `reclaim_stuck` reports a run exactly if it was running with no heartbeat or one before the
  -- cutoff. Such a run is queued afterwards, with its heartbeat and counters kept, and any other row
  -- is untouched.
  pub reclaim_stuck_lem :
      (id : String) (cutoff now : ℕ) (t : Table J) (r : QueueRow J)
      → IsKeyed t
      → get_row id t ≡ some r
      → (any (λ j. str_eq j id) (reclaim_stuck cutoff now t).0 ≡ is_stuck cutoff r)
        × (get_row id (reclaim_stuck cutoff now t).1
            ≡ some (if is_stuck cutoff r then set_status queued now r else r))
  unfolding reclaim_stuck step
  reclaim_stuck_lem id cutoff now t r k h =
      (listed_lem (is_stuck cutoff) id t r k h, get_row-step (reclaims cutoff now) id t r h)

  -- A stuck run is not lost: after the reclaiming pass the next claim of it wins, whatever its
  -- cutoff and clock, and counts one more attempt.
  pub reclaim_then_claim :
      (id : String) (cutoff now later_cutoff later : ℕ) (t : Table J) (r : QueueRow J)
      → IsKeyed t
      → get_row id t ≡ some r
      → is_stuck cutoff r ≡ true
      → let (won, t') = try_claim id later_cutoff later (reclaim_stuck cutoff now t).1 in
        (won ≡ true) × (get_row id t' ≡ some (claim_row later (set_status queued now r)))
  unfolding step
  reclaim_then_claim id cutoff now later_cutoff later t r k h stuck =
      try_claim_open id later_cutoff later (step (reclaims cutoff now) t) (set_status queued now r)
        (step-IsKeyed (reclaims cutoff now) t k)
        (rw stuck at (get_row-step (reclaims cutoff now) id t r h)) refl

  -- `finalize_no_progress` reports a run exactly if it is queued or running and has reached the
  -- budget of continuations or the one of beats without progress. Such a run is finalized, and any
  -- other row is untouched.
  pub finalize_no_progress_lem :
      (id : String) (continuations no_progress now : ℕ) (t : Table J) (r : QueueRow J)
      → IsKeyed t
      → get_row id t ≡ some r
      → (any (λ j. str_eq j id) (finalize_no_progress continuations no_progress now t).0
          ≡ is_exhausted continuations no_progress r)
        × (get_row id (finalize_no_progress continuations no_progress now t).1
            ≡ some (
                if is_exhausted continuations no_progress r then set_status finalized now r else r))
  unfolding finalize_no_progress step
  finalize_no_progress_lem id continuations no_progress now t r k h = (
    listed_lem (is_exhausted continuations no_progress) id t r k h,
    get_row-step (finalizes continuations no_progress now) id t r h,
  )
