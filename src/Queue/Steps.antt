-- ===== src/Queue/Steps.antt =====
-- Every operation of the queue as a step of the table, and what no history of steps can do.
use hive_manager.Base.{
  ℕ, ◌≡◌, refl, Bool, true, false, ◌&&◌, some, List, [], ◌∷◌, ◌∙◌, String, if◌then◌else◌, select,
  is_nil, update_where, arith,
}
use hive_manager.Queue.{
  queued, finalized, is_running, is_open, QueueRow, Table, has_id, is_claimable, is_stuck,
  is_exhausted, beats, claim_row, beat_row, set_status, ids, enqueue, try_claim, record_heartbeat,
  reclaim_stuck, finalize_no_progress, requeue_running, get_row,
}
use hive_manager.Queue.Rows.{
  IsKeyed, update_where-IsKeyed, get_row-update_where, enqueue-IsKeyed, get_row-enqueue,
}

pub data Op (J : Type 0) : Type 0 where
  enqueues : QueueRow J → Op J
  claims : String → ℕ → ℕ → Op J
  heartbeats : String → String → String → ℕ → Op J
  reclaims : ℕ → ℕ → Op J
  finalizes : ℕ → ℕ → ℕ → Op J
  requeues : String → ℕ → Op J

module _ {J : Type 0} where
  unfoldable pub step : Op J → Table J → Table J
  step (enqueues row) t = enqueue row t
  step (claims id cutoff now) t = (try_claim id cutoff now t).1
  step (heartbeats session worker status now) t = (record_heartbeat session worker status now t).1
  step (reclaims cutoff now) t = (reclaim_stuck cutoff now t).1
  step (finalizes continuations no_progress now) t =
      (finalize_no_progress continuations no_progress now t).1
  step (requeues id now) t = (requeue_running id now t).1

  unfoldable pub run : List (Op J) → Table J → Table J
  run [] t = t
  run (o ∷ os) t = run os (step o t)

  update_where-none :
      (p : QueueRow J → Bool) (f : QueueRow J → QueueRow J) (t : Table J)
      → is_nil (ids (select p t)) ≡ true
      → update_where p f t ≡ t
  update_where-none p f [] h = refl
  update_where-none p f (r ∷ rs) h = ground (arith, update_where-none p f rs)

  -- The maintenance passes read the ids first; that makes no difference to the table.
  pub reclaim_stuck-eq :
      (cutoff now : ℕ) (t : Table J)
      → (reclaim_stuck cutoff now t).1 ≡ update_where (is_stuck cutoff) (set_status queued now) t
  unfolding reclaim_stuck
  reclaim_stuck-eq cutoff now t =
      ground (arith, update_where-none (is_stuck cutoff) (set_status queued now) t)

  pub finalize_no_progress-eq :
      (continuations no_progress now : ℕ) (t : Table J)
      → (finalize_no_progress continuations no_progress now t).1
        ≡ update_where (is_exhausted continuations no_progress) (set_status finalized now) t
  unfolding finalize_no_progress
  finalize_no_progress-eq continuations no_progress now t = ground (
    arith,
    update_where-none (is_exhausted continuations no_progress) (set_status finalized now) t,
  )

  -- What an operation does to a row that is there.
  abbrev pub touch : Op J → QueueRow J → QueueRow J
  touch (enqueues row) r = r
  touch (claims id cutoff now) r =
      if has_id id r && is_claimable cutoff r then claim_row now r else r
  touch (heartbeats session worker status now) r =
      if beats session worker r then beat_row status now r else r
  touch (reclaims cutoff now) r = if is_stuck cutoff r then set_status queued now r else r
  touch (finalizes continuations no_progress now) r =
      if is_exhausted continuations no_progress r then set_status finalized now r else r
  touch (requeues id now) r =
      if has_id id r && is_running r.status then set_status queued now r else r

  -- Every operation keeps every row, and changes it by its own condition alone.
  pub get_row-step :
      (o : Op J) (id : String) (t : Table J) (r : QueueRow J)
      → get_row id t ≡ some r
      → get_row id (step o t) ≡ some (touch o r)
  unfolding step try_claim record_heartbeat requeue_running
  get_row-step (enqueues row) id t r h = get_row-enqueue row id t r h
  get_row-step (claims j cutoff now) id t r h =
      get_row-update_where _ (claim_row now) id t r (λ x. refl) h
  get_row-step (heartbeats session worker status now) id t r h =
      get_row-update_where _ (beat_row status now) id t r (λ x. refl) h
  get_row-step (reclaims cutoff now) id t r h =
      rw (reclaim_stuck-eq cutoff now t)
        (get_row-update_where _ (set_status queued now) id t r (λ x. refl) h)
  get_row-step (finalizes continuations no_progress now) id t r h =
      rw (finalize_no_progress-eq continuations no_progress now t)
        (get_row-update_where _ (set_status finalized now) id t r (λ x. refl) h)
  get_row-step (requeues j now) id t r h =
      get_row-update_where _ (set_status queued now) id t r (λ x. refl) h

  pub step-IsKeyed : (o : Op J) (t : Table J) → IsKeyed t → IsKeyed (step o t)
  unfolding step try_claim record_heartbeat requeue_running
  step-IsKeyed (enqueues row) t k = enqueue-IsKeyed row t k
  step-IsKeyed (claims j cutoff now) t k = update_where-IsKeyed _ (claim_row now) t (λ x. refl) k
  step-IsKeyed (heartbeats session worker status now) t k =
      update_where-IsKeyed _ (beat_row status now) t (λ x. refl) k
  step-IsKeyed (reclaims cutoff now) t k =
      rw (reclaim_stuck-eq cutoff now t)
        (update_where-IsKeyed _ (set_status queued now) t (λ x. refl) k)
  step-IsKeyed (finalizes continuations no_progress now) t k =
      rw (finalize_no_progress-eq continuations no_progress now t)
        (update_where-IsKeyed _ (set_status finalized now) t (λ x. refl) k)
  step-IsKeyed (requeues j now) t k = update_where-IsKeyed _ (set_status queued now) t (λ x. refl) k

  -- No history of operations ever makes two rows with one id.
  pub run-IsKeyed : (os : List (Op J)) (t : Table J) → IsKeyed t → IsKeyed (run os t)
  unfolding run
  run-IsKeyed [] t k = k
  run-IsKeyed (o ∷ os) t k = run-IsKeyed os (step o t) (step-IsKeyed o t k)

  touch-frozen : (o : Op J) (r : QueueRow J) → is_open r.status ≡ false → touch o r ≡ r
  touch-frozen (enqueues row) r h = refl
  touch-frozen (claims j cutoff now) r h = ground arith
  touch-frozen (heartbeats session worker status now) r h = ground arith
  touch-frozen (reclaims cutoff now) r h = ground arith
  touch-frozen (finalizes continuations no_progress now) r h = ground arith
  touch-frozen (requeues j now) r h = ground arith

  -- A run that is finalized or failed keeps its row, unchanged in every column, whatever claims,
  -- heartbeats, duplicate enqueues, maintenance passes and reconciliations follow.
  pub run-terminal :
      (os : List (Op J)) (id : String) (t : Table J) (r : QueueRow J)
      → get_row id t ≡ some r
      → is_open r.status ≡ false
      → get_row id (run os t) ≡ some r
  unfolding run
  run-terminal [] id t r h s = h
  run-terminal (o ∷ os) id t r h s =
      run-terminal os id (step o t) r (get_row-step o id t r h ∙ λ i. some (touch-frozen o r s i)) s
