-- ===== src/Queue/Beats.antt =====
-- Heartbeats: the progress counters over a streak of beats, and the beat that ends a run.
use hive_manager.Base.{
  ℕ, ◌+◌, ◌≡◌, refl, true, false, some, List, [], ◌∷◌, ◌∙◌, map, String, str_eq, str_eq_iff, length,
  arith,
}
use hive_manager.Queue.{finalized, is_open, QueueRow, Table, is_repeat, beats, beat_row, get_row}
use hive_manager.Queue.Steps.{Op, heartbeats, step, run, touch, get_row-step, run-terminal}

module _ {J : Type 0} where
  -- The heartbeats that a row's own worker sends with one status, at the given times.
  abbrev pub streak : QueueRow J → String → List ℕ → List (Op J)
  streak r status = map λ now. heartbeats r.session_id r.worker_id status now

  beats_own : (r : QueueRow J) → is_open r.status ≡ true → beats r.session_id r.worker_id r ≡ true
  beats_own r o =
      ground (arith, str_eq_iff r.session_id r.session_id, str_eq_iff r.worker_id r.worker_id)

  -- One beat of an open row by its own worker.
  get_row-beat :
      (id status : String) (now : ℕ) (t : Table J) (r : QueueRow J)
      → get_row id t ≡ some r
      → is_open r.status ≡ true
      → get_row id (step (heartbeats r.session_id r.worker_id status now) t)
        ≡ some (beat_row status now r)
  get_row-beat id status now t r h o =
      get_row-step (heartbeats r.session_id r.worker_id status now) id t r h ∙ λ i.
      some (rest (beats_own r o) i)
    where
      rest :
          beats r.session_id r.worker_id r ≡ true
          → touch (heartbeats r.session_id r.worker_id status now) r ≡ beat_row status now r
      rest e = rw e

  -- What a streak of `n` further beats with the same status leaves of a row.
  abbrev pub Streaked : QueueRow J → QueueRow J → String → ℕ → Type 0
  Streaked r r' status n =
      (r'.no_progress_count ≡ r.no_progress_count + n)
      × (r'.continuation_count ≡ r.continuation_count)
      × (r'.last_status ≡ some status)
      × (r'.status ≡ r.status)
      × (r'.attempts ≡ r.attempts)
      × (r'.session_id ≡ r.session_id)
      × (r'.worker_id ≡ r.worker_id)

  beat_again :
      (status : String) (now : ℕ) (r : QueueRow J)
      → str_eq status "completed" ≡ false
      → r.last_status ≡ some status
      → Streaked r (beat_row status now r) status 1
  beat_again status now r c l = ground (arith, str_eq_iff status status)

  -- After `n` further beats with the status it has, a row counts `n` more beats without progress
  -- and nothing else.
  streak_again :
      (id status : String) (times : List ℕ) (t : Table J) (r : QueueRow J)
      → get_row id t ≡ some r
      → is_open r.status ≡ true
      → str_eq status "completed" ≡ false
      → r.last_status ≡ some status
      → (r' : QueueRow J) × (get_row id (run (streak r status times) t) ≡ some r')
        × Streaked r r' status (length times)
  unfolding run
  streak_again id status [] t r h o c l = (r, h, ground arith)
  streak_again id status (now ∷ times) t r h o c l =
      let next = beat_row status now r in
      let one = beat_again status now r c l in
      let (r', found, more) =
        streak_again id status times (step (heartbeats r.session_id r.worker_id status now) t) next
          (get_row-beat id status now t r h o) (ground (arith, one)) c refl in
      (r', found, ground (arith, one, more))

  -- A new status followed by `n` beats that repeat it counts one continuation in all and `n` beats
  -- without progress, whatever the row had counted before; the row stays as queued or running as
  -- it was. The status is not `completed` and is not the last one that the row saw.
  pub streak_lem :
      (id status : String) (now : ℕ) (times : List ℕ) (t : Table J) (r : QueueRow J)
      → get_row id t ≡ some r
      → is_open r.status ≡ true
      → str_eq status "completed" ≡ false
      → is_repeat r.last_status status ≡ false
      → (r' : QueueRow J) × (get_row id (run (streak r status (now ∷ times)) t) ≡ some r')
        × (r'.no_progress_count ≡ length times)
        × (r'.continuation_count ≡ r.continuation_count + 1)
        × (r'.last_status ≡ some status)
        × (r'.status ≡ r.status)
  unfolding run
  streak_lem id status now times t r h o c fresh =
      let next = beat_row status now r in
      let (r', found, more) =
        streak_again id status times (step (heartbeats r.session_id r.worker_id status now) t) next
          (get_row-beat id status now t r h o) (ground arith) c refl in
      (
        r',
        found,
        ground (arith, more),
        ground (arith, more),
        ground (arith, more),
        ground (arith, more),
      )

  -- The beat `completed` of an open row finalizes it for good: after any later operations the row
  -- is the one that this beat left, so no claim and no maintenance pass runs the work again.
  pub completed_final :
      (id : String) (now : ℕ) (os : List (Op J)) (t : Table J) (r : QueueRow J)
      → get_row id t ≡ some r
      → is_open r.status ≡ true
      → (r' : QueueRow J) × (r'.status ≡ finalized)
        × (r'.heartbeat_at ≡ some now)
        × (get_row id (run os (step (heartbeats r.session_id r.worker_id "completed" now) t))
            ≡ some r')
  completed_final id now os t r h o =
      let next = beat_row "completed" now r in
      let ends : next.status ≡ finalized = ground (arith, str_eq_iff "completed" "completed") in
      (
        next,
        ends,
        refl,
        run-terminal os id _ next (get_row-beat id "completed" now t r h o) (ground (arith, ends)),
      )
