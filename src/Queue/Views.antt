-- ===== src/Queue/Views.antt =====
-- The reading side of storage/queue.rs: a session's rows in order, and the snapshot of its counts.
use hive_manager.Base.{
  ◌+◌, ◌≡◌, Bool, ◌&&◌, ◌||◌, [], ◌∷◌, String, str_eq, str_leb, ltb, ◌==◌, select, any, sort_by,
  any-sort_by, count_where-sort_by, any-select, count_where-select, count_where, arith,
}
use hive_manager.Queue.{
  QueueStatus, queued, running, finalized, failed, is_queued, is_running, is_finalized, is_failed,
  QueueRow, QueueSnapshot, Table,
}

module _ {J : Type 0} where
  -- `ORDER BY created_at, id`.
  abbrev pub comes_before : QueueRow J → QueueRow J → Bool
  comes_before a b =
      ltb a.created_at b.created_at || a.created_at == b.created_at && str_leb a.id b.id

  unfoldable pub rows_for_session : String → Table J → Table J
  rows_for_session session_id t =
      sort_by comes_before (select (λ r. str_eq r.session_id session_id) t)

  abbrev pub count_row : QueueStatus → QueueSnapshot J → QueueSnapshot J
  count_row queued c = record c { queued_rows = c.queued_rows + 1 }
  count_row running c = record c { running_rows = c.running_rows + 1 }
  count_row finalized c = record c { finalized_rows = c.finalized_rows + 1 }
  count_row failed c = record c { failed_rows = c.failed_rows + 1 }

  -- The loop of `snapshot` over the rows.
  abbrev pub count_rows : Table J → QueueSnapshot J → QueueSnapshot J
  count_rows [] s = s
  count_rows (r ∷ rs) s = count_rows rs (count_row r.status s)

  unfoldable pub snapshot : String → Table J → QueueSnapshot J
  unfolding rows_for_session
  snapshot session_id t =
      let found = rows_for_session session_id t in
      count_rows found (record {
        queued_rows = 0;
        running_rows = 0;
        finalized_rows = 0;
        failed_rows = 0;
        rows = found;
      })

  -- Ordering and filtering lose no row of the session and add none.
  pub any-rows_for_session :
      (p : QueueRow J → Bool) (session_id : String) (t : Table J)
      → any p (rows_for_session session_id t) ≡ any (λ r. str_eq r.session_id session_id && p r) t
  unfolding rows_for_session
  any-rows_for_session p session_id t = ground (
    arith,
    any-sort_by comes_before p (select (λ r. str_eq r.session_id session_id) t),
    any-select p (λ r. str_eq r.session_id session_id) t,
  )

  count_where-rows_for_session :
      (p : QueueRow J → Bool) (session_id : String) (t : Table J)
      → count_where p (rows_for_session session_id t)
        ≡ count_where (λ r. str_eq r.session_id session_id && p r) t
  unfolding rows_for_session
  count_where-rows_for_session p session_id t = ground (
    arith,
    count_where-sort_by comes_before p (select (λ r. str_eq r.session_id session_id) t),
    count_where-select p (λ r. str_eq r.session_id session_id) t,
  )

  -- What `snapshot`'s loop adds to each counter.
  abbrev Counted : Table J → QueueSnapshot J → QueueSnapshot J → Type 0
  Counted rs s s' =
      (s'.queued_rows ≡ s.queued_rows + count_where (λ r. is_queued r.status) rs)
      × (s'.running_rows ≡ s.running_rows + count_where (λ r. is_running r.status) rs)
      × (s'.finalized_rows ≡ s.finalized_rows + count_where (λ r. is_finalized r.status) rs)
      × (s'.failed_rows ≡ s.failed_rows + count_where (λ r. is_failed r.status) rs)
      × (s'.rows ≡ s.rows)

  count_rows-Counted : (rs : Table J) (s : QueueSnapshot J) → Counted rs s (count_rows rs s)
  count_rows-Counted [] s = ground arith
  count_rows-Counted (r ∷ rs) s = ground (arith, count_rows-Counted rs (count_row r.status s))

  -- A snapshot counts the session's rows of each status as the table holds them, and lists the
  -- session's rows, so that nothing of another session shows.
  pub snapshot_lem :
      (session_id : String) (t : Table J)
      → let s = snapshot session_id t in
        let own = λ (q : QueueStatus → Bool) (r : QueueRow J).
          str_eq r.session_id session_id && q r.status in
        (s.queued_rows ≡ count_where (own is_queued) t)
        × (s.running_rows ≡ count_where (own is_running) t)
        × (s.finalized_rows ≡ count_where (own is_finalized) t)
        × (s.failed_rows ≡ count_where (own is_failed) t)
        × (s.rows ≡ rows_for_session session_id t)
  unfolding snapshot
  snapshot_lem session_id t =
      let counted = count_rows-Counted (rows_for_session session_id t) (record {
        queued_rows = 0;
        running_rows = 0;
        finalized_rows = 0;
        failed_rows = 0;
        rows = rows_for_session session_id t;
      }) in
      let over =
        λ (q : QueueStatus → Bool). count_where-rows_for_session (λ r. q r.status) session_id t in
      (
        omega (arith, counted.0, over is_queued),
        omega (arith, counted.1, over is_running),
        omega (arith, counted.2, over is_finalized),
        omega (arith, counted.3, over is_failed),
        counted.4,
      )
