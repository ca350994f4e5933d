-- ===== src/Manager/Reconcile.antt =====
-- `reconcile`: the repair of orphaned rows when a session is resumed.
use hive_manager.Base.{
  ℕ, ◌≡◌, refl, ap, ◌∙◌, Bool, true, false, ◌&&◌, ◌||◌, some, List, [], ◌∷◌, ◌++◌, String, str_eq,
  str_eq_iff, if◌then◌else◌, any, Bool-cases, inl, inr, arith,
}
use mathlib.Core.Path.{fun_ext}
use hive_manager.Database.{ok, with_conn}
use hive_manager.Queue.{
  QueueRow, Table, queued, is_running, has_id, set_status, get_row, requeue_running,
}
use hive_manager.Queue.Rows.{IsKeyed}
use hive_manager.Queue.Claim.{has_id-get_row}
use hive_manager.Queue.Steps.{step, requeues, get_row-step}
use hive_manager.Queue.Views.{rows_for_session, any-rows_for_session}
use hive_manager.Manager.{World, emit, is_orphaned, reconcile_row, reconcile_rows, reconcile}

module _ {J : Type 0} where
  -- The row that one round asks to requeue.
  abbrev picks : String → List String → QueueRow J → Bool
  picks id live x = has_id id x && is_orphaned live x

  emit-db :
      (session worker : String) (ty : _) (sev : _) (w : World J)
      → (emit session worker ty sev w).db ≡ w.db
  unfolding emit
  emit-db session worker ty sev w = ground arith

  -- One round without faults: the picked row is requeued if it still runs.
  abbrev Requeued : ℕ → Bool → QueueRow J → QueueRow J
  Requeued now hit r = if hit && is_running r.status then set_status queued now r else r

  requeued_lem :
      (now : ℕ) (id : String) (live : List String) (x : QueueRow J) (t : Table J) (r : QueueRow J)
      → get_row id t ≡ some r
      → is_orphaned live x ≡ true
      → get_row id (requeue_running x.id now t).1 ≡ some (Requeued now (picks id live x) r)
  unfolding step
  requeued_lem now id live x t r h orphan =
      get_row-step (requeues x.id now) id t r h ∙ ap (λ hit. some (Requeued now hit r)) same
    where
      same : has_id x.id r ≡ picks id live x
      same = ground (
        arith,
        has_id-get_row id t r h,
        str_eq_iff r.id x.id,
        str_eq_iff x.id r.id,
        str_eq_iff x.id id,
      )

  round_lem :
      (now : ℕ) (id session : String) (live : List String) (x : QueueRow J) (w : World J)
      (r : QueueRow J)
      → w.db.faults ≡ []
      → get_row id w.db.table ≡ some r
      → let (res, w') = reconcile_row now session live x w in
        (found : List String) × (res ≡ ok found)
        × (w'.db.faults ≡ [])
        × (get_row id w'.db.table ≡ some (Requeued now (picks id live x) r))
  unfolding with_conn
  round_lem now id session live x w r f h = elim (Bool-cases (is_orphaned live x)) [
    | inl orphan ↦ elim (Bool-cases (requeue_running x.id now w.db.table).0) [
      | inl changed ↦ (
        x.id ∷ [],
        rw (orphan, f, changed),
        rw (orphan, f, changed, emit-db),
        rw (orphan, f, changed, emit-db)
            (rw orphan at (requeued_lem now id live x w.db.table r h orphan)),
      )
      | inr same ↦ (
        [],
        rw (orphan, f, same),
        rw (orphan, f, same),
        rw (orphan, f, same) (rw orphan at (requeued_lem now id live x w.db.table r h orphan)),
      )
    ]
    | inr kept ↦ ([], rw kept, rw kept f, ground arith)
  ]

  requeued_twice :
      (now : ℕ) (a b : Bool) (r : QueueRow J)
      → Requeued now b (Requeued now a r) ≡ Requeued now (a || b) r
  requeued_twice now a b r = ground arith

  rows_lem :
      (now : ℕ) (id session : String) (live : List String) (rows : List (QueueRow J))
      (reclaimed : List String) (w : World J) (r : QueueRow J)
      → w.db.faults ≡ []
      → get_row id w.db.table ≡ some r
      → let (res, w') = reconcile_rows now session live rows reclaimed w in
        (found : List String) × (res ≡ ok found)
        × (get_row id w'.db.table ≡ some (Requeued now (any (picks id live) rows) r))
  unfolding reconcile_rows
  rows_lem now id session live [] reclaimed w r f h = (reclaimed, refl, h)
  rows_lem now id session live (x ∷ rows) reclaimed w r f h =
      let (more, res, f1, h1) = round_lem now id session live x w r f h in
      let w1 = (reconcile_row now session live x w).1 in
      let (found, done, last) =
        rows_lem now id session live rows (reclaimed ++ more) w1 (Requeued now (picks id live x) r)
          f1 h1 in
      (
        found,
        rw res done,
        rw res (last ∙ ap some (requeued_twice now (picks id live x) (any (picks id live) rows) r)),
      )

  any_other :
      (p : QueueRow J → Bool) (id : String) (t : Table J)
      → any (has_id id) t ≡ false
      → any (λ x. p x && has_id id x) t ≡ false
  any_other p id [] h = refl
  any_other p id (x ∷ rs) h = ground (arith, any_other p id rs)

  any_keyed :
      (p : QueueRow J → Bool) (id : String) (t : Table J) (r : QueueRow J)
      → IsKeyed t
      → get_row id t ≡ some r
      → any (λ x. p x && has_id id x) t ≡ p r
  unfolding get_row
  any_keyed p id [] r k h = cc
  any_keyed p id (x ∷ rs) r k h = elim (Bool-cases (has_id id x)) [
    | inl same ↦
        ground (arith, any_other p id rs, ap (λ j. any (has_id j) rs) ((str_eq_iff x.id id).0 same))
    | inr other ↦ ground (arith, any_keyed p id rs r k.1 (ground arith))
  ]

  -- After a fault-free `reconcile`, the session's running rows whose worker did not survive are
  -- queued again, and every other row, of this session or another, is exactly as before.
  pub reconcile_lem :
      (now : ℕ) (id session : String) (live : List String) (w : World J) (r : QueueRow J)
      → w.db.faults ≡ []
      → IsKeyed w.db.table
      → get_row id w.db.table ≡ some r
      → let (res, w') = reconcile now session live w in
        (found : List String) × (res ≡ ok found)
        × (get_row id w'.db.table
            ≡ some (
                if str_eq r.session_id session && is_orphaned live r
                then set_status queued now r
                else r))
  unfolding reconcile with_conn
  reconcile_lem now id session live w r f k h =
      let rows = rows_for_session session w.db.table in
      let w0 : World J = record w { db = record { table = w.db.table; faults = [] } } in
      let (found, done, last) = rows_lem now id session live rows [] w0 r refl h in
      (found, rw f done, rw f (last ∙ ap some hit))
    where
      picked :
          any (picks id live) (rows_for_session session w.db.table)
          ≡ str_eq r.session_id session && is_orphaned live r
      picked =
          any-rows_for_session (picks id live) session w.db.table
          ∙ ap (λ p. any p w.db.table) (fun_ext (λ x. ground arith))
          ∙ any_keyed (λ x. str_eq x.session_id session && is_orphaned live x) id w.db.table r k h

      hit : Requeued now (any (picks id live) (rows_for_session session w.db.table)) r ≡ (
          if str_eq r.session_id session && is_orphaned live r then set_status queued now r else r)
      hit = ap (λ b. Requeued now b r) picked ∙ ground arith
