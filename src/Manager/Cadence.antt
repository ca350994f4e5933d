-- ===== src/Manager/Cadence.antt =====
-- The instructed cadence against the reclaim cutoff and the no-progress budget.
use hive_manager.Base.{
  ℕ, ◌+◌, ◌-◌, ◌*◌, ◌≤◌, ◌<◌, ◌≡◌, refl, ◌∙◌, ◌⊎◌, true, false, some, List, [], ◌∷◌, String, str_eq,
  if◌then◌else◌, length, inl, inr, arith,
}
use hive_manager.Database.{with_conn, fault_cases}
use hive_manager.Events.{EventType, Severity}
use hive_manager.Queue.{
  QueueRow, Table, queued, is_open, is_repeat, is_stuck, is_exhausted, get_row, set_status,
}
use hive_manager.Queue.Steps.{step, run, get_row-step, reclaims, finalizes}
use hive_manager.Queue.Beats.{streak, streak_lem}
use hive_manager.Manager.{
  World, heartbeat_safety_factor, stuck_cutoff_secs, stuck_cutoff_ms,
  derived_heartbeat_max_interval_secs, derived_heartbeat_min_interval_secs,
  max_no_progress_continuations, max_continuations, no_progress_window_secs, emit, emit_for_row,
  emit_each, reclaim_stuck, finalize_no_progress,
}

-- The instructed cadence leaves its safety factor of beats strictly inside the cutoff.
pub cadence_strict :
    derived_heartbeat_max_interval_secs * heartbeat_safety_factor < stuck_cutoff_secs
unfolding derived_heartbeat_max_interval_secs
cadence_strict = omega arith

-- The least number of beats that exhausts the budget takes at least the whole window.
pub budget_covers :
    no_progress_window_secs ≤ max_no_progress_continuations * derived_heartbeat_min_interval_secs
unfolding max_no_progress_continuations
budget_covers = omega arith

min_interval : derived_heartbeat_min_interval_secs ≡ 20
unfolding derived_heartbeat_min_interval_secs
min_interval = refl

max_interval : derived_heartbeat_max_interval_secs ≡ 40
unfolding derived_heartbeat_max_interval_secs
max_interval = refl

budget : max_no_progress_continuations ≡ 90
unfolding max_no_progress_continuations
budget = refl

-- The times of beats that keep at least the shortest instructed interval, from `start` on.
abbrev pub Spaced : ℕ → List ℕ → Type 0
Spaced start [] = Unit {0}
Spaced start (now ∷ times) =
    (start + derived_heartbeat_min_interval_secs * 1000 ≤ now) × Spaced now times

abbrev pub last_beat : ℕ → List ℕ → ℕ
last_beat start [] = start
last_beat start (now ∷ times) = last_beat now times

spaced_lem :
    (start : ℕ) (times : List ℕ)
    → Spaced start times
    → start + length times * (derived_heartbeat_min_interval_secs * 1000) ≤ last_beat start times
spaced_lem start [] s = omega arith
spaced_lem start (now ∷ times) s = grind (arith, spaced_lem now times s.1, s.0)

module _ {J : Type 0} where
  published-table :
      (w : World J) (session worker : String) (ty : EventType) (sev : Severity)
      → (emit session worker ty sev w).db.table ≡ w.db.table
  unfolding emit
  published-table w session worker ty sev = ground arith

  emit_for_row-table :
      (id : String) (ty : EventType) (sev : Severity) (w : World J)
      → (emit_for_row id ty sev w).db.table ≡ w.db.table
  unfolding emit_for_row with_conn
  emit_for_row-table id ty sev w = ground arith

  pub emit_each-table :
      (ids : List String) (ty : EventType) (sev : Severity) (w : World J)
      → (emit_each ids ty sev w).db.table ≡ w.db.table
  unfolding emit_each
  emit_each-table [] ty sev w = refl
  emit_each-table (id ∷ rest) ty sev w =
      emit_each-table rest ty sev (emit_for_row id ty sev w) ∙ emit_for_row-table id ty sev w

  -- A pass takes its statement's effect on the table, or none when the statement fails.
  reclaim_stuck-table :
      (now : ℕ) (w : World J)
      → ((reclaim_stuck now w).1.db.table ≡ step (reclaims (now - stuck_cutoff_ms) now) w.db.table)
        ⊎ ((reclaim_stuck now w).1.db.table ≡ w.db.table)
  unfolding reclaim_stuck with_conn step
  reclaim_stuck-table now w = elim (fault_cases w.db.faults) [
    | inl (x, rest, e) ↦ inr (ground arith)
    | inr (inl e) ↦ inl (rw e (search emit_each-table))
    | inr (inr (rest, e)) ↦ inl (rw e (search emit_each-table))
  ]

  finalize_no_progress-table :
      (now : ℕ) (w : World J)
      → ((finalize_no_progress now w).1.db.table
          ≡ step (finalizes max_continuations max_no_progress_continuations now) w.db.table)
        ⊎ ((finalize_no_progress now w).1.db.table ≡ w.db.table)
  unfolding finalize_no_progress with_conn step
  finalize_no_progress-table now w = elim (fault_cases w.db.faults) [
    | inl (x, rest, e) ↦ inr (ground arith)
    | inr (inl e) ↦ inl (rw e (search emit_each-table))
    | inr (inr (rest, e)) ↦ inl (rw e (search emit_each-table))
  ]

  -- A row that the statement would leave alone is the same after the pass.
  passed :
      (id : String) (t t' s : Table J) (r : QueueRow J)
      → (t' ≡ s) ⊎ (t' ≡ t)
      → get_row id s ≡ some r
      → get_row id t ≡ some r
      → get_row id t' ≡ some r
  passed id t t' s r (inl e) h k = rw e h
  passed id t t' s r (inr e) h k = rw e k

  -- A worker that has beaten within the last two instructed intervals is safe: however one beat is
  -- missed or late, the reclaiming pass at `now` leaves its running row exactly as it was, whether
  -- or not the database fails.
  pub steady-reclaim :
      (id : String) (beat now : ℕ) (w : World J) (r : QueueRow J)
      → get_row id w.db.table ≡ some r
      → r.heartbeat_at ≡ some beat
      → now ≤ beat + heartbeat_safety_factor * derived_heartbeat_max_interval_secs * 1000
      → get_row id (reclaim_stuck now w).1.db.table ≡ some r
  steady-reclaim id beat now w r h b near =
      passed id w.db.table (reclaim_stuck now w).1.db.table
        (step (reclaims (now - stuck_cutoff_ms) now) w.db.table) r (reclaim_stuck-table now w)
        (get_row-step (reclaims (now - stuck_cutoff_ms) now) id w.db.table r h ∙ kept) h
    where
      kept :
          some (if is_stuck (now - stuck_cutoff_ms) r then set_status queued now r else r) ≡ some r
      kept = ground (arith, cadence_strict)

  -- A healthy worker that holds one status through beats no denser than the shortest instructed
  -- interval is not finalized for lack of progress before the window of 1,800 seconds is over,
  -- counted from the first beat with that status to the last one, so long as its continuations
  -- stay below their budget.
  pub streak-finalize :
      (id status : String) (start now : ℕ) (times : List ℕ) (w : World J) (r : QueueRow J)
      → get_row id w.db.table ≡ some r
      → is_open r.status ≡ true
      → str_eq status "completed" ≡ false
      → is_repeat r.last_status status ≡ false
      → r.continuation_count + 1 < max_continuations
      → Spaced start times
      → last_beat start times < start + no_progress_window_secs * 1000
      → let beaten = record w {
        db = record {
          table = run (streak r status (start ∷ times)) w.db.table;
          faults = w.db.faults;
        };
      } in
        (r' : QueueRow J) × (r'.status ≡ r.status)
        × (get_row id (finalize_no_progress now beaten).1.db.table ≡ some r')
  streak-finalize id status start now times w r h o c fresh few spaced soon =
      let beaten = record w {
        db = record {
          table = run (streak r status (start ∷ times)) w.db.table;
          faults = w.db.faults;
        };
      } in
      let (r', found, misses, continuations, last, kept) =
        streak_lem id status start times w.db.table r h o c fresh in
      let alive : is_exhausted max_continuations max_no_progress_continuations r' ≡ false =
        ground (arith, spaced_lem start times spaced, min_interval, budget) in
      (
        r',
        kept,
        passed id beaten.db.table (finalize_no_progress now beaten).1.db.table
            (step (finalizes max_continuations max_no_progress_continuations now) beaten.db.table)
            r' (finalize_no_progress-table now beaten)
            (get_row-step (finalizes max_continuations max_no_progress_continuations now) id
                beaten.db.table r' found
              ∙ ground arith)
            found,
      )
