-- ===== src/Tests/ManagerCases.antt =====
-- The queue manager on the same table.
use hive_manager.Base.{ℕ, ◌≡◌, refl, true, false, none, some, [], ◌∷◌, arith}
use hive_manager.Database.{database, ok}
use hive_manager.Queue.{queued, running, QueueRow, get_row, claim_row}
use hive_manager.Queue.Beats.{streak}
use hive_manager.Queue.Steps.{run}
use hive_manager.Manager.{
  World, derived_heartbeat_max_interval_secs, derived_heartbeat_min_interval_secs, claim_and_spawn,
  reclaim_stuck, finalize_no_progress,
}
use hive_manager.Manager.Cadence.{steady-reclaim, streak-finalize}
use hive_manager.Manager.Claims.{claim_once}
use hive_manager.Tests.QueueCases.{row, table, table-IsKeyed}

abbrev world : World ℕ
world = record { db = record { table = table; faults = [] }; log = []; bus_faults = [] }

abbrev broken : World ℕ
broken = record {
  db = record { table = table; faults = some (database "locked") ∷ [] };
  log = [];
  bus_faults = [];
}

steady-reclaim_example :
    get_row "r2" (reclaim_stuck 84000 world).1.db.table ≡ some (row "r2" "w2" running (some 5000))
unfolding get_row derived_heartbeat_max_interval_secs
steady-reclaim_example =
    steady-reclaim "r2" 5000 84000 world (row "r2" "w2" running (some 5000)) refl refl (omega arith)

claim_once_example :
    let (first, w1) = claim_and_spawn 100000 "r1" "s1" "w1" world in
    let (second, w2) = claim_and_spawn 150000 "r1" "s1" "w9" w1 in
    (first ≡ ok true)
    × (second ≡ ok false)
    × (get_row "r1" w2.db.table ≡ some (claim_row 100000 (row "r1" "w1" queued none)))
unfolding get_row
claim_once_example =
    claim_once 100000 150000 "r1" "s1" "w1" "w9" world (row "r1" "w1" queued none) refl refl
      table-IsKeyed refl refl (omega arith)

abbrev indexing : World ℕ
indexing = record world {
  db = record {
    table =
        run (streak (row "r2" "w2" running (some 5000)) "indexing" (10000 ∷ 40000 ∷ 70000 ∷ []))
          table;
    faults = [];
  };
}

streak-finalize_example :
    (r' : QueueRow ℕ) × (r'.status ≡ running)
    × (get_row "r2" (finalize_no_progress 71000 indexing).1.db.table ≡ some r')
unfolding get_row derived_heartbeat_min_interval_secs
streak-finalize_example =
    streak-finalize "r2" "indexing" 10000 71000 (40000 ∷ 70000 ∷ []) world
      (row "r2" "w2" running (some 5000)) refl refl refl refl (omega arith) (omega arith)
      (omega arith)
