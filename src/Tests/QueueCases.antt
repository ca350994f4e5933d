-- ===== src/Tests/QueueCases.antt =====
-- The run queue on a table of two runs.
use hive_manager.Base.{ℕ, ◌≡◌, refl, Option, none, some, List, [], ◌∷◌, String, All, arith}
use hive_manager.Queue.{QueueStatus, queued, running, finalized, QueueRow, Table, get_row}
use hive_manager.Queue.Rows.{IsKeyed}
use hive_manager.Queue.Claim.{Attempt, wins, wins-one}
use hive_manager.Queue.Steps.{
  Op, enqueues, claims, heartbeats, reclaims, finalizes, requeues, run, run-terminal,
}
use hive_manager.Queue.Invariant.{RowInv, run-RowInv}

abbrev pub row : String → String → QueueStatus → Option ℕ → QueueRow ℕ
row id worker status beat = record {
  id = id;
  task_id = none;
  session_id = "s1";
  worker_id = worker;
  role_type = "backend";
  cli = "codex";
  status = status;
  payload = 0;
  attempts = 0;
  continuation_count = 0;
  no_progress_count = 0;
  last_status = none;
  heartbeat_at = beat;
  created_at = 1000;
  updated_at = 1000;
}

abbrev pub table : Table ℕ
table =
    row "r1" "w1" queued none
    ∷ row "r2" "w2" running (some 5000)
    ∷ row "r3" "w3" finalized none
    ∷ []

pub table-IsKeyed : IsKeyed table
table-IsKeyed = (refl, (refl, (refl, tt)))

abbrev first_attempt : Attempt
first_attempt = record { cutoff = 100; now = 9000 }

abbrev second_attempt : Attempt
second_attempt = record { cutoff = 200; now = 8990 }

wins-one_example : wins "r1" (first_attempt ∷ second_attempt ∷ first_attempt ∷ []) table ≡ 1
unfolding get_row
wins-one_example =
    wins-one "r1" 8000 first_attempt (second_attempt ∷ first_attempt ∷ []) table
      (row "r1" "w1" queued none) table-IsKeyed refl refl (omega arith)

abbrev history : List (Op ℕ)
history =
    enqueues (row "r3" "w9" queued none)
    ∷ claims "r3" 9000 9000
    ∷ heartbeats "s1" "w3" "working" 9001
    ∷ reclaims 9000 9002
    ∷ finalizes 0 0 9003
    ∷ requeues "r3" 9004
    ∷ []

run-terminal_example : get_row "r3" (run history table) ≡ some (row "r3" "w3" finalized none)
unfolding get_row
run-terminal_example = run-terminal history "r3" table (row "r3" "w3" finalized none) refl refl

run-RowInv_example :
    All RowInv (run (enqueues (row "r1" "w1" queued none) ∷ claims "r1" 0 9 ∷ []) [])
run-RowInv_example =
    run-RowInv (enqueues (row "r1" "w1" queued none) ∷ claims "r1" 0 9 ∷ []) []
      (
        record {
          waits = refl;
          no_attempts = refl;
          no_continuations = refl;
          no_beats = refl;
          no_status = refl;
        },
        (tt, tt),
      )
      tt
