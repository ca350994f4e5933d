-- ===== src/Session/Persist/States.antt =====
-- A stored session state is read back, up to what the text does not hold.
use hive_manager.Base.{
  parse_below-decimal, ℕ, ◌≡◌, ◌<◌, refl, none, some, codes, decimal, ltb, if◌then◌else◌,
  Bool-cases, inl, inr,
}
use hive_manager.Session.{
  SessionState, planning, plan_ready, starting, spawning_worker, waiting_for_worker,
  spawning_planner, waiting_for_planner, spawning_fusion_variant, waiting_for_fusion_variants,
  spawning_debate_round, waiting_for_debate_round, spawning_judge, judging,
  awaiting_verdict_selection, merging_winner, spawning_evaluator, qa_passed,
  qa_max_retries_exceeded, prince_remediation, qa_inconclusive, running, paused, completed, closing,
  closed, failed, qa_in_progress, qa_failed,
}
use hive_manager.Session.Persist.{parse_u8, parse_persisted_session_state, serialize_session_state}

-- Reading a printed byte gives it back.
pub parse_u8-decimal : (n : ℕ) → n < 256 → parse_u8 (decimal n) ≡ some n
parse_u8-decimal n h = parse_below-decimal 256 n h

-- The iteration counters of a state are bytes.
abbrev pub HasByteCounters : SessionState → Type 0
HasByteCounters (qa_in_progress (some n)) = n < 256
HasByteCounters (qa_failed n) = n < 256
HasByteCounters _ = Unit

-- What is left of a state that has been stored: the index of a worker, planner, variant or round and
-- the reason of a failure are lost, and a counter that is zero is none (in progress) or one (failed).
abbrev pub stored : SessionState → SessionState
stored planning = planning
stored plan_ready = plan_ready
stored starting = starting
stored (spawning_worker _) = spawning_worker 0
stored (waiting_for_worker _) = waiting_for_worker 0
stored (spawning_planner _) = spawning_planner 0
stored (waiting_for_planner _) = waiting_for_planner 0
stored (spawning_fusion_variant _) = spawning_fusion_variant 0
stored waiting_for_fusion_variants = waiting_for_fusion_variants
stored (spawning_debate_round _) = spawning_debate_round 0
stored (waiting_for_debate_round _) = waiting_for_debate_round 0
stored spawning_judge = spawning_judge
stored judging = judging
stored awaiting_verdict_selection = awaiting_verdict_selection
stored merging_winner = merging_winner
stored spawning_evaluator = spawning_evaluator
stored qa_passed = qa_passed
stored qa_max_retries_exceeded = qa_max_retries_exceeded
stored prince_remediation = prince_remediation
stored qa_inconclusive = qa_inconclusive
stored running = running
stored paused = paused
stored completed = completed
stored closing = closing
stored closed = closed
stored (failed _) = failed (codes "persisted")
stored (qa_in_progress none) = qa_in_progress none
stored (qa_in_progress (some n)) = qa_in_progress (if ltb 0 n then some n else none)
stored (qa_failed n) = qa_failed (if ltb 0 n then n else 1)

-- A stored session state, its QA counter a byte, is read back as itself, except that the index of a
-- worker, planner, variant or round becomes zero, the reason of a failure becomes the word
-- persisted, and a QA counter of zero becomes none or one.
pub state_roundtrip :
    (state : SessionState)
    → HasByteCounters state
    → parse_persisted_session_state (serialize_session_state state) ≡ stored state
unfolding parse_persisted_session_state serialize_session_state
state_roundtrip planning h = refl
state_roundtrip plan_ready h = refl
state_roundtrip starting h = refl
state_roundtrip (spawning_worker _) h = refl
state_roundtrip (waiting_for_worker _) h = refl
state_roundtrip (spawning_planner _) h = refl
state_roundtrip (waiting_for_planner _) h = refl
state_roundtrip (spawning_fusion_variant _) h = refl
state_roundtrip waiting_for_fusion_variants h = refl
state_roundtrip (spawning_debate_round _) h = refl
state_roundtrip (waiting_for_debate_round _) h = refl
state_roundtrip spawning_judge h = refl
state_roundtrip judging h = refl
state_roundtrip awaiting_verdict_selection h = refl
state_roundtrip merging_winner h = refl
state_roundtrip spawning_evaluator h = refl
state_roundtrip qa_passed h = refl
state_roundtrip qa_max_retries_exceeded h = refl
state_roundtrip prince_remediation h = refl
state_roundtrip qa_inconclusive h = refl
state_roundtrip running h = refl
state_roundtrip paused h = refl
state_roundtrip completed h = refl
state_roundtrip closing h = refl
state_roundtrip closed h = refl
state_roundtrip (failed _) h = refl
state_roundtrip (qa_in_progress none) h = refl
state_roundtrip (qa_in_progress (some n)) h = elim (Bool-cases (ltb 0 n)) [
  | inl up ↦ rw (up, parse_u8-decimal n h, up) refl
  | inr down ↦ rw down refl
]
state_roundtrip (qa_failed n) h = elim (Bool-cases (ltb 0 n)) [
  | inl up ↦ rw (parse_u8-decimal n h, up) refl
  | inr down ↦ rw (parse_u8-decimal n h, down) refl
]
