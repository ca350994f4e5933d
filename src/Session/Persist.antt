-- ===== src/Session/Persist.antt =====
-- src-tauri/src/session/controller.rs: how session states and agent roles are stored as texts, and
-- how they are read back. `parse::<u8>` takes an optional plus sign and decimal digits below 256.
pub mod States
pub mod Roles
use hive_manager.Base.{
  parse_below, split_at, starts_with, strip_prefix, trim_start_matches, ℕ, zero, suc, ◌==◌, ltb,
  Bool, true, false, not, ◌&&◌, Option, none, some, List, [], ◌∷◌, ◌++◌, Text, codes, text_eq,
  decimal, value_from, is_digit, all, is_nil, length, trim_end, trim_by, is_whitespace,
  if◌then◌else◌,
}
use hive_manager.Session.{
  SessionState, planning, plan_ready, starting, spawning_worker, waiting_for_worker,
  spawning_planner, waiting_for_planner, spawning_fusion_variant, waiting_for_fusion_variants,
  spawning_debate_round, waiting_for_debate_round, spawning_judge, judging,
  awaiting_verdict_selection, merging_winner, spawning_evaluator, qa_passed,
  qa_max_retries_exceeded, prince_remediation, qa_inconclusive, running, paused, completed, closing,
  closed, failed, qa_in_progress, qa_failed, AgentRole, master_planner, queen, planner, worker,
  fusion_agent, judge, evaluator, qa_worker, prince, scratch_shell,
}

abbrev pub parse_u8 : Text → Option ℕ
parse_u8 t = parse_below 256 t

abbrev pub positive : Option ℕ → Option ℕ
positive none = none
positive (some n) = if ltb 0 n then some n else none

abbrev pub unwrap_or_one : Option ℕ → ℕ
unwrap_or_one none = 1
unwrap_or_one (some n) = n

-- The `match` on the whole text.
abbrev pub state_of_name : Text → SessionState
state_of_name state =
    if text_eq state (codes "Planning")
    then planning
    else if text_eq state (codes "PlanReady")
    then plan_ready
    else if text_eq state (codes "Starting")
    then starting
    else if text_eq state (codes "SpawningWorker")
    then spawning_worker 0
    else if text_eq state (codes "WaitingForWorker")
    then waiting_for_worker 0
    else if text_eq state (codes "SpawningPlanner")
    then spawning_planner 0
    else if text_eq state (codes "WaitingForPlanner")
    then waiting_for_planner 0
    else if text_eq state (codes "SpawningFusionVariant")
    then spawning_fusion_variant 0
    else if text_eq state (codes "WaitingForFusionVariants")
    then waiting_for_fusion_variants
    else if text_eq state (codes "SpawningDebateRound")
    then spawning_debate_round 0
    else if text_eq state (codes "WaitingForDebateRound")
    then waiting_for_debate_round 0
    else if text_eq state (codes "SpawningJudge")
    then spawning_judge
    else if text_eq state (codes "Judging")
    then judging
    else if text_eq state (codes "AwaitingVerdictSelection")
    then awaiting_verdict_selection
    else if text_eq state (codes "MergingWinner")
    then merging_winner
    else if text_eq state (codes "SpawningEvaluator")
    then spawning_evaluator
    else if text_eq state (codes "QaInProgress")
    then qa_in_progress none
    else if text_eq state (codes "QaPassed")
    then qa_passed
    else if text_eq state (codes "QaFailed")
    then qa_failed 1
    else if text_eq state (codes "QaMaxRetriesExceeded")
    then qa_max_retries_exceeded
    else if text_eq state (codes "PrinceRemediation")
    then prince_remediation
    else if text_eq state (codes "QaInconclusive")
    then qa_inconclusive
    else if text_eq state (codes "Running")
    then running
    else if text_eq state (codes "Paused")
    then paused
    else if text_eq state (codes "Closing")
    then closing
    else if text_eq state (codes "Closed")
    then closed
    else if text_eq state (codes "Failed")
    then failed (codes "persisted")
    else completed

unfoldable pub parse_persisted_session_state : Text → SessionState
parse_persisted_session_state state = elim (strip_prefix (codes "QaInProgress:") state) [
  | some iteration ↦ qa_in_progress (positive (parse_u8 iteration))
  | none ↦ elim (strip_prefix (codes "QaFailed:") state) [
    | some iteration ↦ qa_failed (unwrap_or_one (positive (parse_u8 iteration)))
    | none ↦ state_of_name state
  ]
]

unfoldable pub serialize_session_state : SessionState → Text
unfolding decimal
serialize_session_state planning = codes "Planning"
serialize_session_state plan_ready = codes "PlanReady"
serialize_session_state starting = codes "Starting"
serialize_session_state (spawning_worker _) = codes "SpawningWorker"
serialize_session_state (waiting_for_worker _) = codes "WaitingForWorker"
serialize_session_state (spawning_planner _) = codes "SpawningPlanner"
serialize_session_state (waiting_for_planner _) = codes "WaitingForPlanner"
serialize_session_state (spawning_fusion_variant _) = codes "SpawningFusionVariant"
serialize_session_state waiting_for_fusion_variants = codes "WaitingForFusionVariants"
serialize_session_state (spawning_debate_round _) = codes "SpawningDebateRound"
serialize_session_state (waiting_for_debate_round _) = codes "WaitingForDebateRound"
serialize_session_state spawning_judge = codes "SpawningJudge"
serialize_session_state judging = codes "Judging"
serialize_session_state awaiting_verdict_selection = codes "AwaitingVerdictSelection"
serialize_session_state merging_winner = codes "MergingWinner"
serialize_session_state spawning_evaluator = codes "SpawningEvaluator"
serialize_session_state qa_passed = codes "QaPassed"
serialize_session_state qa_max_retries_exceeded = codes "QaMaxRetriesExceeded"
serialize_session_state prince_remediation = codes "PrinceRemediation"
serialize_session_state qa_inconclusive = codes "QaInconclusive"
serialize_session_state running = codes "Running"
serialize_session_state paused = codes "Paused"
serialize_session_state completed = codes "Completed"
serialize_session_state closing = codes "Closing"
serialize_session_state closed = codes "Closed"
serialize_session_state (failed _) = codes "Failed"
serialize_session_state (qa_in_progress none) = codes "QaInProgress"
serialize_session_state (qa_in_progress (some iteration)) =
    if ltb 0 iteration then codes "QaInProgress:" ++ decimal iteration else codes "QaInProgress"
serialize_session_state (qa_failed iteration) = codes "QaFailed:" ++ decimal iteration

abbrev pub or_none : Option Text → Text
or_none none = codes "None"
or_none (some parent) = parent

-- `format!("{}({},{})", …)`.
abbrev pub indexed : Text → ℕ → Option Text → Text
unfolding decimal
indexed prefix index parent = prefix ++ (decimal index ++ b',' ∷ (or_none parent ++ b')' ∷ []))

unfoldable pub serialize_persisted_agent_role : AgentRole → Text
unfolding decimal indexed
serialize_persisted_agent_role master_planner = codes "MasterPlanner"
serialize_persisted_agent_role queen = codes "Queen"
serialize_persisted_agent_role (planner index) = codes "Planner(" ++ (decimal index ++ b')' ∷ [])
serialize_persisted_agent_role (worker index parent) = indexed (codes "Worker(") index parent
serialize_persisted_agent_role (fusion_agent variant) = codes "Fusion(" ++ (variant ++ b')' ∷ [])
serialize_persisted_agent_role (judge session_id) = codes "Judge(" ++ (session_id ++ b')' ∷ [])
serialize_persisted_agent_role evaluator = codes "Evaluator"
serialize_persisted_agent_role (qa_worker index parent) = indexed (codes "QaWorker(") index parent
serialize_persisted_agent_role prince = codes "Prince"
serialize_persisted_agent_role scratch_shell = codes "ScratchShell"

-- `trim_start_matches(prefix).trim_end_matches(")")`.
abbrev pub inner : Text → Text → Text
inner prefix role = trim_end (λ c. c == b')') (trim_start_matches prefix role)

abbrev pub parent_of : List Text → Option Text
parent_of [] = none
parent_of (s ∷ _) =
    let trimmed = trim_by is_whitespace s in
    if text_eq trimmed (codes "None") then none else some trimmed

abbrev pub indexed_parts : List Text → Option (ℕ × Option Text)
indexed_parts [] = none
indexed_parts (first ∷ parts) = elim (parse_u8 first) [
  | none ↦ none
  | some index ↦ some (index, parent_of parts)
]

unfoldable pub parse_indexed_role : Text → Text → Option (ℕ × Option Text)
parse_indexed_role role prefix = indexed_parts (split_at b',' (inner prefix role))

abbrev pub as_role : (ℕ → Option Text → AgentRole) → Option (ℕ × Option Text) → Option AgentRole
as_role make none = none
as_role make (some (index, parent)) = some (make index parent)

abbrev pub as_planner : Option ℕ → Option AgentRole
as_planner none = none
as_planner (some index) = some (planner index)

unfoldable pub parse_agent_role : Text → Option AgentRole
unfolding parse_indexed_role
parse_agent_role role =
    if text_eq role (codes "MasterPlanner")
    then some master_planner
    else if text_eq role (codes "Queen")
    then some queen
    else if text_eq role (codes "Evaluator")
    then some evaluator
    else if text_eq role (codes "Prince")
    then some prince
    else if starts_with (codes "Planner(") role
    then as_planner (parse_u8 (inner (codes "Planner(") role))
    else if starts_with (codes "Worker(") role
    then as_role worker (parse_indexed_role role (codes "Worker("))
    else if starts_with (codes "QaWorker(") role
    then as_role qa_worker (parse_indexed_role role (codes "QaWorker("))
    else if starts_with (codes "Fusion(") role
    then some (fusion_agent (inner (codes "Fusion(") role))
    else if starts_with (codes "Judge(") role
    then some (judge (inner (codes "Judge(") role))
    else none
