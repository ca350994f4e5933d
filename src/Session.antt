-- ===== src/Session.antt =====
-- src-tauri/src/session/controller.rs, src-tauri/src/pty/session.rs and src-tauri/src/domain/cell.rs:
-- the session, its states and its agents. A byte is a natural number. The texts of a role are their
-- code points. A record has the fields that the modelled functions read or write.
pub mod Cells
pub mod Persist
use hive_manager.Base.{ℕ, Bool, true, false, ◌+◌, min, Option, none, some, List, String, Text}

pub data SessionState : Type 0 where
  planning plan_ready starting : SessionState
  spawning_worker waiting_for_worker spawning_planner waiting_for_planner : ℕ → SessionState
  spawning_fusion_variant : ℕ → SessionState
  waiting_for_fusion_variants : SessionState
  spawning_debate_round waiting_for_debate_round : ℕ → SessionState
  spawning_judge judging awaiting_verdict_selection merging_winner : SessionState
  spawning_evaluator : SessionState
  qa_in_progress : Option ℕ → SessionState
  qa_passed : SessionState
  qa_failed : ℕ → SessionState
  qa_max_retries_exceeded prince_remediation qa_inconclusive : SessionState
  running paused completed closing closed : SessionState
  failed : Text → SessionState

unfoldable pub is_monitorable : SessionState → Bool
is_monitorable running = true
is_monitorable (waiting_for_worker _) = true
is_monitorable (waiting_for_planner _) = true
is_monitorable spawning_evaluator = true
is_monitorable (qa_in_progress _) = true
is_monitorable qa_passed = true
is_monitorable (qa_failed _) = true
is_monitorable prince_remediation = true
is_monitorable qa_inconclusive = true
is_monitorable _ = false

unfoldable pub is_terminal_session_state : SessionState → Bool
is_terminal_session_state qa_max_retries_exceeded = true
is_terminal_session_state completed = true
is_terminal_session_state closed = true
is_terminal_session_state (failed _) = true
is_terminal_session_state _ = false

unfoldable pub qa_in_progress_state : SessionState → SessionState
qa_in_progress_state (qa_failed iteration) = qa_in_progress (some iteration)
qa_in_progress_state (qa_in_progress iteration) = qa_in_progress iteration
qa_in_progress_state _ = qa_in_progress none

-- `u8::saturating_add(1)`.
abbrev pub saturating_inc : ℕ → ℕ
saturating_inc n = min 255 (n + 1)

abbrev pub unwrap_or_zero : Option ℕ → ℕ
unwrap_or_zero none = 0
unwrap_or_zero (some n) = n

unfoldable pub next_qa_failure_iteration : SessionState → ℕ
next_qa_failure_iteration (qa_failed iteration) = saturating_inc iteration
next_qa_failure_iteration (qa_in_progress iteration) = saturating_inc (unwrap_or_zero iteration)
next_qa_failure_iteration _ = 1

pub data SessionType : Type 0 where
  hive swarm : ℕ → SessionType
  fusion debate : List Text → SessionType
  solo : String → Option String → SessionType

pub data AgentRole : Type 0 where
  master_planner queen : AgentRole
  planner : ℕ → AgentRole
  worker : ℕ → Option Text → AgentRole
  fusion_agent : Text → AgentRole
  judge : Text → AgentRole
  evaluator : AgentRole
  qa_worker : ℕ → Option Text → AgentRole
  prince scratch_shell : AgentRole

pub data AgentStatus : Type 0 where
  agent_starting agent_running agent_idle : AgentStatus
  waiting_for_input : String → AgentStatus
  agent_completed : AgentStatus
  agent_error : String → AgentStatus

pub record AgentInfo : Type 0 where
  pub id : String
  pub role : AgentRole
  pub status : AgentStatus
  pub commit_sha : Option String

pub data AuthStrategy : Type 0 where
  no_auth : AuthStrategy
  dev_bypass : String → AuthStrategy

pub record Session : Type 0 where
  pub id : String
  pub session_type : SessionType
  pub state : SessionState
  pub last_activity_at : ℕ
  pub agents : List AgentInfo
  pub max_qa_iterations : ℕ
  pub qa_timeout_secs : ℕ
  pub auth_strategy : AuthStrategy

pub data CellStatus : Type 0 where
  cell_queued cell_preparing cell_launching cell_running cell_summarizing cell_completed :
      CellStatus
  cell_waiting_input cell_failed cell_killed : CellStatus
