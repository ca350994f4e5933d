-- ===== src/Session/Cells.antt =====
-- src-tauri/src/session/cell_status.rs: which cells a session has, and which agents are in a cell. A
-- cell's id is a text. `HashSet` and `HashMap` are lists.
pub mod Aggregate
pub mod Members
pub mod Statuses
use hive_manager.Base.{
  is_ascii_alphanumeric, to_ascii_lowercase, ℕ, ◌+◌, ◌==◌, leb, Bool, true, false, not, ◌&&◌, ◌||◌,
  Option, none, some, List, [], ◌∷◌, ◌++◌, map, String, Text, str_eq, codes, text_eq, member,
  trim_by, is_whitespace, is_nil, any, all, if◌then◌else◌,
}
use hive_manager.Session.{
  SessionState, planning, plan_ready, starting, spawning_worker, waiting_for_worker,
  spawning_planner, waiting_for_planner, spawning_fusion_variant, waiting_for_fusion_variants,
  spawning_debate_round, waiting_for_debate_round, spawning_judge, judging,
  awaiting_verdict_selection, merging_winner, spawning_evaluator, qa_in_progress, qa_passed,
  qa_failed, qa_max_retries_exceeded, prince_remediation, qa_inconclusive, running, paused,
  completed, closing, closed, failed, SessionType, hive, swarm, fusion, debate, solo, AgentRole,
  fusion_agent, AgentStatus, agent_starting, agent_running, agent_idle, waiting_for_input,
  agent_completed, agent_error, AgentInfo, Session, CellStatus, cell_queued, cell_preparing,
  cell_launching, cell_running, cell_summarizing, cell_completed, cell_waiting_input, cell_failed,
  cell_killed,
}

abbrev pub primary_cell_id : Text
primary_cell_id = codes "primary"

abbrev pub resolver_cell_id : Text
resolver_cell_id = codes "resolver"

abbrev pub variant_cell_prefix : Text
variant_cell_prefix = codes "variant:"

abbrev pub dash_or_char : ℕ → ℕ
dash_or_char c = if is_ascii_alphanumeric c then c else b'-'

unfoldable pub variant_to_cell_id : Text → Text
variant_to_cell_id variant =
    let normalized = map dash_or_char (map to_ascii_lowercase (trim_by is_whitespace variant)) in
    let trimmed = trim_by (λ c. c == b'-') normalized in
    let slug = if is_nil trimmed then primary_cell_id else trimmed in variant_cell_prefix ++ slug

-- `filter(|cell_id| seen.insert(cell_id.clone()))`.
abbrev pub first_of_each : List Text → List Text → List Text
first_of_each seen [] = []
first_of_each seen (x ∷ xs) =
    if member x seen then first_of_each seen xs else x ∷ first_of_each (x ∷ seen) xs

-- The variants of a Fusion or Debate session.
abbrev pub variants_of : SessionType → Option (List Text)
variants_of (fusion variants) = some variants
variants_of (debate variants) = some variants
variants_of _ = none

abbrev pub cell_ids_of : Option (List Text) → List Text
cell_ids_of none = primary_cell_id ∷ []
cell_ids_of (some variants) =
    if is_nil variants
    then primary_cell_id ∷ []
    else first_of_each [] (map variant_to_cell_id variants) ++ resolver_cell_id ∷ []

unfoldable pub session_cell_ids : Session → List Text
session_cell_ids session = cell_ids_of (variants_of session.session_type)

abbrev pub is_fusion_agent : AgentRole → Bool
is_fusion_agent (fusion_agent _) = true
is_fusion_agent _ = false

-- `variant_cell_cache`: the ids that were already computed.
abbrev pub Cache : Type 0
Cache = Option (List (Text × Text))

abbrev pub cached : {A : Type 0} → Text → List (Text × A) → Option A
cached variant [] = none
cached variant ((v, id) ∷ rest) = if text_eq variant v then some id else cached variant rest

abbrev pub variant_matches : Text → Text → Cache → Bool × Cache
variant_matches cell_id variant none = (text_eq (variant_to_cell_id variant) cell_id, none)
variant_matches cell_id variant (some cache) = elim (cached variant cache) [
  | some id ↦ (text_eq id cell_id, some cache)
  | none ↦ (
    text_eq (variant_to_cell_id variant) cell_id,
    some ((variant, variant_to_cell_id variant) ∷ cache),
  )
]

abbrev pub role_matches : Text → AgentRole → Cache → Bool × Cache
role_matches cell_id (fusion_agent variant) cache = variant_matches cell_id variant cache
role_matches cell_id _ cache = (false, cache)

unfoldable pub fusion_agent_matches_cell : Text → AgentInfo → Cache → Bool × Cache
fusion_agent_matches_cell cell_id agent cache = role_matches cell_id agent.role cache

unfoldable pub in_cell : Option (List Text) → Text → AgentInfo → Cache → Bool × Cache
unfolding fusion_agent_matches_cell
in_cell none cell_id agent cache = (text_eq cell_id primary_cell_id, cache)
in_cell (some variants) cell_id agent cache =
    if text_eq cell_id resolver_cell_id
    then (not (is_fusion_agent agent.role), cache)
    else if not (text_eq cell_id primary_cell_id)
    then fusion_agent_matches_cell cell_id agent cache
    else if is_nil variants
    then (text_eq cell_id primary_cell_id, cache)
    else (false, cache)

unfoldable pub agent_in_cell_with_variant_cache : Session → Text → AgentInfo → Cache → Bool × Cache
agent_in_cell_with_variant_cache session cell_id agent cache =
    in_cell (variants_of session.session_type) cell_id agent cache

unfoldable pub agent_in_cell : Session → Text → AgentInfo → Bool
unfolding agent_in_cell_with_variant_cache
agent_in_cell session cell_id agent =
    (agent_in_cell_with_variant_cache session cell_id agent none).0
