-- ===== src/Injection/Handlers.antt =====
-- src-tauri/src/coordination/injection.rs: the handlers of the injection manager.
use hive_manager.Base.{
  Bool, not, ◌&&◌, Option, none, some, List, [], ◌∷◌, ◌++◌, Text, codes, if◌then◌else◌,
}
use hive_manager.Injection.{
  task, progress, peer_feedback, milestone_ready, qa_verdict, system, CoordinationMessage,
  InjectionError, not_authorized, pty_error, storage_error, PeerMessage, milestone_ready_file,
  qa_verdict_file, evaluator_feedback_file, Effect, logged, delivered, Outcomes, Outcome, message,
  is_qa_worker_id, is_queen_worker_id, is_queen_id, is_evaluator_id, format_agent_display,
  with_enter, attempt, show, send,
}

abbrev pub queen_message : Text → Text → Text → CoordinationMessage
unfolding format_agent_display
queen_message queen_id target content =
    message (format_agent_display queen_id) (format_agent_display target) content
      (if is_evaluator_id target then milestone_ready else task)

abbrev pub queen_peer : Text → Text → Text → Option PeerMessage
queen_peer queen_id target content =
    if is_evaluator_id target then some (milestone_ready_file queen_id target content) else none

unfoldable pub queen_inject : Outcomes → Text → Text → Text → Text → List Effect → Outcome
unfolding send queen_message
queen_inject o session_id queen_id target content w =
    if not (is_queen_id queen_id)
    then (some not_authorized, w)
    else if is_qa_worker_id target
    then (some not_authorized, w)
    else send o session_id target content (queen_message queen_id target content)
        (queen_peer queen_id target content) w

abbrev pub evaluator_message : Text → Text → Text → CoordinationMessage
unfolding format_agent_display
evaluator_message evaluator_id target content =
    message (format_agent_display evaluator_id) (format_agent_display target) content
      (if is_queen_id target then qa_verdict else peer_feedback)

abbrev pub evaluator_peer : Text → Text → Text → Option PeerMessage
evaluator_peer evaluator_id target content =
    if is_queen_id target
    then some (qa_verdict_file evaluator_id target content)
    else some (evaluator_feedback_file evaluator_id target content)

unfoldable pub evaluator_inject : Outcomes → Text → Text → Text → Text → List Effect → Outcome
unfolding send evaluator_message
evaluator_inject o session_id evaluator_id target content w =
    if not (is_evaluator_id evaluator_id)
    then (some not_authorized, w)
    else if is_queen_worker_id target
    then (some not_authorized, w)
    else if not (is_queen_id target) && not (is_qa_worker_id target)
    then (some not_authorized, w)
    else send o session_id target content (evaluator_message evaluator_id target content)
        (evaluator_peer evaluator_id target content) w

abbrev pub system_message : Text → Text → CoordinationMessage
system_message to content = message (codes "SYSTEM") to content system

-- A message for the log and the window only.
unfoldable pub log_only : Outcomes → Text → CoordinationMessage → List Effect → Outcome
log_only o session_id m w = attempt o.log_ok storage_error (logged session_id m) (show o m) w

unfoldable pub log_system_message : Outcomes → Text → Text → Text → List Effect → Outcome
unfolding log_only
log_system_message o session_id target content w =
    log_only o session_id (system_message target content) w

unfoldable pub log_progress : Outcomes → Text → Text → Text → List Effect → Outcome
unfolding log_only format_agent_display
log_progress o session_id from_agent content w =
    log_only o session_id (message (format_agent_display from_agent) (codes "LOG") content progress)
      w

unfoldable pub notify_queen_worker_status :
    Outcomes → Text → Text → Text → Text → List Effect → Outcome
unfolding log_only format_agent_display
notify_queen_worker_status o session_id queen_id worker_id status w =
    log_only o session_id
      (system_message (format_agent_display queen_id) (
        codes "[SYSTEM] Worker "
        ++ (format_agent_display worker_id ++ (codes " status changed: " ++ status))))
      w

unfoldable pub operator_inject : Outcomes → Text → Text → Text → List Effect → Outcome
unfolding send format_agent_display
operator_inject o session_id target content w =
    send o session_id target content
      (system_message (format_agent_display target) (codes "[OPERATOR] " ++ content)) none w

-- The Queen's message to each worker, until one fails.
abbrev pub and_next : Outcome → (List Effect → Outcome) → Outcome
and_next (some e, w) continue = (some e, w)
and_next (none, w) continue = continue w

unfoldable pub broadcast_to_workers :
    (Text → Outcomes) → Text → Text → List Text → Text → List Effect → Outcome
unfolding queen_inject
broadcast_to_workers o session_id queen_id [] content w = (none, w)
broadcast_to_workers o session_id queen_id (worker_id ∷ rest) content w =
    and_next (queen_inject (o worker_id) session_id queen_id worker_id content w)
      (broadcast_to_workers o session_id queen_id rest content)

-- A branch switch: every worker is written to, whether the ones before it failed or not. The log
-- of a worker's outcome is not checked.
unfoldable pub write_to_agent : Bool → Text → Text → List Effect → Outcome
unfolding with_enter
write_to_agent pty_ok agent_id content w =
    if pty_ok
    then (none, w ++ delivered agent_id (with_enter content) ∷ [])
    else (some pty_error, w)

abbrev pub status_text : Option InjectionError → Text
status_text none = codes "initiated"
status_text (some _) = codes "failed"

abbrev pub switch_log : Text → Text → Option InjectionError → Text
unfolding format_agent_display
switch_log worker_id branch result =
    codes "[BRANCH SWITCH] Worker "
    ++ (format_agent_display worker_id
        ++ (codes " switch to '" ++ (branch ++ (codes "': " ++ status_text result))))

abbrev pub onto_results :
    Text
    → Option InjectionError
    → List (Text × Option InjectionError) × List Effect
    → List (Text × Option InjectionError) × List Effect
onto_results worker_id result (results, w) = ((worker_id, result) ∷ results, w)

unfoldable pub switch_all :
    (Text → Outcomes)
    → Text
    → List Text
    → Text
    → List Effect
    → List (Text × Option InjectionError) × List Effect
unfolding write_to_agent log_system_message format_agent_display switch_log
switch_all o session_id [] branch w = ([], w)
switch_all o session_id (worker_id ∷ rest) branch w =
    let written =
      write_to_agent (o worker_id).pty_ok worker_id (3 ∷ codes "git switch " ++ branch) w in
    let noted =
      log_system_message (o worker_id) session_id (format_agent_display worker_id)
        (switch_log worker_id branch written.0) written.1 in
    onto_results worker_id written.0 (switch_all o session_id rest branch noted.1)

abbrev pub switch_if_logged :
    Outcome
    → (List Effect → List (Text × Option InjectionError) × List Effect)
    → (Option (List (Text × Option InjectionError))) × List Effect
switch_if_logged (some e, w) continue = (none, w)
switch_if_logged (none, w) continue = let (results, v) = continue w in (some results, v)

-- The results, or none when it was refused or not logged.
unfoldable pub queen_switch_branch :
    Outcomes
    → (Text → Outcomes)
    → Text
    → Text
    → List Text
    → Text
    → List Effect
    → (Option (List (Text × Option InjectionError))) × List Effect
unfolding log_system_message switch_all
queen_switch_branch first o session_id queen_id worker_ids branch w =
    if not (is_queen_id queen_id)
    then (none, w)
    else switch_if_logged
        (log_system_message first session_id (codes "ALL")
          (codes "[BRANCH SWITCH] Switching all workers to branch: " ++ branch) w)
        (switch_all o session_id worker_ids branch)
