-- ===== src/Injection.antt =====
-- src-tauri/src/coordination/injection.rs and the messages of src-tauri/src/coordination/mod.rs: who
-- may write to whose terminal, and what a message leaves behind. The outcomes of the log, the
-- terminal and the peer files are chosen by the environment; an id and a time are left out.
pub mod Handlers
pub mod Followed
pub mod Broadcast
use hive_manager.Base.{
  ℕ, ◌==◌, Bool, true, false, not, ◌&&◌, ◌||◌, Option, none, some, List, [], ◌∷◌, ◌++◌, Text, codes,
  trim_end, until, contains, ends_with_text, after_last_text, if◌then◌else◌,
}

pub data MessageType : Type 0 where
  task progress completion error system peer_feedback milestone_ready qa_verdict : MessageType

pub record CoordinationMessage : Type 0 where
  pub from : Text
  pub to : Text
  pub content : Text
  pub message_type : MessageType

pub data InjectionError : Type 0 where
  not_authorized : InjectionError
  pty_error : InjectionError
  storage_error : InjectionError

-- A file that the watcher of the session sees.
pub data PeerMessage : Type 0 where
  milestone_ready_file : Text → Text → Text → PeerMessage
  qa_verdict_file : Text → Text → Text → PeerMessage
  evaluator_feedback_file : Text → Text → Text → PeerMessage

pub data Effect : Type 0 where
  logged : Text → CoordinationMessage → Effect
  delivered : Text → Text → Effect
  peer_written : Text → PeerMessage → Effect
  shown : CoordinationMessage → Effect

pub record Outcomes : Type 0 where
  pub log_ok : Bool
  pub pty_ok : Bool
  pub peer_ok : Bool
  pub has_window : Bool

-- An error if there is one, and all effects so far.
abbrev pub Outcome : Type 0
Outcome = Option InjectionError × List Effect

abbrev pub message : Text → Text → Text → MessageType → CoordinationMessage
message from to content message_type = record {
  from = from;
  to = to;
  content = content;
  message_type = message_type;
}

abbrev pub is_qa_worker_id : Text → Bool
is_qa_worker_id agent_id = contains (codes "-qa-worker-") agent_id

abbrev pub is_queen_worker_id : Text → Bool
is_queen_worker_id agent_id =
    contains (codes "-worker-") agent_id && not (contains (codes "-qa-worker-") agent_id)

abbrev pub is_queen_id : Text → Bool
is_queen_id agent_id = ends_with_text (codes "-queen") agent_id

abbrev pub is_evaluator_id : Text → Bool
is_evaluator_id agent_id = ends_with_text (codes "-evaluator") agent_id

abbrev pub labelled : Text → Text → Option Text → Text
labelled bare prefix none = bare
labelled bare prefix (some suffix) = prefix ++ suffix

abbrev pub upto_dash : Option Text → Option Text
upto_dash none = none
upto_dash (some suffix) = some (until (λ c. c == b'-') suffix)

unfoldable pub format_agent_display : Text → Text
format_agent_display agent_id =
    if is_queen_id agent_id
    then codes "QUEEN"
    else if is_evaluator_id agent_id
    then codes "EVALUATOR"
    else if contains (codes "-qa-worker-") agent_id
    then labelled (codes "QA-WORKER") (codes "QA-WORKER-")
        (after_last_text (codes "-qa-worker-") agent_id)
    else if contains (codes "-worker-") agent_id
    then labelled (codes "WORKER") (codes "WORKER-") (after_last_text (codes "-worker-") agent_id)
    else if contains (codes "-planner-") agent_id
    then labelled (codes "PLANNER") (codes "PLANNER-")
        (upto_dash (after_last_text (codes "-planner-") agent_id))
    else agent_id

-- The text that reaches a terminal: without line ends, and one Enter.
unfoldable pub with_enter : Text → Text
with_enter content = trim_end (λ c. c == 13 || c == 10) content ++ 13 ∷ 10 ∷ []

-- A call that can fail, and what comes after it.
abbrev pub attempt :
    Bool → InjectionError → Effect → (List Effect → Outcome) → List Effect → Outcome
attempt true e effect continue w = continue (w ++ effect ∷ [])
attempt false e effect continue w = (some e, w)

abbrev pub show : Outcomes → CoordinationMessage → List Effect → Outcome
show o m w = (none, if o.has_window then w ++ shown m ∷ [] else w)

abbrev pub peer_then :
    Outcomes → Text → Option PeerMessage → CoordinationMessage → List Effect → Outcome
peer_then o session_id none m w = show o m w
peer_then o session_id (some p) m w =
    attempt o.peer_ok storage_error (peer_written session_id p) (show o m) w

unfoldable pub send :
    Outcomes → Text → Text → Text → CoordinationMessage → Option PeerMessage → List Effect → Outcome
unfolding with_enter
send o session_id target content m peer w =
    attempt o.log_ok storage_error (logged session_id m)
      (attempt o.pty_ok pty_error (delivered target (with_enter content))
        (peer_then o session_id peer m))
      w
