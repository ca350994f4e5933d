-- ===== src/Scratch.antt =====
-- src-tauri/src/session/controller.rs: the terminals that an operator opens in a session. The map from
-- sessions to the sets of their terminals is the list of its pairs, and `cleaning` has the sessions
-- whose terminals are being killed. The states of the sessions are looked up by the parameter
-- `state_of`, since the calls change none of them. Ids are texts. The locks that a call holds make it
-- one step.
pub mod Owners
use hive_manager.Base.{
  strip_prefix, ℕ, ◌==◌, Bool, true, false, not, ◌&&◌, ◌||◌, Option, none, some, List, [], ◌∷◌,
  ◌++◌, map, Text, codes, text_eq, member, any, is_nil, select, if◌then◌else◌,
}
use hive_manager.Session.{SessionState, closing, is_terminal_session_state}
use hive_manager.Session.Cells.Aggregate.{is_closing}

pub record Scratch : Type 0 where
  pub owned : List (Text × Text)
  pub cleaning : List Text

pub data ScratchError : Type 0 where
  stopping session_missing not_running wrong_namespace already_registered : ScratchError

abbrev pub StateOf : Type 0
StateOf = Text → Option SessionState

unfoldable pub refuses_state : Option SessionState → Option ScratchError
unfolding is_terminal_session_state
refuses_state none = some session_missing
refuses_state (some st) =
    if is_terminal_session_state st || is_closing st then some not_running else none

-- None if a terminal may be created.
unfoldable pub validate_scratch_pty_session_locked : StateOf → Text → Scratch → Option ScratchError
unfolding refuses_state
validate_scratch_pty_session_locked state_of session_id s =
    if member session_id s.cleaning then some stopping else refuses_state (state_of session_id)

abbrev pub has_colon : Text → Bool
has_colon t = any (λ c. c == b':') t

abbrev pub expected_prefix : Text → Text
expected_prefix session_id = codes "scratch:" ++ (session_id ++ b':' ∷ [])

abbrev pub unwrap_or_default : Option Text → Text
unwrap_or_default none = []
unwrap_or_default (some t) = t

abbrev pub is_misnamed : Text → Text → Bool
is_misnamed session_id pty_id =
    let unique_id = unwrap_or_default (strip_prefix (expected_prefix session_id) pty_id) in
    has_colon session_id || is_nil unique_id || has_colon unique_id

abbrev pub owns : Text → Text → Scratch → Bool
owns session_id pty_id s = any (λ o. text_eq o.0 session_id && text_eq o.1 pty_id) s.owned

-- The call after the session was found fit, or not.
unfoldable pub reserve_if :
    Option ScratchError → Text → Text → Scratch → Option ScratchError × Scratch
reserve_if (some e) session_id pty_id s = (some e, s)
reserve_if none session_id pty_id s =
    if is_misnamed session_id pty_id
    then (some wrong_namespace, s)
    else if owns session_id pty_id s
    then (some already_registered, s)
    else (none, record s { owned = (session_id, pty_id) ∷ s.owned })

-- None if the terminal is registered.
unfoldable pub reserve_scratch_pty : StateOf → Text → Text → Scratch → Option ScratchError × Scratch
unfolding validate_scratch_pty_session_locked reserve_if
reserve_scratch_pty state_of session_id pty_id s =
    reserve_if (validate_scratch_pty_session_locked state_of session_id s) session_id pty_id s

unfoldable pub unregister_scratch_pty : Text → Scratch → Scratch
unregister_scratch_pty pty_id s = record s {
  owned = select (λ o. not (text_eq o.1 pty_id)) s.owned;
}

unfoldable pub begin_scratch_pty_cleanup : Text → Scratch → List Text × Scratch
begin_scratch_pty_cleanup session_id s = (
  map (λ o. o.1) (select (λ o. text_eq o.0 session_id) s.owned),
  record s { cleaning = session_id ∷ s.cleaning },
)

unfoldable pub finish_scratch_pty_cleanup : Text → Scratch → Scratch
finish_scratch_pty_cleanup session_id s = record s {
  cleaning = select (λ c. not (text_eq c session_id)) s.cleaning;
}
