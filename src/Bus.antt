-- ===== src/Bus.antt =====
-- src-tauri/src/events/bus.rs: events are appended to a file of their session and then broadcast.
-- What tokio and serde_json do is chosen by the environment or a parameter: `to_json` gives the bytes
-- of an event, a file takes the bytes that are handed to it and writes them later, and what a receiver
-- gets from the channel, an event or an error, is its argument.
pub mod Files
pub mod Log
pub mod Results
pub mod Sent
pub mod Receivers
pub mod Emitter
use hive_manager.Base.{
  ℕ, zero, suc, Bool, true, false, not, ◌&&◌, Option, none, some, List, [], ◌∷◌, ◌++◌, ◌⊎◌, inl,
  inr, String, Text, str_eq, opt_str_eq, any, if◌then◌else◌,
}
use hive_manager.Events.{Event}
use hive_manager.Bus.Files.{SessionFile, SessionFiles, file_of, put_file, accept, lose}

abbrev pub channel_capacity : ℕ
channel_capacity = 1024

-- The file calls of a publication. A write that is done has taken the line, with the number of bytes
-- that are on disk by then of those that were not before. A write that fails has taken a part of the
-- line, and of what was not on disk only a part gets there: an error may be that of an earlier write.
pub data FileOutcome : Type 0 where
  done : ℕ → FileOutcome
  dir_failed : FileOutcome
  open_failed : FileOutcome
  write_failed : ℕ → ℕ → FileOutcome

pub data PublishError : Type 0 where
  no_session_dir : PublishError
  not_opened : PublishError
  not_cached : PublishError
  not_written : PublishError

pub record EventBus : Type 0 where
  pub files : SessionFiles
  pub writers : List String
  pub sent : List Event

abbrev pub new_bus : EventBus
new_bus = record { files = []; writers = []; sent = [] }

abbrev pub is_cached : String → List String → Bool
is_cached session_id writers = any (λ w. str_eq w session_id) writers

-- A writer for the session, opened if there is none.
unfoldable pub ensured_writer :
    FileOutcome → String → List String → Bool → PublishError ⊎ List String
ensured_writer o session_id writers true = inr writers
ensured_writer dir_failed session_id writers false = inl no_session_dir
ensured_writer open_failed session_id writers false = inl not_opened
ensured_writer (write_failed _ _) session_id writers false = inr (writers ++ session_id ∷ [])
ensured_writer (done _) session_id writers false = inr (writers ++ session_id ∷ [])

unfoldable pub ensure_writer : FileOutcome → String → List String → PublishError ⊎ List String
unfolding ensured_writer
ensure_writer o session_id writers =
    ensured_writer o session_id writers (is_cached session_id writers)

abbrev pub broadcast : (PublishError ⊎ Event) × EventBus → (PublishError ⊎ Event) × EventBus
broadcast (inl e, b) = (inl e, b)
broadcast (inr event, b) = (inr event, record b { sent = b.sent ++ event ∷ [] })

module _ (to_json : Event → Text) where
  -- An event's line, with the newline at its end.
  abbrev pub line_of : Event → Text
  line_of event = to_json event ++ 10 ∷ []

  unfoldable pub taken_line : ℕ → Event → EventBus → (PublishError ⊎ Event) × EventBus
  unfolding accept
  taken_line written event b =
      let file = accept written (line_of event) (file_of event.session_id b.files) in
      (inr event, record b { files = put_file event.session_id file b.files })

  -- `write_all`.
  unfoldable pub write_line : FileOutcome → Event → EventBus → (PublishError ⊎ Event) × EventBus
  unfolding lose taken_line
  write_line (write_failed written taken) event b =
      let file = lose written taken (line_of event) (file_of event.session_id b.files) in
      (inl not_written, record b { files = put_file event.session_id file b.files })
  write_line (done written) event b = taken_line written event b
  write_line dir_failed event b = taken_line zero event b
  write_line open_failed event b = taken_line zero event b

  -- The `find` of the writer after it was ensured.
  unfoldable pub with_writer :
      FileOutcome
      → Event
      → EventBus
      → PublishError ⊎ List String
      → (PublishError ⊎ Event) × EventBus
  unfolding write_line
  with_writer o event b (inl e) = (inl e, b)
  with_writer o event b (inr writers) =
      let b1 = record b { writers = writers } in
      if is_cached event.session_id writers then write_line o event b1 else (inl not_cached, b1)

  unfoldable pub persist_jsonl : FileOutcome → Event → EventBus → (PublishError ⊎ Event) × EventBus
  unfolding ensure_writer with_writer
  persist_jsonl o event b = with_writer o event b (ensure_writer o event.session_id b.writers)

  unfoldable pub publish : FileOutcome → Event → EventBus → (PublishError ⊎ Event) × EventBus
  unfolding persist_jsonl
  publish o event b = broadcast (persist_jsonl o event b)

  unfoldable pub publish_all : List (FileOutcome × Event) → EventBus → EventBus
  unfolding publish
  publish_all [] b = b
  publish_all ((o, event) ∷ rest) b = publish_all rest (publish o event b).1

pub data EventFilter : Type 0 where
  of_session : String → EventFilter
  of_cell : String → EventFilter
  of_agent : String → EventFilter

unfoldable pub matches : EventFilter → Event → Bool
matches (of_session id) event = str_eq event.session_id id
matches (of_cell id) event = opt_str_eq event.cell_id (some id)
matches (of_agent id) event = opt_str_eq event.agent_id (some id)

-- `RecvError` of the channel.
pub data RecvError : Type 0 where
  closed : RecvError
  lagged : RecvError

-- One `recv` on what the channel yields: the result and what is left, or none when it waits still.
unfoldable pub recv :
    EventFilter → List (RecvError ⊎ Event) → Option ((RecvError ⊎ Event) × List (RecvError ⊎ Event))
unfolding matches
recv filter [] = none
recv filter (inl e ∷ rest) = some (inl e, rest)
recv filter (inr event ∷ rest) =
    let later = recv filter rest in if matches filter event then some (inr event, rest) else later
