-- ===== src/Lib.antt =====
-- Verification library of hive-manager: the Rust backend of a desktop application that runs teams
-- of coding agents (src-tauri/src). A session has agents, each a process in a terminal. Workers are
-- queued as durable runs in an SQLite database, claimed by an atomic update and watched by their
-- heartbeats; a run journal with a side-effect ledger lets a session resume after a crash; a QA gate
-- decides when the work of a session may be completed; a key/value table carries what the agents read
-- at the start of a turn.
--
-- The parts, and the code they stand for:
--   Base         shared names, Boolean tests, list, text and numeral lemmas
--   Database     the locked connection (ApplicationStateDb::with_conn) and the errors of
--                src-tauri/src/storage/mod.rs: a table and the outcomes of the next statements
--   Events       src-tauri/src/domain/event.rs
--   Queue        src-tauri/src/storage/queue.rs, the queue's statements: try_claim,
--                record_heartbeat, reclaim_stuck, finalize_no_progress, requeue_running and the
--                views, each a function on the table. Below it: single rows (Rows), claims (Claim),
--                heartbeats (Beats), the maintenance passes (Maintenance), histories of operations
--                as a relation on tables (Steps) and the invariants of every history (Invariant)
--   Manager      src-tauri/src/coordination/queue_manager.rs, the queue with its events: what a call
--                returns, and the intervals between heartbeats against the cutoffs (Cadence)
--   Journal      src-tauri/src/domain/run_journal.rs and src-tauri/src/storage/run_journal.rs:
--                classify_step and the rows; record_step_started, record_ledger,
--                record_step_finished and confirm_ledger (Tables); the contract of a write-step
--                (Protocol) and the stored tags (Tags)
--   Resume       src-tauri/src/session/controller.rs, its use of the journal:
--                is_write_step_completed (Guard) and build_resume_report (Report)
--   Session      the states, roles and records of src-tauri/src/session/controller.rs and
--                src-tauri/src/pty/session.rs. Session.Cells is src-tauri/src/session/cell_status.rs;
--                Session.Persist is how states and roles are stored and read
--   Qa           the QA gate of src-tauri/src/session/controller.rs: apply_qa_verdict_to_session, the
--                calls that record a verdict (Handlers), what they do to the Prince's process
--                (Launches), the timer's task in its two steps (Timer), the completion gate
--                (Completion)
--   Ending       a session is completed, stopped or closed, from src-tauri/src/session/controller.rs: a
--                completion whose save fails (Completed), the operator's terminals (Terminals)
--   Variants     slugify_variant_name and unique_variant_slug of src-tauri/src/session/controller.rs:
--                what a slug is made of (Slugs) and when the slugs of a launch differ (Distinct)
--   Scratch      the operator's terminals, from src-tauri/src/session/controller.rs
--   KeyValue     src-tauri/src/storage/application_state.rs
--   Bus          src-tauri/src/events/bus.rs and src-tauri/src/events/emitter.rs: publish with a file
--                for each session (Files, Log, Sent, Results), FilteredReceiver (Receivers), EventEmitter
--                (Emitter)
--   Contracts    src-tauri/src/coordination/contracts.rs: parse_sprint_contract, the contracts it
--                accepts (Accepted) and the reading of a written one (Printed)
--   Preview      src-tauri/src/preview/mod.rs: PersistedPreviewState and its handlers (Docking), what
--                they keep (Layout, Snapshot), dock_split (Split), position_is_on_a_monitor (Monitors)
--                and the checks on addresses (Address)
--   Knowledge    src-tauri/src/http/handlers/knowledge.rs: what is left out (Report), the walk over the
--                sources (Scan), build_edges and resolve_hint (Edges, Lookup, Parents, Stripped), the
--                checks on folders and ids (Folders, Ids) and truncate_utf8 (Cut)
--   Injection    src-tauri/src/coordination/injection.rs, InjectionManager: its handlers (Handlers), the
--                order of a message's effects (Followed) and messages to several workers (Broadcast)
--   Templates    src-tauri/src/templates/mod.rs: render_if_blocks, and the end of its loop (Ended)
--   Tests        the theorems at concrete inputs
--
-- The manager calls the queue through the database, and the resume calls the journal through it: a
-- statement takes the next of the outcomes that the environment chose, and an error leaves the table
-- as it was. The QA gate works on the controller's sessions, and the outcomes of its saves, the
-- processes that are alive and the end of a launch are chosen by the environment as well.
--
-- Numbers are natural numbers. The u8 counters of the QA gate saturate at 255 as in the code; the u16
-- count of a repeated slug wraps around, as in a release build; the other counters of the code grow by
-- one and are far from their bounds. Times are milliseconds or seconds as the code has them. Queue
-- payloads and stored JSON values are of a type parameter. Texts that the code only compares are
-- native strings; texts that it takes apart are lists of code points. A map or a table is a list with
-- what the code does on a missing key. Functions on fuel: strip_again (the repeated
-- trim_start_matches, and the loops that strip a prefix), whose fuel is the length of the text, and a
-- step removes at least one character; replace_blocks (the loop over the blocks of a key), whose fuel
-- is the length of the template, and a turn makes it shorter; drain (receiving again and again);
-- digits_of (printing a number) has one more than the number. UUIDs, git and liveness of processes are
-- parameters, and so are the url crate (Address.Urls), the JSON of an event, and what a receiver gets
-- from a channel of tokio; the environment chooses which bytes of an events file are on disk and which
-- writes fail. A floating-point scale is a fraction, with the rounding of the code on it.
--
-- Not modelled: the launch of sessions and evaluators, session files, the files of coordination,
-- worktrees, processes, the window calls of the preview, HTTP and command glue, prompts, and the user
-- interface. SQL data definition is left out.
mod Base
pub mod Database
pub mod Events
pub mod Queue
pub mod Manager
pub mod Journal
pub mod Resume
pub mod Session
pub mod Qa
pub mod KeyValue
pub mod Scratch
pub mod Bus
pub mod Injection
pub mod Preview
pub mod Templates
pub mod Ending
pub mod Variants
pub mod Knowledge
pub mod Contracts
mod Tests
