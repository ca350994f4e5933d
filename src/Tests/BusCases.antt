-- ===== src/Tests/BusCases.antt =====
-- The event bus at concrete inputs.
use hive_manager.Base.{
  ◌≡◌, refl, inl, inr, true, some, List, [], ◌∷◌, ◌++◌, Text, codes, map, length, lacks, split_at,
  leb, if◌then◌else◌,
}
use hive_manager.Events.{Event, agent_launched, agent_failed, info, error}
use hive_manager.Bus.Files.{file_of, put_file, handed}
use hive_manager.Bus.{
  FileOutcome, done, open_failed, write_failed, EventBus, new_bus, taken_line, publish_all, lagged,
  channel_capacity,
}
use hive_manager.Bus.Sent.{broadcast_of}
use hive_manager.Bus.Log.{sent_of, publish_all-reads}
use hive_manager.Bus.Receivers.{Stream}
use hive_manager.Bus.Emitter.{event_with}

abbrev launched_event : Event
launched_event = event_with "s1" (some "c1") (some "a1") agent_launched info

abbrev failed_event : Event
failed_event = event_with "s2" (some "c1") (some "a1") agent_failed error

abbrev json : Event → Text
json event = codes "{}"

json_plain : (e : Event) → lacks 10 (json e) ≡ true
json_plain e = refl

abbrev a_run : List (FileOutcome × Event)
a_run =
    (done 1, launched_event)
    ∷ (open_failed, failed_event)
    ∷ (done 3, launched_event)
    ∷ (done 0, failed_event)
    ∷ []

abbrev after_run : EventBus
after_run = publish_all json a_run new_bus

publish_all-reads_example :
    (after_run.sent ≡ broadcast_of a_run [])
    × (split_at 10 (handed (file_of "s1" after_run.files))
        ≡ map json (sent_of "s1" after_run.sent) ++ [] ∷ [])
publish_all-reads_example = publish_all-reads json json_plain a_run "s1" (tt, (tt, (tt, (tt, tt))))

run_sent : after_run.sent ≡ launched_event ∷ launched_event ∷ failed_event ∷ []
unfolding publish_all taken_line
run_sent = refl

-- A write that fails leaves a fragment, and the next event, which is broadcast, is glued to it.
abbrev glued_run : List (FileOutcome × Event)
glued_run = (write_failed 9 1, launched_event) ∷ (done 9, launched_event) ∷ []

glued : (file_of "s1" (publish_all json glued_run new_bus).files).disk ≡ codes "{{}" ++ 10 ∷ []
unfolding publish_all taken_line file_of put_file
glued = refl

-- An event that was broadcast is lost by the failure of the next publication.
abbrev lost_run : List (FileOutcome × Event)
lost_run = (done 0, launched_event) ∷ (write_failed 0 0, launched_event) ∷ []

lost :
    (handed (file_of "s1" (publish_all json lost_run new_bus).files) ≡ [])
    × ((publish_all json lost_run new_bus).sent ≡ launched_event ∷ [])
unfolding publish_all taken_line file_of put_file
lost = (refl, refl)

-- A channel that keeps no event of those that were too many.
abbrev channel : List Event → Stream
channel es = if leb (length es) channel_capacity then map inr es else inl lagged ∷ []
