-- ===== src/Bus/Sent.antt =====
-- src-tauri/src/events/bus.rs: which publications are broadcast.
use mathlib.Core.List.{append-nil, append_assoc}
use hive_manager.Base.{
  ◌≡◌, refl, sym, ap, ◌∙◌, inr, ◌⊎◌, Bool, true, false, List, [], ◌∷◌, ◌++◌, String, Text, if_both,
  if◌then◌else◌,
}
use hive_manager.Events.{Event}
use hive_manager.Bus.{
  FileOutcome, done, dir_failed, open_failed, write_failed, PublishError, EventBus, is_cached,
  ensured_writer, ensure_writer, taken_line, write_line, with_writer, persist_jsonl, broadcast,
  publish, publish_all,
}
use hive_manager.Bus.Results.{cached-push}

-- The file of the session is made, if it is not open already.
abbrev pub is_made : FileOutcome → Bool
is_made dir_failed = false
is_made open_failed = false
is_made _ = true

abbrev pub is_taken : FileOutcome → Bool
is_taken (write_failed _ _) = false
is_taken _ = true

abbrev pub next_open : FileOutcome → Event → Bool → List String → List String
next_open o e true opened = opened
next_open o e false opened = if is_made o then opened ++ e.session_id ∷ [] else opened

abbrev pub reached : FileOutcome → Bool → Bool
reached o true = is_taken o
reached o false = if is_made o then is_taken o else false

-- The events that get through, in order: those whose session's file is open already or made, and
-- whose write does not fail. The sessions with an open file are passed on.
unfoldable pub broadcast_of : List (FileOutcome × Event) → List String → List Event
broadcast_of [] opened = []
broadcast_of ((o, e) ∷ rest) opened =
    let cached = is_cached e.session_id opened in
    let later = broadcast_of rest (next_open o e cached opened) in
    if reached o cached then e ∷ later else later

abbrev pub sent_if : Bool → Event → List Event
sent_if through e = if through then e ∷ [] else []

module _ (to_json : Event → Text) where
  -- What a publication adds to what was sent, and the writers that it leaves.
  abbrev pub Publishes : EventBus → EventBus → Bool → Event → List String → Type 0
  Publishes b b' through e opened = (b'.sent ≡ b.sent ++ sent_if through e) × (b'.writers ≡ opened)

  write_line-Publishes :
      (o : FileOutcome) (e : Event) (b : EventBus)
      → Publishes b (broadcast (write_line to_json o e b)).1 (is_taken o) e b.writers
  unfolding write_line taken_line
  write_line-Publishes (write_failed n k) e b = (sym (append-nil b.sent), refl)
  write_line-Publishes (done n) e b = (refl, refl)
  write_line-Publishes dir_failed e b = (refl, refl)
  write_line-Publishes open_failed e b = (refl, refl)

  cached-Publishes :
      (o : FileOutcome) (e : Event) (b : EventBus) (ws : List String)
      → is_cached e.session_id ws ≡ true
      → Publishes b (broadcast (with_writer to_json o e b (inr ws))).1 (is_taken o) e ws
  unfolding with_writer
  cached-Publishes o e b ws h =
      if_both
        (λ (r : (PublishError ⊎ Event) × EventBus). Publishes b (broadcast r).1 (is_taken o) e ws)
        (is_cached e.session_id ws) (λ _. write_line-Publishes o e (record b { writers = ws }))
        (λ n. cc (h, n))

  ensured-Publishes :
      (o : FileOutcome) (e : Event) (b : EventBus) (cached : Bool)
      → is_cached e.session_id b.writers ≡ cached
      → Publishes b
          (broadcast (with_writer to_json o e b (ensured_writer o e.session_id b.writers cached))).1
          (reached o cached)
          e
          (next_open o e cached b.writers)
  unfolding ensured_writer with_writer
  ensured-Publishes o e b true h = cached-Publishes o e b b.writers h
  ensured-Publishes (done n) e b false h =
      cached-Publishes (done n) e b _ (cached-push e.session_id b.writers)
  ensured-Publishes (write_failed n k) e b false h =
      cached-Publishes (write_failed n k) e b _ (cached-push e.session_id b.writers)
  ensured-Publishes dir_failed e b false h = (sym (append-nil b.sent), refl)
  ensured-Publishes open_failed e b false h = (sym (append-nil b.sent), refl)

  pub publish_all-broadcast_of :
      (events : List (FileOutcome × Event)) (b : EventBus)
      → (publish_all to_json events b).sent ≡ b.sent ++ broadcast_of events b.writers
  unfolding publish_all publish persist_jsonl ensure_writer broadcast_of
  publish_all-broadcast_of [] b = sym (append-nil b.sent)
  publish_all-broadcast_of ((o, e) ∷ rest) b =
      let cached = is_cached e.session_id b.writers in
      let (sent, opened) = ensured-Publishes o e b cached refl in
      let later = broadcast_of rest (next_open o e cached b.writers) in
      publish_all-broadcast_of rest (publish to_json o e b).1
      ∙ ap (λ l. l ++ broadcast_of rest (publish to_json o e b).1.writers) sent
      ∙ ap (λ ws. (b.sent ++ sent_if (reached o cached) e) ++ broadcast_of rest ws) opened
      ∙ append_assoc b.sent (sent_if (reached o cached) e) later
      ∙ ap (λ l. b.sent ++ l) (joined (reached o cached) e later)
    where
      joined :
          (through : Bool) (e : Event) (later : List Event)
          → sent_if through e ++ later ≡ (if through then e ∷ later else later)
      joined true e later = refl
      joined false e later = refl
