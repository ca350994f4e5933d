-- ===== src/Bus/Results.antt =====
-- src-tauri/src/events/bus.rs: what a publication returns.
use hive_manager.Base.{
  ◌≡◌, refl, ◌∙◌, inl, inr, ◌⊎◌, Bool, true, false, ◌||◌, List, [], ◌∷◌, ◌++◌, String, Text, str_eq,
  str_eq_iff, if_both,
}
use hive_manager.Events.{Event}
use hive_manager.Bus.{
  FileOutcome, done, dir_failed, open_failed, write_failed, PublishError, no_session_dir,
  not_opened, not_written, EventBus, is_cached, ensured_writer, ensure_writer, write_line,
  with_writer, persist_jsonl, broadcast, publish,
}

-- What a publication returns, by its file calls and whether a writer is cached.
unfoldable pub expected : FileOutcome → Bool → Event → PublishError ⊎ Event
expected (done _) cached e = inr e
expected (write_failed _ _) cached e = inl not_written
expected dir_failed true e = inr e
expected dir_failed false e = inl no_session_dir
expected open_failed true e = inr e
expected open_failed false e = inl not_opened

or_true : (b : Bool) → b || true ≡ true
or_true true = refl
or_true false = refl

pub cached-push : (id : String) (ws : List String) → is_cached id (ws ++ id ∷ []) ≡ true
cached-push id [] = rw ((str_eq_iff id id).1 refl) refl
cached-push id (w ∷ ws) = rw (cached-push id ws) (or_true (str_eq w id))

broadcast-result : (r : (PublishError ⊎ Event) × EventBus) → (broadcast r).0 ≡ r.0
broadcast-result (inl e, b) = refl
broadcast-result (inr e, b) = refl

written : FileOutcome → Event → PublishError ⊎ Event
written (write_failed _ _) e = inl not_written
written (done _) e = inr e
written dir_failed e = inr e
written open_failed e = inr e

module _ (to_json : Event → Text) where
  write_line-result :
      (o : FileOutcome) (e : Event) (b : EventBus) → (write_line to_json o e b).0 ≡ written o e
  unfolding write_line written
  write_line-result (write_failed n k) e b = refl
  write_line-result (done n) e b = refl
  write_line-result dir_failed e b = refl
  write_line-result open_failed e b = refl

  with_cached :
      (o : FileOutcome) (e : Event) (b : EventBus) (ws : List String)
      → is_cached e.session_id ws ≡ true
      → (with_writer to_json o e b (inr ws)).0 ≡ written o e
  unfolding with_writer
  with_cached o e b ws h =
      if_both (λ (r : (PublishError ⊎ Event) × EventBus). r.0 ≡ written o e)
        (is_cached e.session_id ws) (λ _. write_line-result o e (record b { writers = ws }))
        (λ n. cc (h, n))

  opened :
      (e : Event) (b : EventBus) → is_cached e.session_id (b.writers ++ e.session_id ∷ []) ≡ true
  opened e b = cached-push e.session_id b.writers

  persisted :
      (o : FileOutcome) (e : Event) (b : EventBus) (cached : Bool)
      → is_cached e.session_id b.writers ≡ cached
      → (with_writer to_json o e b (ensured_writer o e.session_id b.writers cached)).0
        ≡ expected o cached e
  unfolding expected ensured_writer with_writer written
  persisted (done n) e b true h = with_cached (done n) e b b.writers h
  persisted (done n) e b false h = with_cached (done n) e b _ (opened e b)
  persisted dir_failed e b true h = with_cached dir_failed e b b.writers h
  persisted dir_failed e b false h = refl
  persisted open_failed e b true h = with_cached open_failed e b b.writers h
  persisted open_failed e b false h = refl
  persisted (write_failed n k) e b true h = with_cached (write_failed n k) e b b.writers h
  persisted (write_failed n k) e b false h = with_cached (write_failed n k) e b _ (opened e b)

  -- A publication returns the event when it is done, and otherwise the error of the file call that
  -- failed; a call that creates the directory or opens the file is only made for a session without
  -- a cached writer, and the error of a missing writer never occurs.
  pub publish-expected :
      (o : FileOutcome) (e : Event) (b : EventBus)
      → (publish to_json o e b).0 ≡ expected o (is_cached e.session_id b.writers) e
  unfolding publish persist_jsonl ensure_writer
  publish-expected o e b =
      broadcast-result (persist_jsonl to_json o e b)
      ∙ persisted o e b (is_cached e.session_id b.writers) refl
