-- ===== src/Bus/Log.antt =====
-- src-tauri/src/events/bus.rs: what the files hold of what was broadcast.
use mathlib.Core.List.{append-nil, append_assoc}
use hive_manager.Base.{
  ℕ, zero, suc, ◌≡◌, refl, sym, ap, ◌∙◌, inl, inr, ◌⊎◌, true, false, List, [], ◌∷◌, ◌++◌, String,
  Text, str_eq, str_eq_iff, if_both, if◌then◌else◌, Bool-cases, select, map, All, lacks, split_at,
  split_at-append,
}
use hive_manager.Events.{Event}
use hive_manager.Bus.Files.{SessionFile, SessionFiles, file_of, put_file, cut, accept, handed}
use hive_manager.Bus.Sent.{broadcast_of, publish_all-broadcast_of}
use hive_manager.Bus.{
  FileOutcome, done, dir_failed, open_failed, write_failed, PublishError, EventBus, new_bus,
  is_cached, ensure_writer, line_of, taken_line, write_line, with_writer, persist_jsonl, broadcast,
  publish, publish_all,
}

cut_whole : (n : ℕ) (t : Text) → (cut n t).0 ++ (cut n t).1 ≡ t
unfolding cut
cut_whole zero t = refl
cut_whole (suc n) [] = refl
cut_whole (suc n) (c ∷ cs) = ap (λ r. c ∷ r) (cut_whole n cs)

-- What is taken stands after what was handed to the file before.
handed-accept :
    (n : ℕ) (bytes : Text) (f : SessionFile) → handed (accept n bytes f) ≡ handed f ++ bytes
unfolding accept
handed-accept n bytes f =
    append_assoc f.disk (cut n (f.pending ++ bytes)).0 (cut n (f.pending ++ bytes)).1
    ∙ ap (λ r. f.disk ++ r) (cut_whole n (f.pending ++ bytes))
    ∙ sym (append_assoc f.disk f.pending bytes)

same_file :
    (id k : String) (f : SessionFile) (files : SessionFiles)
    → str_eq k id ≡ true
    → file_of id (put_file k f files) ≡ f
unfolding file_of put_file
same_file id k f [] h = rw h refl
same_file id k f ((x, g) ∷ rest) h =
    if_both (λ r. file_of id r ≡ f) (str_eq x k) (λ e. here ((str_eq_iff x k).0 e))
      (λ n. rw (other n) (same_file id k f rest h))
  where
    here : x ≡ k → (if str_eq x id then f else file_of id rest) ≡ f
    here e = rw (ap (λ t. str_eq t id) e ∙ h) refl

    other : str_eq x k ≡ false → str_eq x id ≡ false
    other n = ap (str_eq x) (sym ((str_eq_iff k id).0 h)) ∙ n

other_file :
    (id k : String) (f : SessionFile) (files : SessionFiles)
    → str_eq k id ≡ false
    → file_of id (put_file k f files) ≡ file_of id files
unfolding file_of put_file
other_file id k f [] h = rw h refl
other_file id k f ((x, g) ∷ rest) h =
    if_both (λ r. file_of id r ≡ file_of id ((x, g) ∷ rest)) (str_eq x k)
      (λ e. here ((str_eq_iff x k).0 e))
      (λ _. elim (Bool-cases (str_eq x id)) [
        | inl y ↦ rw y refl
        | inr n ↦ rw n (other_file id k f rest h)
      ])
  where
    here :
        x ≡ k
        → (if str_eq x id then f else file_of id rest)
          ≡ (if str_eq x id then g else file_of id rest)
    here e = rw (ap (λ t. str_eq t id) e ∙ h) refl

-- The events of a session among those sent.
unfoldable pub sent_of : String → List Event → List Event
sent_of session_id events = select (λ e. str_eq e.session_id session_id) events

sent_of-append :
    (id : String) (xs ys : List Event) → sent_of id (xs ++ ys) ≡ sent_of id xs ++ sent_of id ys
unfolding sent_of
sent_of-append id [] ys = refl
sent_of-append id (x ∷ xs) ys = elim (Bool-cases (str_eq x.session_id id)) [
  | inl e ↦ rw e (ap (λ r. x ∷ r) (sent_of-append id xs ys))
  | inr e ↦ rw e (sent_of-append id xs ys)
]

-- No write fails; the directory or the file may fail to be made.
abbrev pub IsWritten : FileOutcome → Type 0
IsWritten (write_failed _ _) = false ≡ true
IsWritten _ = Unit

module _ (to_json : Event → Text) where
  -- The lines of events, one after the other.
  unfoldable pub lines_of : List Event → Text
  lines_of [] = []
  lines_of (e ∷ es) = line_of to_json e ++ lines_of es

  lines_of-append : (xs ys : List Event) → lines_of (xs ++ ys) ≡ lines_of xs ++ lines_of ys
  unfolding lines_of
  lines_of-append [] ys = refl
  lines_of-append (x ∷ xs) ys =
      ap (λ r. line_of to_json x ++ r) (lines_of-append xs ys)
      ∙ sym (append_assoc (line_of to_json x) (lines_of xs) (lines_of ys))

  -- What was handed to a session's file is the lines of the session's events that were sent.
  unfoldable pub Agrees : EventBus → Type 0
  Agrees b = (id : String) → handed (file_of id b.files) ≡ lines_of (sent_of id b.sent)

  one_sent :
      (id : String) (n : ℕ) (e : Event) (b : EventBus)
      → Agrees b
      → handed (file_of id (broadcast (taken_line to_json n e b)).1.files)
        ≡ lines_of (sent_of id b.sent ++ sent_of id (e ∷ []))
  unfolding Agrees sent_of lines_of taken_line
  one_sent id n e b a =
      let file = accept n (line_of to_json e) (file_of e.session_id b.files) in
      elim (Bool-cases (str_eq e.session_id id)) [
        | inl y ↦ rw y (
            ap handed (same_file id e.session_id file b.files y)
            ∙ handed-accept n (line_of to_json e) (file_of e.session_id b.files)
            ∙ ap (λ k. handed (file_of k b.files) ++ line_of to_json e)
                ((str_eq_iff e.session_id id).0 y)
            ∙ ap (λ r. r ++ line_of to_json e) (a id)
            ∙ ap (λ r. lines_of (sent_of id b.sent) ++ r) (sym (append-nil (line_of to_json e)))
            ∙ sym (lines_of-append (sent_of id b.sent) (e ∷ [])))
        | inr away ↦ rw away (
            ap handed (other_file id e.session_id file b.files away)
            ∙ a id
            ∙ ap lines_of (sym (append-nil (sent_of id b.sent))))
      ]

  taken_line-Agrees :
      (n : ℕ) (e : Event) (b : EventBus)
      → Agrees b
      → Agrees (broadcast (taken_line to_json n e b)).1
  unfolding Agrees taken_line
  taken_line-Agrees n e b a id =
      one_sent id n e b a ∙ ap lines_of (sym (sent_of-append id b.sent (e ∷ [])))

  caching-Agrees : (w : List String) (b : EventBus) → Agrees b → Agrees (record b { writers = w })
  unfolding Agrees
  caching-Agrees w b a = a

  write_line-Agrees :
      (o : FileOutcome) (e : Event) (b : EventBus)
      → IsWritten o
      → Agrees b
      → Agrees (broadcast (write_line to_json o e b)).1
  unfolding write_line
  write_line-Agrees (write_failed n k) e b w a = cc
  write_line-Agrees (done n) e b w a = taken_line-Agrees n e b a
  write_line-Agrees dir_failed e b w a = taken_line-Agrees zero e b a
  write_line-Agrees open_failed e b w a = taken_line-Agrees zero e b a

  with_writer-Agrees :
      (o : FileOutcome) (e : Event) (b : EventBus) (r : PublishError ⊎ List String)
      → IsWritten o
      → Agrees b
      → Agrees (broadcast (with_writer to_json o e b r)).1
  unfolding with_writer
  with_writer-Agrees o e b (inl x) w a = a
  with_writer-Agrees o e b (inr ws) w a =
      if_both (λ r. Agrees (broadcast r).1) (is_cached e.session_id ws)
        (λ _. write_line-Agrees o e (record b { writers = ws }) w (caching-Agrees ws b a))
        (λ _. caching-Agrees ws b a)

  publish_all-Agrees :
      (events : List (FileOutcome × Event)) (b : EventBus)
      → All (λ x. IsWritten x.0) events
      → Agrees b
      → Agrees (publish_all to_json events b)
  unfolding publish_all publish persist_jsonl
  publish_all-Agrees [] b ws a = a
  publish_all-Agrees ((o, e) ∷ rest) b (w, ws) a =
      publish_all-Agrees rest (publish to_json o e b).1 ws
        (with_writer-Agrees o e b (ensure_writer o e.session_id b.writers) w a)

  new_bus-Agrees : Agrees new_bus
  unfolding Agrees file_of sent_of lines_of
  new_bus-Agrees id = refl

  lines_read :
      (es : List Event)
      → ((e : Event) → lacks 10 (to_json e) ≡ true)
      → split_at 10 (lines_of es) ≡ map to_json es ++ [] ∷ []
  unfolding lines_of
  lines_read [] plain = refl
  lines_read (e ∷ es) plain =
      ap (split_at 10) (append_assoc (to_json e) (10 ∷ []) (lines_of es))
      ∙ split_at-append 10 (to_json e) (lines_of es) (plain e)
      ∙ ap (λ r. to_json e ∷ r) (lines_read es plain)

  -- After any sequence of publications on a new bus in which no write to a file fails, the events
  -- that were broadcast are those whose session's file was open already or could be made, and what was
  -- handed to each session's file reads, line by line, as exactly the session's events that were
  -- broadcast, in the order in which they were. The JSON of an event has no newline, and bytes that
  -- were handed to a file may be still to be written.
  pub publish_all-reads :
      (plain : (e : Event) → lacks 10 (to_json e) ≡ true) (events : List (FileOutcome × Event))
      (id : String)
      → All (λ x. IsWritten x.0) events
      → let b = publish_all to_json events new_bus in
        (b.sent ≡ broadcast_of events [])
        × (split_at 10 (handed (file_of id b.files)) ≡ map to_json (sent_of id b.sent) ++ [] ∷ [])
  unfolding Agrees
  publish_all-reads plain events id ws = (
    publish_all-broadcast_of to_json events new_bus,
    ap (split_at 10) (publish_all-Agrees events new_bus ws new_bus-Agrees id)
        ∙ lines_read (sent_of id (publish_all to_json events new_bus).sent) plain,
  )
