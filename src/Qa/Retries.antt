-- ===== src/Qa/Retries.antt =====
-- The failed verdicts of a session, and the ceiling on them.
use hive_manager.Base.{
  ℕ, zero, suc, ◌+◌, ◌≡◌, ◌≤◌, ◌<◌, ltb, refl, ap, ◌∙◌, true, false, Option, none, some, Text,
  codes, text_eq, text_eq_iff, if◌then◌else◌, Bool-cases, inl, inr, arith, min,
}
use hive_manager.Session.{
  SessionState, qa_failed, qa_max_retries_exceeded, qa_in_progress_state, next_qa_failure_iteration,
  Session,
}
use hive_manager.Qa.{
  Changes, apply_qa_verdict_to_session, is_pass, is_fail, moved, exhausted,
  set_session_state_with_events,
}

pub fail_not_pass : (v : Text) → is_fail v ≡ true → is_pass v ≡ false
fail_not_pass v h = elim (Bool-cases (text_eq v (codes "FAIL"))) [
  | inl e ↦ ap is_pass ((text_eq_iff v (codes "FAIL")).0 e)
  | inr n ↦ ap is_pass ((text_eq_iff v (codes "QA_VERDICT: FAIL")).0 (ground arith))
]

-- The session that an applied verdict leaves.
abbrev pub kept : Session → Option ((SessionState × Changes) × Session) → Session
kept s none = s
kept s (some (out, s')) = s'

-- QA begins again, and its verdict is a failure.
abbrev pub failed_round : Text → Session → Session
unfolding apply_qa_verdict_to_session qa_in_progress_state
failed_round v s = kept s (
    apply_qa_verdict_to_session (record s { state = qa_in_progress_state s.state }) v none none
      false)

abbrev pub failed_rounds : Text → ℕ → Session → Session
unfolding failed_round
failed_rounds v zero s = s
failed_rounds v (suc k) s = failed_round v (failed_rounds v k s)

-- What a failed round leaves of the state and the ceiling.
round-state :
    (v : Text) (s : Session)
    → is_fail v ≡ true
    → ((failed_round v s).state ≡ (
        if ltb s.max_qa_iterations (next_qa_failure_iteration (qa_in_progress_state s.state))
        then qa_max_retries_exceeded
        else qa_failed (next_qa_failure_iteration (qa_in_progress_state s.state))))
      × ((failed_round v s).max_qa_iterations ≡ s.max_qa_iterations)
unfolding failed_round apply_qa_verdict_to_session moved exhausted set_session_state_with_events
round-state v s h =
    let next = next_qa_failure_iteration (qa_in_progress_state s.state) in
    elim (Bool-cases (ltb s.max_qa_iterations next)) [
      | inl over ↦ rw (fail_not_pass v h, h, over) (refl, refl)
      | inr within ↦ rw (fail_not_pass v h, h, within) (refl, refl)
    ]

-- A session in which no failed verdict has been counted, with a ceiling of at least one.
abbrev pub IsFresh : Session → Type 0
IsFresh s = next_qa_failure_iteration (qa_in_progress_state s.state) ≡ 1

rounds-ceiling :
    (v : Text) (k : ℕ) (s : Session)
    → is_fail v ≡ true
    → (failed_rounds v k s).max_qa_iterations ≡ s.max_qa_iterations
unfolding failed_rounds
rounds-ceiling v zero s h = refl
rounds-ceiling v (suc k) s h = (round-state v (failed_rounds v k s) h).1 ∙ rounds-ceiling v k s h

counted : (n : ℕ) → next_qa_failure_iteration (qa_in_progress_state (qa_failed n)) ≡ min 255 (n + 1)
unfolding next_qa_failure_iteration qa_in_progress_state
counted n = refl

state_within :
    (ceiling next n : ℕ)
    → next ≡ n
    → n ≤ ceiling
    → (if ltb ceiling next then qa_max_retries_exceeded else qa_failed next) ≡ qa_failed n
state_within ceiling next n e h = ground arith

state_over :
    (ceiling next n : ℕ)
    → next ≡ n
    → ceiling < n
    → (if ltb ceiling next then qa_max_retries_exceeded else qa_failed next)
      ≡ qa_max_retries_exceeded
state_over ceiling next n e h = ground arith

rounds-state :
    (v : Text) (k : ℕ) (s : Session)
    → is_fail v ≡ true
    → IsFresh s
    → k < s.max_qa_iterations
    → s.max_qa_iterations < 256
    → (failed_rounds v (suc k) s).state ≡ qa_failed (suc k)
unfolding failed_rounds
rounds-state v zero s h fresh low byte =
    (round-state v s h).0 ∙ state_within s.max_qa_iterations _ 1 fresh (ground arith)
rounds-state v (suc k) s h fresh low byte =
    let before = rounds-state v k s h fresh (omega arith) byte in
    let at = failed_rounds v (suc k) s in
    (round-state v at h).0
    ∙ state_within at.max_qa_iterations _ (suc (suc k))
        (ap (λ st. next_qa_failure_iteration (qa_in_progress_state st)) before
          ∙ counted (suc k)
          ∙ ground arith)
        (ground (arith, rounds-ceiling v (suc k) s h))

last_round :
    (v : Text) (s : Session) (m : ℕ)
    → is_fail v ≡ true
    → IsFresh s
    → m ≡ s.max_qa_iterations
    → 0 < m
    → m < 255
    → (failed_rounds v (suc m) s).state ≡ qa_max_retries_exceeded
unfolding failed_rounds
last_round v s zero h fresh e up low = elim up [ ]
last_round v s (suc j) h fresh e up low =
    let at = failed_rounds v (suc j) s in
    (round-state v at h).0
    ∙ state_over at.max_qa_iterations _ (suc (suc j))
        (ap (λ st. next_qa_failure_iteration (qa_in_progress_state st))
            (rounds-state v j s h fresh (omega (arith, e)) (omega (arith, e)))
          ∙ counted (suc j)
          ∙ ground arith)
        (ground (arith, rounds-ceiling v (suc j) s h))

-- From a session without a counted failure, with a ceiling between 1 and 254, each of the first
-- failed QA rounds, as many as the ceiling, is counted in the session's state, and the next one
-- ends the retries. No round goes to the Prince.
pub rounds_lem :
    (v : Text) (s : Session)
    → is_fail v ≡ true
    → IsFresh s
    → 0 < s.max_qa_iterations
    → s.max_qa_iterations < 255
    → ((k : ℕ) → k < s.max_qa_iterations → (failed_rounds v (suc k) s).state ≡ qa_failed (suc k))
      × ((failed_rounds v (suc s.max_qa_iterations) s).state ≡ qa_max_retries_exceeded)
rounds_lem v s h fresh up low = (
  λ k b. rounds-state v k s h fresh b (omega arith),
  last_round v s s.max_qa_iterations h fresh refl up low,
)

-- With a ceiling of 255, a session without a counted failure is in the failed state after any
-- number of failed QA rounds, its count stopping at 255; no round goes to the Prince.
pub endless_at_255 :
    (v : Text) (k : ℕ) (s : Session)
    → is_fail v ≡ true
    → IsFresh s
    → s.max_qa_iterations ≡ 255
    → (failed_rounds v (suc k) s).state ≡ qa_failed (min 255 (suc k))
unfolding failed_rounds
endless_at_255 v zero s h fresh top =
    (round-state v s h).0 ∙ state_within s.max_qa_iterations _ 1 fresh (omega (arith, top))
endless_at_255 v (suc k) s h fresh top =
    let at = failed_rounds v (suc k) s in
    (round-state v at h).0
    ∙ state_within at.max_qa_iterations _ (min 255 (suc (suc k)))
        (ap (λ st. next_qa_failure_iteration (qa_in_progress_state st))
            (endless_at_255 v k s h fresh top)
          ∙ counted (min 255 (suc k))
          ∙ ground arith)
        (ground (arith, rounds-ceiling v (suc k) s h))
