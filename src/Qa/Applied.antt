-- ===== src/Qa/Applied.antt =====
-- What applying a verdict does to a session.
use hive_manager.Base.{
  ℕ, ◌≡◌, refl, Bool, true, false, ◌||◌, Option, none, some, String, Text, if◌then◌else◌,
  Bool-cases, inl, inr, arith, ltb,
}
use hive_manager.Session.{
  SessionState, next_qa_failure_iteration, qa_passed, qa_failed, qa_max_retries_exceeded,
  prince_remediation, Session,
}
use hive_manager.Qa.{
  Changes, touch, is_pass, is_fail, apply_qa_verdict_to_session, set_session_state_with_events,
  moved, exhausted, with_commit,
}

-- The state that a verdict leads to, with and without a Prince.
abbrev pub verdict_state : Bool → Bool → ℕ → ℕ → SessionState
verdict_state true pass next ceiling = prince_remediation
verdict_state false true next ceiling = qa_passed
verdict_state false false next ceiling =
    if ltb ceiling next then qa_max_retries_exceeded else qa_failed next

with_commit-id : (s : Session) (eid sha : Option String) → (with_commit eid sha s).id ≡ s.id
with_commit-id s none sha = refl
with_commit-id s (some id) sha = refl

-- An accepted verdict is applied, without a panic, to the session with the id.
abbrev pub Applied : Session → Bool → Bool → Option ((SessionState × Changes) × Session) → Type 0
Applied s route pass o =
    (r : (SessionState × Changes) × Session) × (o ≡ some r)
    × (r.1.id ≡ s.id)
    × (r.1.state ≡ r.0.0)
    × (r.0.0 ≡ verdict_state route pass (next_qa_failure_iteration s.state) s.max_qa_iterations)

pub applied_lem :
    (s : Session) (v : Text) (eid sha : Option String) (route : Bool)
    → (is_pass v || is_fail v) ≡ true
    → Applied s route (is_pass v) (apply_qa_verdict_to_session s v eid sha route)
unfolding apply_qa_verdict_to_session moved exhausted set_session_state_with_events
applied_lem s v eid sha true h = (_, refl, with_commit-id s eid sha, refl, refl)
applied_lem s v eid sha false h = elim (Bool-cases (is_pass v)) [
  | inl p ↦ rw p (_, refl, with_commit-id s eid sha, refl, refl)
  | inr n ↦ failed s v eid sha n (ground arith)
]
  where
    failed :
        (s : Session) (v : Text) (eid sha : Option String)
        → is_pass v ≡ false
        → is_fail v ≡ true
        → Applied s false (is_pass v) (apply_qa_verdict_to_session s v eid sha false)
    failed s v none sha n f =
        elim (Bool-cases (ltb s.max_qa_iterations (next_qa_failure_iteration s.state))) [
          | inl over ↦ rw (n, f, over) (_, refl, refl, refl, refl)
          | inr within ↦ rw (n, f, within) (_, refl, refl, refl, refl)
        ]
    failed s v (some id) sha n f =
        elim (Bool-cases (ltb s.max_qa_iterations (next_qa_failure_iteration s.state))) [
          | inl over ↦ rw (n, f, over) (_, refl, refl, refl, refl)
          | inr within ↦ rw (n, f, within) (_, refl, refl, refl, refl)
        ]

pub touch-id : (now : ℕ) (s : Session) → (touch now s).id ≡ s.id
touch-id now s = elim (Bool-cases (ltb s.last_activity_at now)) [
  | inl later ↦ rw (touch, later) refl
  | inr not_later ↦ rw (touch, not_later) refl
]

pub touch-agents : (now : ℕ) (s : Session) → (touch now s).agents ≡ s.agents
touch-agents now s = elim (Bool-cases (ltb s.last_activity_at now)) [
  | inl later ↦ rw (touch, later) refl
  | inr not_later ↦ rw (touch, not_later) refl
]

pub touch-state : (now : ℕ) (s : Session) → (touch now s).state ≡ s.state
touch-state now s = elim (Bool-cases (ltb s.last_activity_at now)) [
  | inl later ↦ rw (touch, later) refl
  | inr not_later ↦ rw (touch, not_later) refl
]

pub touch-ceiling : (now : ℕ) (s : Session) → (touch now s).max_qa_iterations ≡ s.max_qa_iterations
touch-ceiling now s = elim (Bool-cases (ltb s.last_activity_at now)) [
  | inl later ↦ rw (touch, later) refl
  | inr not_later ↦ rw (touch, not_later) refl
]
