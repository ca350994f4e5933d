-- ===== src/Qa/Panics.antt =====
-- The `unreachable!` of the code that applies a verdict is not reached.
use hive_manager.Base.{
  ℕ, ◌≡◌, refl, Bool, true, false, ◌||◌, Option, none, some, String, Text, any, Bool-cases, inl,
  inr,
}
use hive_manager.Session.{SessionState, Session}
use hive_manager.Qa.{
  Changes, Outcome, panicked, Controller, find_session, cancel_qa_timeout, touch, normalize,
  is_pass, is_fail, is_prince, is_qa_in_progress, commit,
}
use hive_manager.Qa.Launches.{Launch, settle_verdict}
use hive_manager.Qa.Handlers.{
  verdict_on, record_http_qa_verdict, forced_settle, forced_on, on_qa_verdict,
}
use hive_manager.Qa.Applied.{applied_lem}

abbrev pub is_panicked : Outcome SessionState → Bool
is_panicked panicked = true
is_panicked _ = false

settled :
    (alive : String → Bool) (fate : Launch) (now : ℕ) (id : String) (s : Session)
    (r : (SessionState × Changes) × Session) (c : Controller)
    → is_panicked (settle_verdict alive fate now id s (some r) c).0 ≡ false
unfolding settle_verdict
settled alive fate now id s r c = elim (Bool-cases (commit id s r.1 c).0) [
  | inl ok ↦ rw ok refl
  | inr failed ↦ rw failed refl
]

found_calm :
    (alive : String → Bool) (fate : Launch) (now : ℕ) (id evaluator_id : String) (v : Text)
    (commit_sha : Option String) (o : Option Session) (c : Controller)
    → (is_pass v || is_fail v) ≡ true
    → is_panicked (verdict_on alive fate now id evaluator_id v commit_sha o c).0 ≡ false
unfolding verdict_on
found_calm alive fate now id evaluator_id v commit_sha none c ok = refl
found_calm alive fate now id evaluator_id v commit_sha (some s) c ok =
    let touched = touch now s in
    let (r, applied, _, _, _) =
      applied_lem touched v (some evaluator_id) commit_sha (any is_prince touched.agents) ok in
    elim (Bool-cases (is_qa_in_progress s.state)) [
      | inl qa ↦ rw (qa, applied) (settled alive fate now id s r c)
      | inr other ↦ rw other refl
    ]

forced_calm :
    (now : ℕ) (id : String) (v : Text) (o : Option Session) (c : Controller)
    → (is_pass v || is_fail v) ≡ true
    → is_panicked (forced_on now id v o c).0 ≡ false
unfolding forced_on forced_settle
forced_calm now id v none c ok = refl
forced_calm now id v (some s) c ok =
    let (r, applied, _, _, _) = applied_lem s v none none false ok in rw applied refl

-- No verdict makes record_http_qa_verdict or on_qa_verdict reach the unreachable branch of
-- apply_qa_verdict_to_session, whatever its text, the state of the controller and the environment.
pub no_panic :
    (alive : String → Bool) (fate : Launch) (now : ℕ) (id evaluator_id : String) (verdict : Text)
    (commit_sha : Option String) (c : Controller)
    → (is_panicked (record_http_qa_verdict alive fate now id evaluator_id verdict commit_sha c).0
        ≡ false)
      × (is_panicked (on_qa_verdict now id verdict c).0 ≡ false)
unfolding record_http_qa_verdict on_qa_verdict
no_panic alive fate now id evaluator_id verdict commit_sha c =
    let v = normalize verdict in
    elim (Bool-cases (is_pass v || is_fail v)) [
      | inl ok ↦ rw ok (
        found_calm alive fate now id evaluator_id v commit_sha (find_session id c.sessions) c ok,
        forced_calm now id v (find_session id c.sessions) (cancel_qa_timeout id c) ok,
      )
      | inr bad ↦ rw bad (refl, refl)
    ]
