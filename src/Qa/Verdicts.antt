-- ===== src/Qa/Verdicts.antt =====
-- What a verdict does to the session, and what the timer does to a verdict.
use hive_manager.Base.{
  ℕ, ◌≡◌, ◌≢◌, refl, sym, ap, ◌∙◌, Bool, true, false, ◌||◌, Option, none, some, [], ◌∷◌, String,
  str_eq, Text, any, if◌then◌else◌, Bool-cases, inl, inr, arith,
}
use hive_manager.Session.{
  SessionState, qa_passed, qa_inconclusive, next_qa_failure_iteration, Session,
}
use hive_manager.Qa.{
  done, Controller, find_session, put_session, persist, save_with, or_put_back, commit,
  cancel_qa_timeout, touch, normalize, is_pass, is_fail, is_prince, is_qa_in_progress,
  set_session_state_with_events,
}
use hive_manager.Qa.Launches.{Launch, settle_verdict}
use hive_manager.Qa.Handlers.{verdict_on, record_http_qa_verdict}
use hive_manager.Qa.Timer.{timer_check, in_qa, fire_on, timer_fire}
use hive_manager.Qa.Keep.{find-id, state_of, timer_gone}
use hive_manager.Qa.Applied.{
  verdict_state, applied_lem, touch-id, touch-agents, touch-state, touch-ceiling,
}
use hive_manager.Qa.Keeping.{put-found, respawn-Keeps}

commit-saves :
    (id : String) (s u : Session) (c : Controller)
    → find_session id c.sessions ≡ some s
    → str_eq u.id id ≡ true
    → c.saves ≡ []
    → (c' : Controller) × (commit id s u c ≡ (true, c'))
      × (find_session id c'.sessions ≡ some u)
      × (c'.timers ≡ c.timers)
      × (c'.has_storage ≡ c.has_storage)
unfolding commit persist
commit-saves id s u c found k e = elim (Bool-cases c.has_storage) [
  | inl attached ↦ (
    record (put_session id u c) { saved = u ∷ c.saved },
    ap
          (λ b.
            or_put_back id s
              (if b then save_with c.saves u (put_session id u c) else (true, put_session id u c)))
          attached
        ∙ ap (λ l. or_put_back id s (save_with l u (put_session id u c))) e,
    put-found id s u c found k,
    refl,
    refl,
  )
  | inr bare ↦ (
    put_session id u c,
    ap
        (λ b.
          or_put_back id s
            (if b then save_with c.saves u (put_session id u c) else (true, put_session id u c)))
        bare,
    put-found id s u c found k,
    refl,
    refl,
  )
]

verdict_facts :
    (alive : String → Bool) (fate : Launch) (now : ℕ) (id evaluator_id : String) (verdict : Text)
    (commit_sha : Option String) (s : Session) (c : Controller)
    → find_session id c.sessions ≡ some s
    → is_qa_in_progress s.state ≡ true
    → (is_pass (normalize verdict) || is_fail (normalize verdict)) ≡ true
    → c.saves ≡ []
    → let (outcome, c') =
        record_http_qa_verdict alive fate now id evaluator_id verdict commit_sha c in
      let next =
        verdict_state
          (any is_prince s.agents)
          (is_pass (normalize verdict))
          (next_qa_failure_iteration s.state)
          s.max_qa_iterations in
      (outcome ≡ done next)
      × (state_of (find_session id c'.sessions) ≡ some next)
      × (any (λ t. str_eq t id) c'.timers ≡ false)
      × (c'.has_storage ≡ c.has_storage)
unfolding record_http_qa_verdict verdict_on settle_verdict cancel_qa_timeout
verdict_facts alive fate now id evaluator_id verdict commit_sha s c found qa ok e =
    let touched = touch now s in
    let (r, applied, same, moved_to, target) =
      applied_lem touched (normalize verdict) (some evaluator_id) commit_sha
        (any is_prince touched.agents) ok in
    let keeps : str_eq r.1.id id ≡ true =
      ap (λ i. str_eq i id) (same ∙ touch-id now s) ∙ find-id id c.sessions s found in
    let (c2, committed, found2, _, kept2) = commit-saves id s r.1 c found keeps e in
    let ((s3, found3, state3), timers3, kept3) =
      respawn-Keeps alive fate now id r.0.0 r.1 (cancel_qa_timeout id c2) found2 in
    let next_eq : r.0.0
        ≡ verdict_state (any is_prince s.agents) (is_pass (normalize verdict))
            (next_qa_failure_iteration s.state) s.max_qa_iterations =
      target ∙ rw (touch-agents now s, touch-state now s, touch-ceiling now s) refl in
    rw (ok, found, qa, applied, committed)
      (
        ap done next_eq,
        ap state_of found3 ∙ ap some (state3 ∙ moved_to ∙ next_eq),
        rw timers3 (timer_gone id c2.timers),
        kept3 ∙ kept2,
      )

-- While saves succeed, record_http_qa_verdict with an accepted verdict on a session in QA returns,
-- and leaves the session in, Prince remediation if the session has a Prince, else the passed state
-- for a pass, else the next failure or the end of the retries for a fail; and the session's timer
-- is cancelled, whatever becomes of the Prince's processes.
pub verdict_lem :
    (alive : String → Bool) (fate : Launch) (now : ℕ) (id evaluator_id : String) (verdict : Text)
    (commit_sha : Option String) (s : Session) (c : Controller)
    → find_session id c.sessions ≡ some s
    → is_qa_in_progress s.state ≡ true
    → (is_pass (normalize verdict) || is_fail (normalize verdict)) ≡ true
    → c.saves ≡ []
    → let (outcome, c') =
        record_http_qa_verdict alive fate now id evaluator_id verdict commit_sha c in
      let next =
        verdict_state
          (any is_prince s.agents)
          (is_pass (normalize verdict))
          (next_qa_failure_iteration s.state)
          s.max_qa_iterations in
      (outcome ≡ done next)
      × (state_of (find_session id c'.sessions) ≡ some next)
      × (any (λ t. str_eq t id) c'.timers ≡ false)
verdict_lem alive fate now id evaluator_id verdict commit_sha s c found qa ok e =
    let (out, state, gone, _) =
      verdict_facts alive fate now id evaluator_id verdict commit_sha s c found qa ok e in
    (out, state, gone)

no_state : (st : SessionState) → none ≢ some st
no_state st h = cc

state-found :
    (o : Option Session) (st : SessionState) → state_of o ≡ some st → (s : Session) × (o ≡ some s)
state-found none st h = elim (no_state st h) [ ]
state-found (some s) st h = (s, refl)

bare-persist : (u : Session) (c : Controller) → c.has_storage ≡ false → persist u c ≡ (true, c)
unfolding persist
bare-persist u c bare = ap (λ b. if b then save_with c.saves u c else (true, c)) bare

-- The timer's write, where no storage is attached.
fire-state :
    (id : String) (s : Session) (c : Controller)
    → find_session id c.sessions ≡ some s
    → c.has_storage ≡ false
    → state_of (find_session id (timer_fire id c).sessions) ≡ some qa_inconclusive
unfolding timer_fire fire_on set_session_state_with_events
fire-state id s c found bare =
    let u : Session = record s { state = qa_inconclusive } in
    rw (found, bare-persist u (put_session id u c) bare)
      (ap state_of (put-found id s u c found (find-id id c.sessions s found)))

-- If a passing verdict is recorded between the two locks of the timer's task, the call returns that
-- QA has passed, and the task then makes the session inconclusive. No Prince is in the session and
-- no storage is attached.
pub timer_overwrites :
    (alive : String → Bool) (fate : Launch) (now : ℕ) (id evaluator_id : String) (verdict : Text)
    (commit_sha : Option String) (s : Session) (c : Controller)
    → find_session id c.sessions ≡ some s
    → timer_check id c ≡ true
    → is_pass (normalize verdict) ≡ true
    → any is_prince s.agents ≡ false
    → c.has_storage ≡ false
    → c.saves ≡ []
    → let (outcome, c') =
        record_http_qa_verdict alive fate now id evaluator_id verdict commit_sha c in
      (outcome ≡ done qa_passed)
      × (state_of (find_session id c'.sessions) ≡ some qa_passed)
      × (state_of (find_session id (timer_fire id c').sessions) ≡ some qa_inconclusive)
unfolding timer_check
timer_overwrites alive fate now id evaluator_id verdict commit_sha s c found check pass alone st e =
    let qa : is_qa_in_progress s.state ≡ true = ap in_qa (sym found) ∙ check in
    let ok : (is_pass (normalize verdict) || is_fail (normalize verdict)) ≡ true = ground arith in
    let (out, state, _, kept) =
      verdict_facts alive fate now id evaluator_id verdict commit_sha s c found qa ok e in
    let next_eq : verdict_state (any is_prince s.agents) (is_pass (normalize verdict))
          (next_qa_failure_iteration s.state) s.max_qa_iterations
        ≡ qa_passed =
      rw (alone, pass) refl in
    let c' = (record_http_qa_verdict alive fate now id evaluator_id verdict commit_sha c).1 in
    let (s', found') = state-found (find_session id c'.sessions) _ state in
    (out ∙ ap done next_eq, state ∙ ap some next_eq, fire-state id s' c' found' (kept ∙ st))
