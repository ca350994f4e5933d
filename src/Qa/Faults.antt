-- ===== src/Qa/Faults.antt =====
-- A save that fails: the session is put back.
use hive_manager.Base.{
  ℕ, ◌≡◌, refl, ap, ◌∙◌, Bool, true, false, ◌||◌, Option, some, List, ◌∷◌, String, str_eq, Text,
  any, if◌then◌else◌,
}
use hive_manager.Session.{SessionState, qa_inconclusive, Session}
use hive_manager.Qa.{
  refused, storage_failed, Controller, find_session, put_session, persist, save_with, or_put_back,
  cancel_qa_timeout, touch, commit, normalize, is_pass, is_fail, is_prince, is_qa_in_progress,
  set_session_state_with_events,
}
use hive_manager.Qa.Launches.{Launch, is_prince_remediation, settle_verdict}
use hive_manager.Qa.Handlers.{
  verdict_on, record_http_qa_verdict, inconclusive_on, mark_qa_inconclusive, prince_target,
  prince_verdict_on, prince_verdict_for, record_prince_verdict,
}
use hive_manager.Qa.Applied.{applied_lem, touch-id}
use hive_manager.Qa.Keep.{IsOnly, put_back, find-id, timer_gone}

pub persist-fails :
    (u : Session) (rest : List Bool) (c : Controller)
    → c.has_storage ≡ true
    → c.saves ≡ false ∷ rest
    → persist u c ≡ (false, record c { saves = rest })
unfolding persist
persist-fails u rest c st f =
    ap (λ b. if b then save_with c.saves u c else (true, c)) st ∙ ap (λ l. save_with l u c) f

commit-fails :
    (id : String) (s u : Session) (rest : List Bool) (c : Controller)
    → c.has_storage ≡ true
    → c.saves ≡ false ∷ rest
    → IsOnly id s c
    → str_eq u.id id ≡ true
    → commit id s u c ≡ (false, record c { saves = rest })
unfolding commit
commit-fails id s u rest c st f only k =
    ap (or_put_back id s) (persist-fails u rest (put_session id u c) st f)
    ∙ ap (λ ss. (false, record c { sessions = ss; saves = rest }))
        (put_back id s u c.sessions only k)

-- A save that fails undoes record_http_qa_verdict: the call says so, and sessions, timers and
-- emitted changes are as before. The verdict is an accepted one, the session is in QA, and no other
-- session has its id.
pub verdict_undone :
    (alive : String → Bool) (fate : Launch) (now : ℕ) (id evaluator_id : String) (verdict : Text)
    (commit_sha : Option String) (s : Session) (rest : List Bool) (c : Controller)
    → find_session id c.sessions ≡ some s
    → IsOnly id s c
    → is_qa_in_progress s.state ≡ true
    → (is_pass (normalize verdict) || is_fail (normalize verdict)) ≡ true
    → c.has_storage ≡ true
    → c.saves ≡ false ∷ rest
    → record_http_qa_verdict alive fate now id evaluator_id verdict commit_sha c
      ≡ (refused storage_failed, record c { saves = rest })
unfolding record_http_qa_verdict verdict_on settle_verdict
verdict_undone alive fate now id evaluator_id verdict commit_sha s rest c found only qa ok st f =
    let touched = touch now s in
    let (r, applied, same, _, _) =
      applied_lem touched (normalize verdict) (some evaluator_id) commit_sha
        (any is_prince touched.agents) ok in
    let keeps : str_eq r.1.id id ≡ true =
      ap (λ i. str_eq i id) (same ∙ touch-id now s) ∙ find-id id c.sessions s found in
    rw (ok, found, qa, applied, commit-fails id s r.1 rest c st f only keeps) refl

-- A save that fails undoes record_prince_verdict: the call says so, and sessions, timers and
-- emitted changes are as before. The verdict is an accepted one, the session is in Prince
-- remediation, and no other session has its id.
pub prince_undone :
    (now : ℕ) (id : String) (verdict : Text) (target : SessionState) (s : Session)
    (rest : List Bool) (c : Controller)
    → find_session id c.sessions ≡ some s
    → IsOnly id s c
    → is_prince_remediation s.state ≡ true
    → prince_target (normalize verdict) ≡ some target
    → c.has_storage ≡ true
    → c.saves ≡ false ∷ rest
    → record_prince_verdict now id verdict c ≡ (refused storage_failed, record c { saves = rest })
unfolding record_prince_verdict prince_verdict_for prince_verdict_on set_session_state_with_events
prince_undone now id verdict target s rest c found only pr t st f =
    let keeps : str_eq (touch now s).id id ≡ true =
      ap (λ i. str_eq i id) (touch-id now s) ∙ find-id id c.sessions s found in
    rw
      (
        t,
        found,
        pr,
        commit-fails id s (record (touch now s) { state = target }) rest c st f only keeps,
      )
      refl

-- A save that fails in mark_qa_inconclusive leaves the session as it was, in QA, but without its
-- timer. No other session has its id.
pub inconclusive_strands :
    (id : String) (s : Session) (rest : List Bool) (c : Controller)
    → find_session id c.sessions ≡ some s
    → IsOnly id s c
    → is_qa_in_progress s.state ≡ true
    → c.has_storage ≡ true
    → c.saves ≡ false ∷ rest
    → let (outcome, c') = mark_qa_inconclusive id c in
      (outcome ≡ refused storage_failed)
      × (find_session id c'.sessions ≡ some s)
      × (any (λ t. str_eq t id) c'.timers ≡ false)
unfolding mark_qa_inconclusive inconclusive_on set_session_state_with_events cancel_qa_timeout
inconclusive_strands id s rest c found only qa st f =
    let cancelled = cancel_qa_timeout id c in
    rw
      (
        found,
        qa,
        commit-fails id s (record s { state = qa_inconclusive }) rest cancelled st f only
            (find-id id c.sessions s found),
      )
      (refl, found, timer_gone id c.timers)
