-- ===== src/Tests/InjectionCases.antt =====
-- Messages to agents at concrete inputs.
use hive_manager.Base.{◌≡◌, refl, true, false, some, [], ◌∷◌, ◌++◌, Text, codes}
use hive_manager.Injection.{not_authorized, Outcomes, format_agent_display, with_enter}
use hive_manager.Injection.Handlers.{
  queen_message, queen_peer, queen_inject, evaluator_message, evaluator_peer, evaluator_inject,
}
use hive_manager.Injection.Followed.{
  Follows, plan_of, queen_may, evaluator_may, queen_inject-Follows, evaluator_inject-Follows,
}

abbrev fine : Outcomes
fine = record { log_ok = true; pty_ok = true; peer_ok = false; has_window = true }

abbrev dead : Outcomes
dead = record { log_ok = true; pty_ok = false; peer_ok = true; has_window = true }

abbrev queen : Text
queen = codes "s-queen"

abbrev evaluator : Text
evaluator = codes "s-evaluator"

abbrev worker : Text
worker = codes "s-worker-1"

abbrev qa_worker : Text
qa_worker = codes "s-qa-worker-1"

display_worker : format_agent_display worker ≡ codes "WORKER-1"
unfolding format_agent_display
display_worker = refl

display_planner : format_agent_display (codes "s-planner-2-worker") ≡ codes "PLANNER-2"
unfolding format_agent_display
display_planner = refl

one_enter : with_enter (codes "go" ++ 10 ∷ 13 ∷ 10 ∷ []) ≡ codes "go" ++ 13 ∷ 10 ∷ []
unfolding with_enter
one_enter = refl

queen_to_qa : queen_may queen qa_worker ≡ false
unfolding queen_may
queen_to_qa = refl

abbrev switched : Text → Outcomes
switched i = dead

queen_inject-Follows_example :
    (queen_may queen evaluator ≡ false
      → queen_inject fine (codes "s") queen evaluator (codes "go") [] ≡ (some not_authorized, []))
    × (queen_may queen evaluator ≡ true
        → Follows
            (plan_of fine
              (codes "s")
              evaluator
              (codes "go")
              (queen_message queen evaluator (codes "go"))
              (queen_peer queen evaluator (codes "go")))
            []
            (queen_inject fine (codes "s") queen evaluator (codes "go") []))
queen_inject-Follows_example = queen_inject-Follows fine (codes "s") queen evaluator (codes "go") []

evaluator_inject-Follows_example :
    (evaluator_may evaluator queen ≡ false
      → evaluator_inject fine (codes "s") evaluator queen (codes "go") []
        ≡ (some not_authorized, []))
    × (evaluator_may evaluator queen ≡ true
        → Follows
            (plan_of fine
              (codes "s")
              queen
              (codes "go")
              (evaluator_message evaluator queen (codes "go"))
              (evaluator_peer evaluator queen (codes "go")))
            []
            (evaluator_inject fine (codes "s") evaluator queen (codes "go") []))
evaluator_inject-Follows_example =
    evaluator_inject-Follows fine (codes "s") evaluator queen (codes "go") []
