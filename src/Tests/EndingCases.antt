-- ===== src/Tests/EndingCases.antt =====
-- The ends of sessions at concrete inputs.
use hive_manager.Base.{
  ◌≡◌, ◌-◌, ◌/◌, ◌+◌, refl, Bool, true, false, not, ◌&&◌, some, [], ◌∷◌, Text, codes, text_eq,
  arith,
}
use hive_manager.Session.{Session, running, hive, no_auth}
use hive_manager.Qa.{Controller, find_session}
use hive_manager.Qa.Completion.{quiescence_blocked, quiescence, completion_blocked}
use hive_manager.Scratch.{Scratch, owns}
use hive_manager.Ending.{
  storage, blocked, can_complete_session, mark_session_completed, stop_session, close_session,
}
use hive_manager.Ending.Completed.{failed_save_blocks}
use hive_manager.Ending.Terminals.{ending-owns}

abbrev quiet : Session
quiet = record {
  id = "s1";
  session_type = hive 2;
  state = running;
  last_activity_at = 5;
  agents = [];
  max_qa_iterations = 3;
  qa_timeout_secs = 300;
  auth_strategy = no_auth;
}

abbrev unsaved : Controller
unsaved = record {
  sessions = quiet ∷ [];
  has_storage = true;
  saves = false ∷ [];
  saved = [];
  timers = [];
  emitted = [];
  blocked_files = [];
}

abbrev two_terminals : Scratch
two_terminals = record {
  owned = (codes "s1", codes "scratch:s1:a") ∷ (codes "s1", codes "scratch:s1:b") ∷ [];
  cleaning = [];
}

abbrev kills_a : Text → Bool
kills_a p = text_eq p (codes "scratch:s1:a")

failed_save_blocks_example :
    let (e, c') = mark_session_completed true true 700000 700001 "s1" unsaved in
    (e ≡ some storage)
    × (find_session "s1" c'.sessions ≡ some (record quiet { last_activity_at = 700001 }))
    × (can_complete_session true 700002 "s1" c'
        ≡ some (blocked (quiescence_blocked ((700001 + quiescence - 700002) / 1000))))
unfolding completion_blocked
failed_save_blocks_example =
    failed_save_blocks true true 700000 700001 700002 "s1" quiet [] unsaved refl refl (omega arith)
      refl refl (omega arith)

ending-owns_example :
    (owns
        (codes "s1")
        (codes "scratch:s1:b")
        (stop_session kills_a 9 "s1" unsaved two_terminals).1.1
      ≡ (owns (codes "s1") (codes "scratch:s1:b") two_terminals
          && not (kills_a (codes "scratch:s1:b"))))
    × (owns
          (codes "s1")
          (codes "scratch:s1:b")
          (close_session kills_a 9 "s1" unsaved two_terminals).1.1
        ≡ (owns (codes "s1") (codes "scratch:s1:b") two_terminals
            && not (kills_a (codes "scratch:s1:b"))))
ending-owns_example =
    ending-owns kills_a 9 "s1" (codes "scratch:s1:b") quiet unsaved two_terminals refl
