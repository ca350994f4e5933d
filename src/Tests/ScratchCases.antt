-- ===== src/Tests/ScratchCases.antt =====
-- The operator's terminals at concrete ids.
use hive_manager.Base.{◌≡◌, refl, some, [], codes}
use hive_manager.Session.{running, is_terminal_session_state}
use hive_manager.Scratch.{
  Scratch, reserve_scratch_pty, reserve_if, validate_scratch_pty_session_locked, refuses_state,
}
use hive_manager.Scratch.Owners.{initially, reserved, one_owner}

abbrev one_terminal : Scratch
unfolding reserve_scratch_pty
one_terminal =
    (reserve_scratch_pty (λ id. some running) (codes "s1") (codes "scratch:s1:a")
      (record { owned = []; cleaning = [] })).1

one_owner_example : codes "s1" ≡ codes "s1"
unfolding one_terminal reserve_scratch_pty reserve_if validate_scratch_pty_session_locked
    is_terminal_session_state refuses_state
one_owner_example =
    one_owner one_terminal (codes "s1") (codes "s1") (codes "scratch:s1:a")
      (reserved (λ id. some running) (codes "s1") (codes "scratch:s1:a")
        (record { owned = []; cleaning = [] }) initially)
      refl refl
