-- ===== src/Tests/KeyValueCases.antt =====
-- The key/value table at concrete keys.
use hive_manager.Base.{ℕ, List, [], ◌∷◌}
use hive_manager.KeyValue.{StateRow}

abbrev two_keys : List (StateRow ℕ)
two_keys =
    record { session_id = "s1"; key = "route"; value = 1; updated_at = 5 }
    ∷ record { session_id = "s2"; key = "route"; value = 2; updated_at = 6 }
    ∷ []
