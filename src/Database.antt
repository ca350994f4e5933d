-- ===== src/Database.antt =====
-- src-tauri/src/storage/application_state.rs and storage/mod.rs: the shared connection. The mutex
-- serialises the statements, so a history is a sequence of them. SQLite itself is not modelled
-- beyond this: a statement either takes effect whole or fails and changes nothing; the environment
-- chooses which, by the list of `faults` (past its end no statement fails).
use hive_manager.Base.{◌≡◌, refl, ◌⊎◌, inl, inr, Option, none, some, List, [], ◌∷◌, String}

pub data StorageError : Type 0 where
  io json session_not_found invalid_path database : String → StorageError

pub data Result {ℓ} (A : Type ℓ) : Type ℓ where
  ok : A → Result A
  err : StorageError → Result A

pub record Db (T : Type 0) : Type 0 where
  pub table : T
  pub faults : List (Option StorageError)

abbrev attempt : {A T : Type 0} → List (Option StorageError) → (T → A × T) → T → Result A × Db T
attempt [] stmt t = (ok (stmt t).0, record { table = (stmt t).1; faults = [] })
attempt (none ∷ fs) stmt t = (ok (stmt t).0, record { table = (stmt t).1; faults = fs })
attempt (some e ∷ fs) stmt t = (err e, record { table = t; faults = fs })

-- The statement under the lock, or the error that the environment chose.
unfoldable pub with_conn : {A T : Type 0} → (T → A × T) → Db T → Result A × Db T
with_conn stmt db = attempt db.faults stmt db.table

-- A statement fails or goes through, and then some faults are left.
pub fault_cases :
    (fs : List (Option StorageError))
    → ((e : StorageError) × (rest : List (Option StorageError)) × (fs ≡ some e ∷ rest))
      ⊎ ((fs ≡ []) ⊎ ((rest : List (Option StorageError)) × (fs ≡ none ∷ rest)))
fault_cases [] = inr (inl refl)
fault_cases (none ∷ rest) = inr (inr (rest, refl))
fault_cases (some e ∷ rest) = inl (e, rest, refl)
