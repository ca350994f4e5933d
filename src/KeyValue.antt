-- ===== src/KeyValue.antt =====
-- src-tauri/src/storage/application_state.rs: the key/value table that the agents' turns start from.
-- A table is the list of its rows, and an operation is a function on it; that it may fail instead, and
-- then changes nothing, is the database's part. A row holds the value itself, whose type is the
-- parameter `J`: the JSON text of the column is taken to be read as the value that was written.
pub mod Keys
pub mod Polling
use hive_manager.Base.{
  ℕ, Bool, true, false, not, ◌&&◌, Option, none, some, List, [], ◌∷◌, String, str_eq, str_leb, ltb,
  leb, if◌then◌else◌, select, sort_by, update_where,
}

pub record StateRow (J : Type 0) : Type 0 where
  pub session_id : String
  pub key : String
  pub value : J
  pub updated_at : ℕ

module _ {J : Type 0} where
  -- The primary key.
  abbrev pub is_key : String → String → StateRow J → Bool
  is_key session_id key r = str_eq r.session_id session_id && str_eq r.key key

  -- `INSERT … ON CONFLICT(session_id, key) DO UPDATE`.
  unfoldable pub write : String → String → J → ℕ → List (StateRow J) → List (StateRow J)
  write session_id key value updated_at_ms [] =
      record { session_id = session_id; key = key; value = value; updated_at = updated_at_ms } ∷ []
  write session_id key value updated_at_ms (r ∷ rs) =
      if is_key session_id key r
      then record r { value = value; updated_at = updated_at_ms } ∷ rs
      else r ∷ write session_id key value updated_at_ms rs

  unfoldable pub read_application_state : String → List (StateRow J) → List (StateRow J)
  read_application_state session_id t =
      sort_by (λ a b. str_leb a.key b.key) (select (λ r. str_eq r.session_id session_id) t)

  unfoldable pub read_key : String → String → List (StateRow J) → Option (StateRow J)
  read_key session_id key [] = none
  read_key session_id key (r ∷ rs) =
      if is_key session_id key r then some r else read_key session_id key rs

  unfoldable pub poll_changed : String → ℕ → List (StateRow J) → List (StateRow J)
  poll_changed session_id since_updated_at_ms t =
      sort_by (λ a b. leb a.updated_at b.updated_at)
        (select (λ r. str_eq r.session_id session_id && ltb since_updated_at_ms r.updated_at) t)

  abbrev pub taken :
      String
      → String
      → List (StateRow J)
      → Option (StateRow J)
      → Option (StateRow J) × List (StateRow J)
  taken session_id key t none = (none, t)
  taken session_id key t (some row) = (some row, select (λ r. not (is_key session_id key r)) t)

  -- The read and the deletion are one transaction.
  unfoldable pub take_key :
      String → String → List (StateRow J) → Option (StateRow J) × List (StateRow J)
  unfolding read_key
  take_key session_id key t = taken session_id key t (read_key session_id key t)
