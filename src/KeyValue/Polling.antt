-- ===== src/KeyValue/Polling.antt =====
-- What a poll sees of a write.
use hive_manager.Base.{
  ℕ, ◌≡◌, refl, ◌∙◌, Bool, false, ◌&&◌, List, [], ◌∷◌, String, str_eq, str_eq_iff, select, any,
  any-sort_by, any-select, ltb, leb, Bool-cases, inl, inr, arith, count_where, ◌≤◌,
}
use hive_manager.KeyValue.{StateRow, is_key, write, poll_changed}

module _ {J : Type 0} where
  -- How many rows have a key.
  abbrev pub rows_of : String → String → List (StateRow J) → ℕ
  rows_of s k t = count_where (is_key s k) t

  any-none :
      (s k : String) (p : StateRow J → Bool) (t : List (StateRow J))
      → rows_of s k t ≡ 0
      → any (λ r. p r && is_key s k r) t ≡ false
  any-none s k p [] h = refl
  any-none s k p (r ∷ t) h = ground (arith, any-none s k p t)

  -- The rows of the session that are newer than the watermark.
  abbrev pub newer : String → ℕ → StateRow J → Bool
  newer s since r = str_eq r.session_id s && ltb since r.updated_at

  any-write :
      (s k : String) (v : J) (u since : ℕ) (t : List (StateRow J))
      → rows_of s k t ≤ 1
      → any (λ r. newer s since r && is_key s k r) (write s k v u t) ≡ ltb since u
  unfolding write
  any-write s k v u since [] h = ground (arith, str_eq_iff s s, str_eq_iff k k)
  any-write s k v u since (r ∷ t) h = elim (Bool-cases (is_key s k r)) [
    | inl here ↦
        let rest : any (λ x. newer s since x && is_key s k x) t ≡ false =
          any-none s k (newer s since) t (ground arith) in
        ground arith
    | inr on ↦ ground (arith, any-write s k v u since t)
  ]

  -- A poll of a session has the row of a key of it that was just written exactly if the write is
  -- later than the watermark of the poll; at the time of the watermark it is missed. The key has at
  -- most one row before.
  pub poll_lem :
      (s k : String) (v : J) (u since : ℕ) (t : List (StateRow J))
      → rows_of s k t ≤ 1
      → any (is_key s k) (poll_changed s since (write s k v u t)) ≡ ltb since u
  unfolding poll_changed
  poll_lem s k v u since t h =
      any-sort_by (λ a b. leb a.updated_at b.updated_at) (is_key s k)
        (select (newer s since) (write s k v u t))
      ∙ any-select (is_key s k) (newer s since) (write s k v u t)
      ∙ any-write s k v u since t h
