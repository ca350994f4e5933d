-- ===== src/KeyValue/Keys.antt =====
-- What is read from a key after writes and takes.
use hive_manager.Base.{
  ℕ, zero, suc, ◌≡◌, ◌≢◌, refl, sym, ap, ◌∙◌, Bool, true, false, not, ◌&&◌, Option, none, some,
  List, [], ◌∷◌, String, str_eq, str_eq_iff, select, if◌then◌else◌, Bool-cases, Option-cases, inl,
  inr, arith,
}
use hive_manager.KeyValue.{StateRow, is_key, write, read_key, taken, take_key}

self : (s k : String) → (str_eq s s && str_eq k k) ≡ true
self s k = ground (arith, str_eq_iff s s, str_eq_iff k k)

module _ {J : Type 0} where
  -- Two keys that one row has are the same.
  same_key :
      (s k s' k' : String) (r : StateRow J)
      → is_key s k r ≡ true
      → is_key s' k' r ≡ (str_eq s s' && str_eq k k')
  same_key s k s' k' r h =
      let e : r.session_id ≡ s = (str_eq_iff r.session_id s).0 (ground arith) in
      let f : r.key ≡ k = (str_eq_iff r.key k).0 (ground arith) in rw (e, f) refl

  other_key :
      (s k s' k' : String) (r : StateRow J)
      → is_key s k r ≡ false
      → is_key s' k' r ≡ true
      → (str_eq s s' && str_eq k k') ≡ false
  other_key s k s' k' r on found = elim (Bool-cases (str_eq s s' && str_eq k k')) [
    | inl hit ↦
        let p : s ≡ s' = (str_eq_iff s s').0 (ground arith) in
        let q : k ≡ k' = (str_eq_iff k k').0 (ground arith) in
        let clash = sym found ∙ sym (ap (λ x. is_key x k r) p ∙ ap (λ y. is_key s' y r) q) ∙ on in
        ground arith
    | inr miss ↦ miss
  ]

  -- The value that is read, with its time.
  abbrev pub seen : Option (StateRow J) → Option (J × ℕ)
  seen none = none
  seen (some r) = some (r.value, r.updated_at)

  seen-write :
      (s k s' k' : String) (v : J) (u : ℕ) (t : List (StateRow J))
      → seen (read_key s' k' (write s k v u t))
        ≡ (if str_eq s s' && str_eq k k' then some (v, u) else seen (read_key s' k' t))
  unfolding read_key write
  seen-write s k s' k' v u [] = elim (Bool-cases (str_eq s s' && str_eq k k')) [
    | inl hit ↦ rw hit refl
    | inr miss ↦ rw miss refl
  ]
  seen-write s k s' k' v u (r ∷ t) = elim (Bool-cases (is_key s k r)) [
    | inl here ↦ elim (Bool-cases (str_eq s s' && str_eq k k')) [
      | inl hit ↦ rw (here, same_key s k s' k' r here, hit) refl
      | inr miss ↦ rw (here, same_key s k s' k' r here, miss) refl
    ]
    | inr on ↦ elim (Bool-cases (is_key s' k' r)) [
      | inl found ↦ rw (on, found, other_key s k s' k' r on found) refl
      | inr not_found ↦ rw (on, not_found) (seen-write s k s' k' v u t)
    ]
  ]

  read-taken :
      (s k s' k' : String) (t : List (StateRow J))
      → read_key s' k' (select (λ r. not (is_key s k r)) t)
        ≡ (if str_eq s s' && str_eq k k' then none else read_key s' k' t)
  unfolding read_key
  read-taken s k s' k' [] = elim (Bool-cases (str_eq s s' && str_eq k k')) [
    | inl hit ↦ rw hit refl
    | inr miss ↦ rw miss refl
  ]
  read-taken s k s' k' (r ∷ t) = elim (Bool-cases (is_key s k r)) [
    | inl here ↦ elim (Bool-cases (str_eq s s' && str_eq k k')) [
      | inl hit ↦ rw (here, hit) (read-taken s k s' k' t ∙ rw hit refl)
      | inr miss ↦
          rw (here, miss, same_key s k s' k' r here) (read-taken s k s' k' t ∙ rw miss refl)
    ]
    | inr on ↦ elim (Bool-cases (is_key s' k' r)) [
      | inl found ↦ rw (on, found, other_key s k s' k' r on found) refl
      | inr not_found ↦ rw (on, not_found) (read-taken s k s' k' t)
    ]
  ]

  read-take :
      (s k s' k' : String) (t : List (StateRow J))
      → read_key s' k' (take_key s k t).1
        ≡ (if str_eq s s' && str_eq k k' then none else read_key s' k' t)
  unfolding take_key
  read-take s k s' k' t = elim (Option-cases (read_key s k t)) [
    | inl e ↦ rw e (missing (str_eq s s' && str_eq k k') refl e)
    | inr (r, e) ↦ rw e (read-taken s k s' k' t)
  ]
    where
      missing :
          (b : Bool)
          → (str_eq s s' && str_eq k k') ≡ b
          → read_key s k t ≡ none
          → read_key s' k' t ≡ (if b then none else read_key s' k' t)
      missing true h e =
          let p : s ≡ s' = (str_eq_iff s s').0 (ground arith) in
          let q : k ≡ k' = (str_eq_iff k k').0 (ground arith) in
          sym (ap (λ x. read_key x k t) p ∙ ap (λ y. read_key s' y t) q) ∙ e
      missing false h e = refl

  -- After a write of a key its value and time are read, after a take nothing, and the other keys of
  -- all sessions are read as before.
  pub read_lem :
      (s k s' k' : String) (v : J) (u : ℕ) (t : List (StateRow J))
      → (seen (read_key s' k' (write s k v u t))
          ≡ (if str_eq s s' && str_eq k k' then some (v, u) else seen (read_key s' k' t)))
        × (read_key s' k' (take_key s k t).1
            ≡ (if str_eq s s' && str_eq k k' then none else read_key s' k' t))
  read_lem s k s' k' v u t = (seen-write s k s' k' v u t, read-take s k s' k' t)

  abbrev pub count_take : Option (StateRow J) × List (StateRow J) → (List (StateRow J) → ℕ) → ℕ
  count_take (none, t) rest = rest t
  count_take (some r, t) rest = suc (rest t)

  -- How many of a number of takes of one key get a value.
  abbrev pub takes : ℕ → String → String → List (StateRow J) → ℕ
  takes zero s k t = 0
  takes (suc n) s k t = count_take (take_key s k t) (takes n s k)

  takes-none :
      (n : ℕ) (s k : String) (t : List (StateRow J)) → read_key s k t ≡ none → takes n s k t ≡ 0
  unfolding take_key
  takes-none zero s k t e = refl
  takes-none (suc n) s k t e =
      ap (λ o. count_take (taken s k t o) (takes n s k)) e ∙ takes-none n s k t e

  takes-some :
      (n : ℕ) (s k : String) (t : List (StateRow J)) (r : StateRow J)
      → read_key s k t ≡ some r
      → takes (suc n) s k t ≡ 1
  unfolding take_key
  takes-some n s k t r e =
      ap (λ o. count_take (taken s k t o) (takes n s k)) e
      ∙ ap suc (
          takes-none n s k (select (λ x. not (is_key s k x)) t)
            (read-taken s k s k t ∙ rw (self s k) refl))

  written :
      (o : Option (StateRow J)) (p : J × ℕ) → seen o ≡ some p → (r : StateRow J) × (o ≡ some r)
  written none p h = elim (nothing p h) [ ]
    where
      nothing : (p : J × ℕ) → none ≢ some p
      nothing p h = cc
  written (some r) p h = (r, refl)

  -- Once a key is written, exactly one of the next takes of it gets a value, however many takes
  -- there are.
  pub take_once :
      (n : ℕ) (s k : String) (v : J) (u : ℕ) (t : List (StateRow J))
      → takes (suc n) s k (write s k v u t) ≡ 1
  take_once n s k v u t =
      let (r, found) =
        written (read_key s k (write s k v u t)) (v, u)
          (seen-write s k s k v u t ∙ rw (self s k) refl) in
      takes-some n s k (write s k v u t) r found
