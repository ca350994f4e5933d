-- ===== src/Queue/Rows.antt =====
-- The status tags, the unique ids of a table, and how a row is found again after an update.
use hive_manager.Base.{
  ◌≡◌, refl, ap, Bool, false, ◌&&◌, none, some, [], ◌∷◌, String, str_eq, str_eq_iff, if◌then◌else◌,
  any, count_where, update_where, Bool-cases, inl, inr, arith,
}
use hive_manager.Queue.{
  QueueStatus, queued, running, finalized, failed, as_tag, from_tag, QueueRow, Table, has_id,
  get_row, enqueue,
}

-- Reading back the tag that was stored for a status gives that status.
pub from_tag-as_tag : (s : QueueStatus) → from_tag (as_tag s) ≡ s
unfolding from_tag as_tag
from_tag-as_tag queued = refl
from_tag-as_tag running = refl
from_tag-as_tag finalized = refl
from_tag-as_tag failed = refl

module _ {J : Type 0} where
  -- No two rows share an id: the primary key.
  abbrev pub IsKeyed : Table J → Type 0
  IsKeyed [] = Unit {0}
  IsKeyed (r ∷ rs) = (any (has_id r.id) rs ≡ false) × IsKeyed rs

  -- A change of rows that keeps each id.
  abbrev pub KeepsId : (QueueRow J → QueueRow J) → Type 0
  KeepsId f = (r : QueueRow J) → (f r).id ≡ r.id

  any-update_where :
      (p : QueueRow J → Bool) (f : QueueRow J → QueueRow J) (id : String) (t : Table J)
      → KeepsId f
      → any (has_id id) (update_where p f t) ≡ any (has_id id) t
  any-update_where p f id [] k = refl
  any-update_where p f id (r ∷ rs) k = ground (arith, k r, any-update_where p f id rs k)

  pub update_where-IsKeyed :
      (p : QueueRow J → Bool) (f : QueueRow J → QueueRow J) (t : Table J)
      → KeepsId f
      → IsKeyed t
      → IsKeyed (update_where p f t)
  update_where-IsKeyed p f [] k h = tt
  update_where-IsKeyed p f (r ∷ rs) k h =
      ground (arith, k r, any-update_where p f r.id rs k, update_where-IsKeyed p f rs k h.1)

  pub get_row-update_where :
      (p : QueueRow J → Bool) (f : QueueRow J → QueueRow J) (id : String) (t : Table J)
      (r : QueueRow J)
      → KeepsId f
      → get_row id t ≡ some r
      → get_row id (update_where p f t) ≡ some (if p r then f r else r)
  unfolding get_row
  get_row-update_where p f id [] r k h = cc
  get_row-update_where p f id (x ∷ rs) r k h = elim (Bool-cases (p x)) [
    | inl hit ↦ elim (Bool-cases (has_id id x)) [
      | inl same ↦ ground (arith, k x)
      | inr other ↦ ground (arith, k x, get_row-update_where p f id rs r k (ground arith))
    ]
    | inr miss ↦ elim (Bool-cases (has_id id x)) [
      | inl same ↦ ground (arith, k x)
      | inr other ↦ ground (arith, k x, get_row-update_where p f id rs r k (ground arith))
    ]
  ]

  any-has_id-eq : (id j : String) (t : Table J) → id ≡ j → any (has_id id) t ≡ any (has_id j) t
  any-has_id-eq id j t e = ap (λ k. any (has_id k) t) e

  count_where-none :
      (q : QueueRow J → Bool) (id : String) (t : Table J)
      → any (has_id id) t ≡ false
      → count_where (λ r. has_id id r && q r) t ≡ 0
  count_where-none q id [] h = refl
  count_where-none q id (r ∷ rs) h = ground (arith, count_where-none q id rs)

  -- In a keyed table a condition on an id selects the row that `get_row` finds, if that row
  -- meets the rest of the condition, and nothing else.
  pub count_where-keyed :
      (q : QueueRow J → Bool) (id : String) (t : Table J) (r : QueueRow J)
      → IsKeyed t
      → get_row id t ≡ some r
      → count_where (λ x. has_id id x && q x) t ≡ (if q r then 1 else 0)
  unfolding get_row
  count_where-keyed q id [] r k h = cc
  count_where-keyed q id (x ∷ rs) r k h = elim (Bool-cases (has_id id x)) [
    | inl same ↦
        ground
          (arith, count_where-none q id rs, any-has_id-eq x.id id rs ((str_eq_iff x.id id).0 same))
    | inr other ↦ ground (arith, count_where-keyed q id rs r k.1 (ground arith))
  ]

  pub count_where-missing :
      (q : QueueRow J → Bool) (id : String) (t : Table J)
      → get_row id t ≡ none
      → count_where (λ x. has_id id x && q x) t ≡ 0
  unfolding get_row
  count_where-missing q id [] h = refl
  count_where-missing q id (x ∷ rs) h = ground (arith, count_where-missing q id rs)

  any-enqueue :
      (row : QueueRow J) (id : String) (t : Table J)
      → str_eq row.id id ≡ false
      → any (has_id id) (enqueue row t) ≡ any (has_id id) t
  unfolding enqueue
  any-enqueue row id [] h = ground arith
  any-enqueue row id (r ∷ rs) h = ground (arith, any-enqueue row id rs h)

  pub enqueue-IsKeyed : (row : QueueRow J) (t : Table J) → IsKeyed t → IsKeyed (enqueue row t)
  unfolding enqueue
  enqueue-IsKeyed row [] h = ground arith
  enqueue-IsKeyed row (r ∷ rs) h = ground (
    arith,
    any-enqueue row r.id rs,
    enqueue-IsKeyed row rs h.1,
    str_eq_iff row.id r.id,
    str_eq_iff r.id row.id,
  )

  -- A row that is there stays as it is.
  pub get_row-enqueue :
      (row : QueueRow J) (id : String) (t : Table J) (r : QueueRow J)
      → get_row id t ≡ some r
      → get_row id (enqueue row t) ≡ some r
  unfolding get_row enqueue
  get_row-enqueue row id [] r h = cc
  get_row-enqueue row id (x ∷ rs) r h = ground (arith, get_row-enqueue row id rs r)

  -- A row whose id is new is there afterwards.
  pub get_row-enqueue_new :
      (row : QueueRow J) (t : Table J)
      → get_row row.id t ≡ none
      → get_row row.id (enqueue row t) ≡ some row
  unfolding get_row enqueue
  get_row-enqueue_new row [] h = ground (arith, str_eq_iff row.id row.id)
  get_row-enqueue_new row (x ∷ rs) h = ground (arith, get_row-enqueue_new row rs)
