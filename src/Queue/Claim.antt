-- ===== src/Queue/Claim.antt =====
-- `try_claim` and its race: any number of claimers of one run, in any order.
use hive_manager.Base.{
  ℕ, ◌+◌, ◌≤◌, ◌≡◌, refl, ◌∙◌, true, false, ◌&&◌, none, some, List, [], ◌∷◌, String, str_eq_iff,
  if◌then◌else◌, All, arith,
}
use hive_manager.Queue.{
  queued, running, QueueRow, Table, has_id, is_claimable, claim_row, get_row, try_claim,
}
use hive_manager.Queue.Rows.{
  IsKeyed, update_where-IsKeyed, get_row-update_where, count_where-keyed, count_where-missing,
}

-- One claimer's cutoff and clock.
pub record Attempt : Type 0 where
  pub cutoff : ℕ
  pub now : ℕ

-- Every claimer's cutoff lies at or before `floor`, and every clock at or after it.
abbrev pub Around : ℕ → List Attempt → Type 0
Around floor = All λ a. (a.cutoff ≤ floor) × (floor ≤ a.now)

module _ {J : Type 0} where
  pub has_id-get_row :
      (id : String) (t : Table J) (r : QueueRow J) → get_row id t ≡ some r → r.id ≡ id
  unfolding get_row
  has_id-get_row id [] r h = cc
  has_id-get_row id (x ∷ rs) r h = ground (arith, str_eq_iff x.id id, has_id-get_row id rs r)

  -- A claim is won exactly when the row is queued, or running with no heartbeat or one before the
  -- cutoff. The winner's row is running, counts one more attempt and carries the claim's time as
  -- its heartbeat; after a lost claim the row is as it was.
  pub try_claim_lem :
      (id : String) (cutoff now : ℕ) (t : Table J) (r : QueueRow J)
      → IsKeyed t
      → get_row id t ≡ some r
      → ((try_claim id cutoff now t).0 ≡ is_claimable cutoff r)
        × (get_row id (try_claim id cutoff now t).1
            ≡ some (if is_claimable cutoff r then claim_row now r else r))
  unfolding try_claim
  try_claim_lem id cutoff now t r k h = (
    ground (arith, count_where-keyed (is_claimable cutoff) id t r k h),
    ground (
      arith,
      get_row-update_where (λ (x : QueueRow J). has_id id x && is_claimable cutoff x)
          (claim_row now) id t r (λ x. refl) h,
      has_id-get_row id t r h,
      str_eq_iff r.id id,
    ),
  )

  -- A claim of a run that was never enqueued is lost.
  pub try_claim_missing :
      (id : String) (cutoff now : ℕ) (t : Table J)
      → get_row id t ≡ none
      → (try_claim id cutoff now t).0 ≡ false
  unfolding try_claim
  try_claim_missing id cutoff now t h =
      ground (arith, count_where-missing (is_claimable cutoff) id t h)

  pub try_claim-IsKeyed :
      (id : String) (cutoff now : ℕ) (t : Table J)
      → IsKeyed t
      → IsKeyed (try_claim id cutoff now t).1
  unfolding try_claim
  try_claim-IsKeyed id cutoff now t k = update_where-IsKeyed _ (claim_row now) t (λ r. refl) k

  -- How many of the claimers win, one after the other.
  abbrev pub wins : String → List Attempt → Table J → ℕ
  wins id [] t = 0
  wins id (a ∷ later) t =
      (if (try_claim id a.cutoff a.now t).0 then 1 else 0)
      + wins id later (try_claim id a.cutoff a.now t).1

  pub try_claim_shut :
      (id : String) (cutoff now : ℕ) (t : Table J) (r : QueueRow J)
      → IsKeyed t
      → get_row id t ≡ some r
      → is_claimable cutoff r ≡ false
      → ((try_claim id cutoff now t).0 ≡ false)
        × (get_row id (try_claim id cutoff now t).1 ≡ some r)
  try_claim_shut id cutoff now t r k h shut =
      let (lost, found) = try_claim_lem id cutoff now t r k h in (lost ∙ shut, rw shut at found)

  pub try_claim_open :
      (id : String) (cutoff now : ℕ) (t : Table J) (r : QueueRow J)
      → IsKeyed t
      → get_row id t ≡ some r
      → is_claimable cutoff r ≡ true
      → ((try_claim id cutoff now t).0 ≡ true)
        × (get_row id (try_claim id cutoff now t).1 ≡ some (claim_row now r))
  try_claim_open id cutoff now t r k h open_row =
      let (won, found) = try_claim_lem id cutoff now t r k h in
      (won ∙ open_row, rw open_row at found)

  wins-lost :
      (id : String) (floor beat : ℕ) (later : List Attempt) (t : Table J) (r : QueueRow J)
      → IsKeyed t
      → get_row id t ≡ some r
      → r.status ≡ running
      → r.heartbeat_at ≡ some beat
      → floor ≤ beat
      → Around floor later
      → wins id later t ≡ 0
  wins-lost id floor beat [] t r k h s b f ar = refl
  wins-lost id floor beat (a ∷ later) t r k h s b f ar =
      let (lost, found) = try_claim_shut id a.cutoff a.now t r k h (ground arith) in
      let rest =
        wins-lost id floor beat later (try_claim id a.cutoff a.now t).1 r
          (try_claim-IsKeyed id a.cutoff a.now t k) found s b f ar.1 in
      rw lost (omega (arith, rest))

  -- Of any number of claimers of a queued run, at least one, exactly one wins, in whatever order
  -- they come, if no cutoff lies after any claimer's clock.
  pub wins-one :
      (id : String) (floor : ℕ) (a : Attempt) (later : List Attempt) (t : Table J) (r : QueueRow J)
      → IsKeyed t
      → get_row id t ≡ some r
      → r.status ≡ queued
      → Around floor (a ∷ later)
      → wins id (a ∷ later) t ≡ 1
  wins-one id floor a later t r k h s ar =
      let (won, found) = try_claim_open id a.cutoff a.now t r k h (ground arith) in
      let rest =
        wins-lost id floor a.now later (try_claim id a.cutoff a.now t).1 (claim_row a.now r)
          (try_claim-IsKeyed id a.cutoff a.now t k) found refl refl ar.0.1 ar.1 in
      rw won (omega (arith, rest))
