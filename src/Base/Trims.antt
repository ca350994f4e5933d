-- ===== src/Base/Trims.antt =====
-- Trimming: what it leaves has no character to trim at its ends, and such a text it keeps.
use Prim.Native.Nat.{ℕ}
use mathlib.Core.Path.{◌≡◌, refl, ap, ◌∙◌}
use mathlib.Core.Bool.{Bool, false}
use mathlib.Core.List.{[], ◌∷◌, ◌++◌}
use native.Mathlib.Omega.{arith}
use hive_manager.Base.Tests.{if◌then◌else◌, if_both}
use hive_manager.Base.Lists.{is_nil}
use hive_manager.Base.Scans.{Text, trim_start, trim_end, trim_by}
use hive_manager.Base.Cuts.{last_passes}

abbrev pub first_passes : (ℕ → Bool) → Text → Bool
first_passes p [] = false
first_passes p (c ∷ cs) = p c

-- Neither end of the text passes the test.
pub record Bare (p : ℕ → Bool) (t : Text) : Type 0 where
  pub first : first_passes p t ≡ false
  pub last : last_passes p t ≡ false

cons-trimmed :
    (p : ℕ → Bool) (c : ℕ) (r : Text)
    → last_passes p r ≡ false
    → last_passes p (elim r [ [] ↦ if p c then [] else c ∷ [] | d ∷ ds ↦ c ∷ d ∷ ds ]) ≡ false
cons-trimmed p c [] h = ground arith
cons-trimmed p c (d ∷ ds) h = h

pub last-trim_end : (p : ℕ → Bool) (t : Text) → last_passes p (trim_end p t) ≡ false
last-trim_end p [] = refl
last-trim_end p (c ∷ cs) = cons-trimmed p c (trim_end p cs) (last-trim_end p cs)

pub trim_end-keeps : (p : ℕ → Bool) (t : Text) → last_passes p t ≡ false → trim_end p t ≡ t
trim_end-keeps p [] h = refl
trim_end-keeps p (c ∷ []) h = rw h refl
trim_end-keeps p (c ∷ d ∷ cs) h = rw (trim_end-keeps p (d ∷ cs) h) refl

pub last-tail :
    (p : ℕ → Bool) (c : ℕ) (cs : Text) → last_passes p (c ∷ cs) ≡ false → last_passes p cs ≡ false
last-tail p c [] h = refl
last-tail p c (d ∷ cs) h = h

trim_start-Bare : (p : ℕ → Bool) (t : Text) → last_passes p t ≡ false → Bare p (trim_start p t)
trim_start-Bare p [] h = record { first = refl; last = refl }
trim_start-Bare p (c ∷ cs) h =
    if_both (λ r. Bare p r) (p c) (λ _. trim_start-Bare p cs (last-tail p c cs h))
      (λ e. record { first = e; last = h })

pub trim_by-Bare : (p : ℕ → Bool) (t : Text) → Bare p (trim_by p t)
trim_by-Bare p t = trim_start-Bare p (trim_end p t) (last-trim_end p t)

pub trim_start-keeps : (p : ℕ → Bool) (t : Text) → first_passes p t ≡ false → trim_start p t ≡ t
trim_start-keeps p [] h = refl
trim_start-keeps p (c ∷ cs) h = rw h refl

pub trim_by-keeps : (p : ℕ → Bool) (t : Text) → Bare p t → trim_by p t ≡ t
trim_by-keeps p t b = ap (trim_start p) (trim_end-keeps p t b.last) ∙ trim_start-keeps p t b.first

pub last-append :
    (p : ℕ → Bool) (xs ys : Text)
    → is_nil ys ≡ false
    → last_passes p ys ≡ false
    → last_passes p (xs ++ ys) ≡ false
last-append p [] ys n h = h
last-append p (x ∷ []) [] n h = cc
last-append p (x ∷ []) (y ∷ ys) n h = h
last-append p (x ∷ z ∷ xs) ys n h = last-append p (z ∷ xs) ys n h
