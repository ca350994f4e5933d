-- ===== src/Base/Numerals.antt =====
-- A printed number is read back, and other facts on the texts of the cuts.
use Prim.Native.Nat.{ℕ, ◌<◌}
use mathlib.Core.Path.{◌≡◌, refl, ap, ◌∙◌}
use mathlib.Core.Bool.{Bool, true, false, not}
use mathlib.Core.Option.{some}
use mathlib.Core.List.{[], ◌∷◌, ◌++◌}
use native.Mathlib.Omega.{arith}
use hive_manager.Base.Lists.{all, is_nil}
use hive_manager.Base.Scans.{Text, is_whitespace, trim_by, trim_start}
use hive_manager.Base.Cuts.{parse_below, split_once, last_passes}
use hive_manager.Base.Trims.{first_passes, Bare, trim_end-keeps, trim_start-keeps}
use hive_manager.Base.Decimals.{
  value_from, is_digit, decimal, value-decimal, decimal-all_digits, decimal-is_nil,
}

parse-digits :
    (limit : ℕ) (t : Text) (n : ℕ)
    → is_nil t ≡ false
    → all is_digit t ≡ true
    → value_from 0 t ≡ n
    → n < limit
    → parse_below limit t ≡ some n
parse-digits limit [] n e d v h = cc
parse-digits limit (c ∷ cs) n e d v h = ground arith

-- Reading a printed number below the limit gives it back.
pub parse_below-decimal : (limit n : ℕ) → n < limit → parse_below limit (decimal n) ≡ some n
parse_below-decimal limit n h =
    parse-digits limit (decimal n) n (decimal-is_nil n) (decimal-all_digits n) (value-decimal n) h

-- A text is cut at its first character that passes.
pub split_once-append :
    (p : ℕ → Bool) (xs : Text) (c : ℕ) (ys : Text)
    → all (λ x. not (p x)) xs ≡ true
    → p c ≡ true
    → split_once p (xs ++ c ∷ ys) ≡ some (xs, ys)
split_once-append p [] c ys h k = rw k refl
split_once-append p (x ∷ xs) c ys h k =
    rw (head_fails x xs h, split_once-append p xs c ys (tail_fails x xs h) k) refl
  where
    head_fails : (x : ℕ) (xs : Text) → all (λ y. not (p y)) (x ∷ xs) ≡ true → p x ≡ false
    head_fails x xs h = ground arith

    tail_fails :
        (x : ℕ) (xs : Text) → all (λ y. not (p y)) (x ∷ xs) ≡ true → all (λ y. not (p y)) xs ≡ true
    tail_fails x xs h = ground arith

-- A text of digits has no end to trim.
digits-last : (t : Text) → all is_digit t ≡ true → last_passes is_whitespace t ≡ false
digits-last [] d = refl
digits-last (x ∷ []) d = ground arith
digits-last (x ∷ y ∷ t) d = ground (arith, digits-last (y ∷ t))

digits-first : (t : Text) → all is_digit t ≡ true → first_passes is_whitespace t ≡ false
digits-first [] d = refl
digits-first (x ∷ t) d = ground arith

pub digits-Bare : (t : Text) → all is_digit t ≡ true → Bare is_whitespace t
digits-Bare t d = record { first = digits-first t d; last = digits-last t d }

-- One space before a text without spaces at its ends is what trimming removes.
pub trim-space :
    (t : Text) → Bare is_whitespace t → is_nil t ≡ false → trim_by is_whitespace (b' ' ∷ t) ≡ t
trim-space [] b n = cc
trim-space (c ∷ cs) b n =
    ap (trim_start is_whitespace) (trim_end-keeps is_whitespace (b' ' ∷ c ∷ cs) b.last)
    ∙ trim_start-keeps is_whitespace (c ∷ cs) b.first

-- Digits fail a test that every digit fails.
pub digits-fail :
    (p : ℕ → Bool) (t : Text)
    → ((c : ℕ) → is_digit c ≡ true → p c ≡ false)
    → all is_digit t ≡ true
    → all (λ c. not (p c)) t ≡ true
digits-fail p [] k d = refl
digits-fail p (c ∷ t) k d = ground (arith, k c, digits-fail p t k)
