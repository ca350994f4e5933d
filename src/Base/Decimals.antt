-- ===== src/Base/Decimals.antt =====
-- Decimal numerals as texts of code points: printing, reading, and that reading undoes printing.
use Prim.Native.Nat.{ℕ, zero, suc, ◌+◌, ◌-◌, ◌*◌, ◌/◌, ◌%◌, ◌<◌}
use mathlib.Core.Path.{◌≡◌, refl}
use mathlib.Core.Bool.{Bool, true, false, ◌&&◌}
use mathlib.Core.List.{List, [], ◌∷◌, ◌++◌}
use native.Mathlib.Omega.{arith}
use hive_manager.Base.Tests.{ltb, leb, if◌then◌else◌}
use hive_manager.Base.Lists.{all, is_nil}

-- The digits of a number, most significant first; the fuel bounds how many there are.
unfoldable pub digits_of : ℕ → ℕ → List ℕ
digits_of zero n = []
digits_of (suc fuel) n =
    let rest = digits_of fuel (n / 10) in
    if ltb n 10 then (48 + n) ∷ [] else rest ++ (48 + n % 10) ∷ []

-- A number has fewer digits than its successor counts.
unfoldable pub decimal : ℕ → List ℕ
unfolding digits_of
decimal n = digits_of (suc n) n

-- The value of a text of digits, read from the left after `acc`.
abbrev pub value_from : ℕ → List ℕ → ℕ
value_from acc [] = acc
value_from acc (c ∷ cs) = value_from (acc * 10 + (c - 48)) cs

abbrev pub is_digit : ℕ → Bool
is_digit c = leb 48 c && leb c 57

value_from-append :
    (acc : ℕ) (xs : List ℕ) (c : ℕ)
    → value_from acc (xs ++ c ∷ []) ≡ value_from acc xs * 10 + (c - 48)
value_from-append acc [] c = refl
value_from-append acc (x ∷ xs) c = value_from-append (acc * 10 + (x - 48)) xs c

value_from-digits_of : (fuel n : ℕ) → n < fuel → value_from 0 (digits_of fuel n) ≡ n
unfolding digits_of
value_from-digits_of zero n h = elim h [ ]
value_from-digits_of (suc fuel) n h = ground (
  arith,
  value_from-digits_of fuel (n / 10),
  value_from-append 0 (digits_of fuel (n / 10)) (48 + n % 10),
)

-- Reading a printed number gives it back.
pub value-decimal : (n : ℕ) → value_from 0 (decimal n) ≡ n
unfolding decimal
value-decimal n = value_from-digits_of (suc n) n (omega arith)

all-append :
    (p : ℕ → Bool) (xs : List ℕ) (c : ℕ)
    → all p xs ≡ true
    → p c ≡ true
    → all p (xs ++ c ∷ []) ≡ true
all-append p [] c h k = ground arith
all-append p (x ∷ xs) c h k = ground (arith, all-append p xs c)

all-digits_of : (fuel n : ℕ) → all is_digit (digits_of fuel n) ≡ true
unfolding digits_of
all-digits_of zero n = refl
all-digits_of (suc fuel) n = ground (
  arith,
  all-append is_digit (digits_of fuel (n / 10)) (48 + n % 10) (all-digits_of fuel (n / 10)),
)

pub decimal-all_digits : (n : ℕ) → all is_digit (decimal n) ≡ true
unfolding decimal
decimal-all_digits n = all-digits_of (suc n) n

is_nil-append : (xs : List ℕ) (c : ℕ) → is_nil (xs ++ c ∷ []) ≡ false
is_nil-append [] c = refl
is_nil-append (x ∷ xs) c = refl

-- A printed number has a digit.
pub decimal-is_nil : (n : ℕ) → is_nil (decimal n) ≡ false
unfolding decimal digits_of
decimal-is_nil n = ground (arith, is_nil-append (digits_of n (n / 10)) (48 + n % 10))
