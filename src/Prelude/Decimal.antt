-- ===== src/Prelude/Decimal.antt =====
-- Decimal numbers, as `printf` writes them.
use Prim.Native.Nat.{ℕ, zero, suc, ◌+◌, ◌-◌, ◌*◌, ◌/◌, ◌%◌, ◌≤◌}
use mathlib.Core.Path.{◌≡◌, refl}
use mathlib.Core.Logic.{inl, inr}
use mathlib.Core.List.{List, [], ◌∷◌, ◌++◌}
use native.Mathlib.Omega.{arith}
use rtmpcamera.Prelude.Tests.{ltb, if◌then◌else◌, Bool-cases}
use rtmpcamera.Prelude.Words.{u32_mod}

-- The last digit behind the others: `fuel` is at least the number.
unfoldable pub digits_of : (fuel n : ℕ) → List ℕ
digits_of zero n = (48 + n % 10) ∷ []
digits_of (suc fuel) n =
    let rest = digits_of fuel (n / 10) in
    if ltb n 10 then (48 + n) ∷ [] else rest ++ (48 + n % 10) ∷ []

-- `%u`, `%lu`, and `%d` of a number that is not negative
unfoldable pub decimal : ℕ → List ℕ
unfolding digits_of
decimal n = digits_of n n

-- `%d` of an `int` that was stored as a 32-bit number
unfoldable pub signed_decimal : ℕ → List ℕ
unfolding decimal
signed_decimal n = if ltb n 0x80000000 then decimal n else 45 ∷ decimal (u32_mod - n)

-- The number that digits stand for, behind `n`.
unfoldable pub value : (n : ℕ) → List ℕ → ℕ
value n [] = n
value n (d ∷ ds) = value (n * 10 + (d - 48)) ds

value-append : (n : ℕ) (ds : List ℕ) (d : ℕ) → value n (ds ++ d ∷ []) ≡ value n ds * 10 + (d - 48)
unfolding value
value-append n [] d = refl
value-append n (c ∷ ds) d = value-append (n * 10 + (c - 48)) ds d

value-digits_of : (fuel n : ℕ) → n ≤ fuel → value 0 (digits_of fuel n) ≡ n
unfolding value digits_of
value-digits_of zero n h = omega arith
value-digits_of (suc fuel) n h = elim (Bool-cases (ltb n 10)) [
  | inl small ↦ rw small (ground arith)
  | inr large ↦ rw large (
      omega (
        arith,
        value-append 0 (digits_of fuel (n / 10)) (48 + n % 10),
        value-digits_of fuel (n / 10) (ground arith),
      ))
]

-- A number is read back from its print.
pub value-decimal : (n : ℕ) → value 0 (decimal n) ≡ n
unfolding decimal
value-decimal n = value-digits_of n n (omega arith)
