-- ===== src/Prelude/Words.antt =====
-- Fixed-width unsigned arithmetic: `uint8_t`, `uint16_t`, `uint32_t` and `uint64_t` wrap.
use Prim.Native.Char.{code}
use Prim.Native.String.{String}
use mathlib.Core.List.{List, [], ◌∷◌}
use Prim.Native.Nat.{ℕ, ◌+◌, ◌-◌, ◌*◌, ◌/◌, ◌%◌, ◌^◌, ◌≤◌, ◌<◌}
use mathlib.Core.Path.{◌≡◌}
use native.Mathlib.Omega.{arith}

abbrev pub u8 : ℕ → ℕ
u8 n = n % 256

abbrev pub u16 : ℕ → ℕ
u16 n = n % 65536

abbrev pub u32_mod : ℕ
u32_mod = 4294967296

abbrev pub u32 : ℕ → ℕ
u32 n = n % u32_mod

abbrev pub u64 : ℕ → ℕ
u64 n = n % 2 ^ 64

-- `a - b` on `uint32_t` operands.
abbrev pub sub32 : ℕ → ℕ → ℕ
sub32 a b = (a + u32_mod - b) % u32_mod

pub sub32_exact : (a b : ℕ) → b ≤ a → a < u32_mod → sub32 a b ≡ a - b
sub32_exact a b h k = omega arith

-- The bytes of an ASCII text.
abbrev pub codes : String → List ℕ
codes String.[] = []
codes (String.◌∷◌ c s) = code c ∷ codes s

-- The four bytes of a `uint32_t`, the first one the highest.
abbrev pub be32 : ℕ → List ℕ
be32 n = u8 (n / 2 ^ 24) ∷ u8 (n / 2 ^ 16) ∷ u8 (n / 2 ^ 8) ∷ u8 n ∷ []

-- `(a << 24) | (b << 16) | (c << 8) | d` on bytes.
abbrev pub of_be32 : ℕ → ℕ → ℕ → ℕ → ℕ
of_be32 a b c d = a * 2 ^ 24 + (b * 2 ^ 16 + (c * 2 ^ 8 + d))

pub of_be32-be32 :
    (n : ℕ) → n < u32_mod → of_be32 (u8 (n / 2 ^ 24)) (u8 (n / 2 ^ 16)) (u8 (n / 2 ^ 8)) (u8 n) ≡ n
of_be32-be32 n h = omega arith
