-- ===== src/Common/Int.antt =====
-- Signed integers over the native numbers, and their two's complement words.
use Prim.Native.Nat.{ℕ, ◌+◌, ◌-◌, ◌*◌, ◌<◌}
use mathlib.Core.Path.{◌≡◌}
use native.Mathlib.Omega.{arith}
use package.volt_net.Common.Tests.{ltb, if◌then◌else◌}

-- `negsuc n` is -(n + 1).
pub data ℤ : Type 0 where
  pos : ℕ → ℤ
  negsuc : ℕ → ℤ

-- The values of a signed type with `2 * half` values.
abbrev pub IsSigned : ℕ → ℤ → Type 0
IsSigned half (pos n) = n < half
IsSigned half (negsuc n) = n < half

-- The word that stores a signed value: two's complement modulo `2 * half`.
abbrev pub to_word : ℕ → ℤ → ℕ
to_word half (pos n) = n
to_word half (negsuc n) = 2 * half - (n + 1)

abbrev pub of_word : ℕ → ℕ → ℤ
of_word half w = if ltb w half then pos w else negsuc (2 * half - (w + 1))

pub to_word-lt : (half : ℕ) (z : ℤ) → IsSigned half z → to_word half z < 2 * half
to_word-lt half (pos n) h = omega arith
to_word-lt half (negsuc n) h = omega arith

pub of_word-to_word : (half : ℕ) (z : ℤ) → IsSigned half z → of_word half (to_word half z) ≡ z
of_word-to_word half (pos n) h = ground arith
of_word-to_word half (negsuc n) h = ground arith
