-- ===== src/Prelude/Int.antt =====
-- Signed integers over the native numbers, under the library's names.
use Prim.Native.Nat.{ℕ, zero, suc, ◌+◌, ◌/◌, ◌≤◌}
use mathlib.Core.Bool.{Bool, true, not}
use native.Mathlib.Omega.{arith}
use serial_proxy_c.Prelude.Tests.{◌==◌, ltb, if◌then◌else◌}

-- `negsuc n` is -(n + 1).
pub data ℤ : Type 0 where
  pos : ℕ → ℤ
  negsuc : ℕ → ℤ

abbrev pub pos_part : ℤ → ℕ
pos_part (pos n) = n
pos_part (negsuc n) = 0

abbrev pub neg_part : ℤ → ℕ
neg_part (pos n) = 0
neg_part (negsuc n) = suc n

infix 50 ◌≤ℤ◌
abbrev pub ◌≤ℤ◌ : ℤ → ℤ → Type 0
a ≤ℤ b = pos_part a + neg_part b ≤ pos_part b + neg_part a

abbrev pub ltb_ℤ : ℤ → ℤ → Bool
ltb_ℤ a b = ltb (pos_part a + neg_part b) (pos_part b + neg_part a)

abbrev pub neg_ℕ : ℕ → ℤ
neg_ℕ zero = pos 0
neg_ℕ (suc n) = negsuc n

-- C's `/` on signed integers, which rounds towards zero; the caller sees to a nonzero divisor.
infixl 70 ◌/ℤ◌
unfoldable pub ◌/ℤ◌ : ℤ → ℤ → ℤ
pos a /ℤ pos b = pos (a / b)
pos a /ℤ negsuc b = neg_ℕ (a / suc b)
negsuc a /ℤ pos b = neg_ℕ (suc a / b)
negsuc a /ℤ negsuc b = pos (suc a / suc b)

-- An `int` used as a truth value.
abbrev pub is_nonzero : ℤ → Bool
is_nonzero (pos n) = not (n == 0)
is_nonzero (negsuc n) = true

-- `if (z < lo) z = lo; if (z > hi) z = hi;` for bounds that are no less than zero.
unfoldable pub clamp : ℕ → ℕ → ℤ → ℕ
clamp lo hi z =
    if ltb_ℤ z (pos lo)
    then (if ltb hi lo then hi else lo)
    else if ltb_ℤ (pos hi) z
    then hi
    else pos_part z

pub clamp_bounds : (lo hi : ℕ) (z : ℤ) → lo ≤ hi → (lo ≤ clamp lo hi z) × (clamp lo hi z ≤ hi)
unfolding clamp
clamp_bounds lo hi (pos n) h = ground arith
clamp_bounds lo hi (negsuc n) h = ground arith
