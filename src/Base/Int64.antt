-- ===== src/Base/Int64.antt =====
-- Go's `int64`: integers between -2^63 and 2^63 - 1, with the wrap-around of `+`, `-` and `*`.
use Prim.Native.Nat.{ℕ, ◌+◌, ◌-◌, ◌/◌, ◌%◌, ◌^◌, ◌≤◌}
use mathlib.Core.Path.{◌≡◌, refl}
use native.Mathlib.Omega.{arith}
use weave_ftpd.Base.Tests.{ltb, if◌then◌else◌}
use weave_ftpd.Base.Int.{ℤ, pos, negsuc, pos_part, neg_part, sub_ℕ, ◌+ℤ◌, ◌-ℤ◌, ◌*ℤ◌}

-- math.MaxInt64
abbrev pub max_int64 : ℕ
max_int64 = 9223372036854775807

-- The bit pattern of an integer, modulo 2^64.
bits : ℤ → ℕ
bits (pos n) = n % 2 ^ 64
bits (negsuc n) = 2 ^ 64 - 1 - n % 2 ^ 64

of_bits : ℕ → ℤ
of_bits u = if ltb u (2 ^ 63) then pos u else negsuc (2 ^ 64 - 1 - u)

unfoldable pub wrap64 : ℤ → ℤ
unfolding bits of_bits
wrap64 z = of_bits (bits z)

abbrev pub InRange : ℤ → Type 0
InRange z = (pos_part z ≤ max_int64) × (neg_part z ≤ max_int64 + 1)

pub wrap64_of_InRange : (z : ℤ) → InRange z → wrap64 z ≡ z
unfolding wrap64
wrap64_of_InRange (pos n) h = ground arith
wrap64_of_InRange (negsuc n) h = ground arith

pub wrap64-InRange : (z : ℤ) → InRange (wrap64 z)
unfolding wrap64
wrap64-InRange (pos n) = ground arith
wrap64-InRange (negsuc n) = ground arith

infixl 65 ◌+₆₄◌ ◌-₆₄◌
infixl 70 ◌*₆₄◌
unfoldable pub ◌+₆₄◌ : ℤ → ℤ → ℤ
a +₆₄ b = wrap64 (a +ℤ b)

unfoldable pub ◌-₆₄◌ : ℤ → ℤ → ℤ
a -₆₄ b = wrap64 (a -ℤ b)

unfoldable pub ◌*₆₄◌ : ℤ → ℤ → ℤ
a *₆₄ b = wrap64 (a *ℤ b)

-- Go's `/`, which rounds towards zero. The program divides by positive numbers only.
unfoldable pub div64 : ℤ → ℤ → ℤ
div64 (pos a) (pos b) = pos (a / b)
div64 (pos a) (negsuc b) = sub_ℕ 0 (a / (b + 1))
div64 (negsuc a) (pos b) = sub_ℕ 0 ((a + 1) / b)
div64 (negsuc a) (negsuc b) = pos ((a + 1) / (b + 1))

wraps_around : pos max_int64 +₆₄ pos 1 ≡ negsuc max_int64
unfolding ◌+₆₄◌ wrap64 ◌+ℤ◌
wraps_around = refl
