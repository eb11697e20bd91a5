-- ===== src/User/CreditLaws.antt =====
-- The credit arithmetic of internal/user/user.go against plain products and sums.
use weave_ftpd.Base.{
  ℕ, zero, suc, ◌*◌, ◌/◌, ◌≤◌, ◌<◌, ◌≡◌, ap, min, arith, Bool-cases, inl, inr, ltb,
}
use weave_ftpd.Base.Int.{ℤ, pos, negsuc, pos_part, ◌+ℤ◌, ◌-ℤ◌, ◌*ℤ◌, min_ℤ, max_ℤ}
use weave_ftpd.Base.Int64.{
  max_int64, InRange, wrap64, wrap64_of_InRange, ◌+₆₄◌, ◌-₆₄◌, ◌*₆₄◌, div64,
}
use weave_ftpd.User.Credits.{saturating_credit_gain, saturating_credit_add}

pub lt_mul_of_div_lt : (m r b : ℕ) → m / suc r < b → m < b * suc r
lt_mul_of_div_lt m r b h = grind arith

pub mul_le_of_le_div : (m r b : ℕ) → b ≤ m / suc r → b * suc r ≤ m
mul_le_of_le_div m r b h = grind arith

mul_pos : (a b : ℕ) → pos a *ℤ pos b ≡ pos (a * b)
unfolding ◌*ℤ◌
mul_pos a b = ground arith

pub mul64 : (a b : ℕ) → a * b ≤ max_int64 → pos a *₆₄ pos b ≡ pos (a * b)
unfolding ◌*₆₄◌
mul64 a b h = rw (mul_pos a b) (wrap64_of_InRange (pos (a * b)) (omega arith))

gain_pos :
    (b r : ℕ)
    → saturating_credit_gain (pos (suc b)) (pos (suc r)) ≡ pos (min (suc b * suc r) max_int64)
unfolding saturating_credit_gain div64
gain_pos b r = elim (Bool-cases (ltb (max_int64 / suc r) (suc b))) [
  | inl big ↦ ground (arith, lt_mul_of_div_lt max_int64 r (suc b))
  | inr fits ↦ ground (arith, mul_le_of_le_div max_int64 r (suc b), mul64 (suc b) (suc r))
]

-- An upload earns bytes times ratio, or MaxInt64 where that is larger, and nothing where one of
-- them is not positive.
pub saturating_credit_gain_lem :
    (bytes ratio : ℤ)
    → saturating_credit_gain bytes ratio ≡ pos (min (pos_part bytes * pos_part ratio) max_int64)
unfolding saturating_credit_gain
saturating_credit_gain_lem (pos zero) ratio = ap pos (omega arith)
saturating_credit_gain_lem (negsuc b) (pos r) = ground arith
saturating_credit_gain_lem (negsuc b) (negsuc r) = ground arith
saturating_credit_gain_lem (pos (suc b)) (pos zero) = ground arith
saturating_credit_gain_lem (pos (suc b)) (negsuc r) = ground arith
saturating_credit_gain_lem (pos (suc b)) (pos (suc r)) = gain_pos b r

-- Adding credits gives, for int64s, the sum, or MaxInt64 where the sum is larger; a negative number
-- adds nothing.
pub saturating_credit_add_lem :
    (current delta : ℤ)
    → InRange current
    → InRange delta
    → saturating_credit_add current delta ≡ min_ℤ (current +ℤ max_ℤ (pos 0) delta) (pos max_int64)
unfolding saturating_credit_add ◌+₆₄◌ ◌-₆₄◌ wrap64 ◌+ℤ◌ ◌-ℤ◌
saturating_credit_add_lem (pos c) (pos d) h k = ground arith
saturating_credit_add_lem (pos c) (negsuc d) h k = ground arith
saturating_credit_add_lem (negsuc c) (pos d) h k = ground arith
saturating_credit_add_lem (negsuc c) (negsuc d) h k = ground arith
