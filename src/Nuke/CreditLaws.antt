-- ===== src/Nuke/CreditLaws.antt =====
-- The penalty of a nuke against plain products, and the unnuke of one account.
use weave_ftpd.Base.{
  ℕ, zero, suc, ◌+◌, ◌-◌, ◌*◌, ◌/◌, ◌≤◌, ◌<◌, ◌≡◌, ap, ◌∙◌, min, arith, Bool-cases, inl, inr, ltb,
}
use weave_ftpd.Base.Int.{ℤ, pos, negsuc, pos_part, ◌≤ℤ◌, ◌+ℤ◌, ◌-ℤ◌, min_ℤ, max_ℤ}
use weave_ftpd.Base.Int64.{max_int64, InRange, wrap64, ◌+₆₄◌, ◌-₆₄◌, div64}
use weave_ftpd.User.Account.{User}
use weave_ftpd.User.Credits.{saturating_credit_add}
use weave_ftpd.User.CreditLaws.{lt_mul_of_div_lt, mul_le_of_le_div, mul64}
use weave_ftpd.Nuke.Credits.{
  capped_mul, nuke_credit_penalty, clamp_credit_removal, nuked_credits, nuke_account, forget_nuke,
  restore_account,
}

capped_mul_lem : (b m : ℕ) → capped_mul (pos b) (pos (suc m)) ≡ pos (min (b * suc m) max_int64)
unfolding div64
capped_mul_lem b m = elim (Bool-cases (ltb (max_int64 / suc m) b)) [
  | inl big ↦ ground (arith, lt_mul_of_div_lt max_int64 m b)
  | inr fits ↦ ground (arith, mul_le_of_le_div max_int64 m b, mul64 b (suc m))
]

mul_mono : (a b c : ℕ) → a ≤ b → a * c ≤ b * c
mul_mono a b c h = grind arith

le_mul_suc : (a m : ℕ) → a ≤ a * suc m
le_mul_suc a m = grind arith

-- A product that is past the bound stays past it under a further factor.
min_of_big : (x m : ℕ) → max_int64 ≤ x → min (x * suc m) max_int64 ≡ max_int64
min_of_big x m h = omega (arith, le_mul_suc x m)

penalty_pos :
    (b r m : ℕ)
    → nuke_credit_penalty (pos (suc b)) (pos (suc r)) (pos (suc m))
      ≡ pos (min (suc b * suc r * suc m) max_int64)
unfolding nuke_credit_penalty div64
penalty_pos b r m = elim (Bool-cases (ltb (max_int64 / suc r) (suc b))) [
  | inl big ↦ ground (arith, lt_mul_of_div_lt max_int64 r (suc b), min_of_big (suc b * suc r) m)
  | inr fits ↦
      rw (mul64 (suc b) (suc r) (mul_le_of_le_div max_int64 r (suc b) (ground arith)))
        (ground (arith, capped_mul_lem (suc b * suc r) m))
]

-- The penalty is bytes times ratio times multiplier, or MaxInt64 where that is larger, and nothing
-- where one of the three is not positive.
pub nuke_credit_penalty_lem :
    (bytes ratio multiplier : ℤ)
    → nuke_credit_penalty bytes ratio multiplier
      ≡ pos (min (pos_part bytes * pos_part ratio * pos_part multiplier) max_int64)
unfolding nuke_credit_penalty
nuke_credit_penalty_lem (pos (suc b)) (pos (suc r)) (pos (suc m)) = penalty_pos b r m
nuke_credit_penalty_lem (pos (suc b)) (pos (suc r)) (pos zero) = ground arith
nuke_credit_penalty_lem (pos (suc b)) (pos (suc r)) (negsuc m) = ground arith
nuke_credit_penalty_lem (pos (suc b)) (pos zero) m = ground arith
nuke_credit_penalty_lem (pos (suc b)) (negsuc r) m = ground arith
nuke_credit_penalty_lem (pos zero) r m = ground arith
nuke_credit_penalty_lem (negsuc b) r m = ground arith

-- What is taken is never negative and never more than there is.
clamp_credit_removal_lem :
    (balance penalty : ℤ)
    → clamp_credit_removal balance penalty ≡ max_ℤ (pos 0) (min_ℤ balance penalty)
unfolding clamp_credit_removal
clamp_credit_removal_lem balance penalty = ground arith

removal_pos : (c : ℕ) (p : ℤ) → (n : ℕ) × (clamp_credit_removal (pos c) p ≡ pos n) × (n ≤ c)
unfolding clamp_credit_removal
removal_pos c p = (pos_part (clamp_credit_removal (pos c) p), ground arith, ground arith)

removal_neg : (c : ℕ) (p : ℤ) → clamp_credit_removal (negsuc c) p ≡ pos 0
unfolding clamp_credit_removal
removal_neg c p = ground arith

take_back : (c n : ℕ) → n ≤ c → c ≤ max_int64 → pos c -₆₄ pos n ≡ pos (c - n)
unfolding ◌-₆₄◌ wrap64 ◌-ℤ◌
take_back c n h k = ground arith

take_none : (c : ℤ) → InRange c → c -₆₄ pos 0 ≡ c
unfolding ◌-₆₄◌ wrap64 ◌-ℤ◌
take_none (pos c) h = ground arith
take_none (negsuc c) h = ground arith

add_back : (c n : ℕ) → n ≤ c → c ≤ max_int64 → saturating_credit_add (pos (c - n)) (pos n) ≡ pos c
unfolding saturating_credit_add ◌-₆₄◌ ◌+₆₄◌ wrap64 ◌-ℤ◌ ◌+ℤ◌
add_back c n h k = ground arith

add_nothing : (c : ℤ) → saturating_credit_add c (pos 0) ≡ c
unfolding saturating_credit_add
add_nothing c = ground arith

-- What a nuke takes from a balance is there, and giving it back restores the balance.
removal_restored :
    (c p : ℤ)
    → InRange c
    → saturating_credit_add (c -₆₄ clamp_credit_removal c p) (clamp_credit_removal c p) ≡ c
removal_restored (pos c) p h =
    let (n, e, fits) = removal_pos c p in rw e (rw (take_back c n fits h.0) (add_back c n fits h.0))
removal_restored (negsuc c) p h =
    rw (removal_neg c p) (rw (take_none (negsuc c) h) (add_nothing (negsuc c)))

removal_exact :
    (c p : ℤ)
    → InRange c
    → ((c -₆₄ clamp_credit_removal c p) +ℤ clamp_credit_removal c p ≡ c)
      × (pos 0 ≤ℤ clamp_credit_removal c p)
unfolding ◌+ℤ◌
removal_exact (pos c) p h =
    let (n, e, fits) = removal_pos c p in
    rw e (rw (take_back c n fits h.0) (ground arith, omega arith))
removal_exact (negsuc c) p h =
    rw (removal_neg c p) (rw (take_none (negsuc c) h) (ground arith, omega arith))

-- A nuke of an account with int64 credits records as taken bytes times ratio times multiplier, where a
-- factor that is not positive counts as 0, but no more than MaxInt64 nor than the balance, and nothing
-- of a negative balance; and the balance falls by exactly that.
pub nuke_account_exact :
    (now bytes multiplier : ℤ) (u : User)
    → InRange u.credits
    → let penalty = min (pos_part bytes * pos_part u.ratio * pos_part multiplier) max_int64 in
      (nuked_credits bytes multiplier u ≡ max_ℤ (pos 0) (min_ℤ u.credits (pos penalty)))
      × ((nuke_account now bytes multiplier u).credits +ℤ nuked_credits bytes multiplier u
          ≡ u.credits)
unfolding nuke_account nuked_credits
nuke_account_exact now bytes multiplier u h = (
  clamp_credit_removal_lem u.credits (nuke_credit_penalty bytes u.ratio multiplier)
      ∙ ap (λ p. max_ℤ (pos 0) (min_ℤ u.credits p))
          (nuke_credit_penalty_lem bytes u.ratio multiplier),
  (removal_exact u.credits _ h).0,
)

forgotten_files : (f : ℕ) → f < max_int64 → (pos f +₆₄ pos 1) ≡ pos (suc f)
unfolding ◌+₆₄◌ wrap64 ◌+ℤ◌
forgotten_files f h = ground arith

add_int64 : (a b : ℕ) → a + b ≤ max_int64 → pos a +₆₄ pos b ≡ pos (a + b)
unfolding ◌+₆₄◌ wrap64 ◌+ℤ◌
add_int64 a b h = ground arith

-- The unnuke of one account with int64 credits, with what its nuke recorded, restores the credits and
-- the nuke counters, if these are not negative and can count one more file and the bytes of the nuke.
pub restore-nuke :
    (now multiplier : ℤ) (bytes files nuked : ℕ) (u : User)
    → InRange u.credits
    → u.nuke_stat.files ≡ pos files
    → u.nuke_stat.bytes ≡ pos nuked
    → files < max_int64
    → nuked + bytes ≤ max_int64
    → let nuked_account = nuke_account now (pos bytes) multiplier u in
      let restored =
        restore_account (nuked_credits (pos bytes) multiplier u) (pos bytes) nuked_account in
      (restored.credits ≡ u.credits)
      × (restored.nuke_stat.files ≡ u.nuke_stat.files)
      × (restored.nuke_stat.bytes ≡ u.nuke_stat.bytes)
unfolding nuke_account restore_account forget_nuke
restore-nuke now multiplier bytes files nuked u h ef eb hf hb = (
  removal_restored u.credits _ h,
  rw (ef, forgotten_files files hf, take_back (suc files) 1 (omega arith) hf) (ground arith),
  rw (eb, add_int64 nuked bytes hb, take_back (nuked + bytes) bytes (omega arith) hb)
      (ground arith),
)
