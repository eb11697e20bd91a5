-- ===== src/User/TransferLaws.antt =====
-- The accounting of a finished transfer in internal/user/user.go.
use weave_ftpd.Base.{
  ℕ, ◌≡◌, refl, Bool, true, false, ◌&&◌, arith, if◌then◌else◌, Bool-cases, inl, inr, ◌∙◌, ap, min,
  ◌*◌,
}
use weave_ftpd.Base.Int.{
  ℤ, pos, negsuc, pos_part, ◌<ℤ◌, ◌≤ℤ◌, leb_ℤ, ltb_ℤ, eqb_ℤ, ◌+ℤ◌, ◌-ℤ◌, min_ℤ, max_ℤ,
}
use weave_ftpd.Base.Int64.{max_int64, InRange, ◌-₆₄◌, wrap64}
use weave_ftpd.User.Account.{User, has_download_access, can_download}
use weave_ftpd.User.Credits.{saturating_credit_gain, saturating_credit_add}
use weave_ftpd.User.CreditLaws.{saturating_credit_gain_lem, saturating_credit_add_lem}
use weave_ftpd.User.Periods.{LocalTime, reset_transfer_stat_periods_if_due}
use weave_ftpd.User.PeriodLaws.{Keeps, reset-Keeps}
use weave_ftpd.User.Transfers.{
  charge, count_upload, count_download, ensure_anchor, count_transfer, transferred,
}

-- A balance that the program keeps: not negative and an int64.
abbrev pub IsBalance : ℤ → Type 0
IsBalance c = (pos 0 ≤ℤ c) × InRange c

-- The credits that a transfer should leave, in unbounded integers.
abbrev pub credits_after : Bool → Bool → ℤ → User → ℤ
credits_after is_upload apply_credits bytes u =
    if apply_credits && ltb_ℤ (pos 0) u.ratio
    then (if is_upload
        then min_ℤ (u.credits +ℤ pos (min (pos_part bytes * pos_part u.ratio) max_int64))
            (pos max_int64)
        else max_ℤ (pos 0) (u.credits -ℤ bytes))
    else u.credits

charge_lem :
    (bytes credits : ℤ)
    → IsBalance bytes
    → IsBalance credits
    → charge bytes credits ≡ max_ℤ (pos 0) (credits -ℤ bytes)
unfolding charge ◌-₆₄◌ wrap64 ◌-ℤ◌
charge_lem (pos b) (pos c) h k = ground arith
charge_lem (negsuc b) c h k = absurd (omega arith)
charge_lem (pos b) (negsuc c) h k = absurd (omega arith)

max_pos : (n : ℕ) → max_ℤ (pos 0) (pos n) ≡ pos n
max_pos n = ground arith

add_gain :
    (c bytes ratio : ℤ)
    → InRange c
    → saturating_credit_add c (saturating_credit_gain bytes ratio)
      ≡ min_ℤ (c +ℤ pos (min (pos_part bytes * pos_part ratio) max_int64)) (pos max_int64)
add_gain c bytes ratio h =
    let earned : ℕ = min (pos_part bytes * pos_part ratio) max_int64 in
    rw (saturating_credit_gain_lem bytes ratio) (
      saturating_credit_add_lem c (pos earned) h (omega arith)
      ∙ ap (λ d. min_ℤ (c +ℤ d) (pos max_int64)) (max_pos earned))

count-credits :
    (is_upload apply_credits : Bool) (bytes : ℤ) (u : User)
    → IsBalance bytes
    → IsBalance u.credits
    → (count_transfer bytes is_upload apply_credits u).credits
      ≡ credits_after is_upload apply_credits bytes u
unfolding count_transfer count_upload count_download
count-credits true true bytes u h k = elim (Bool-cases (ltb_ℤ (pos 0) u.ratio)) [
  | inl earns ↦ rw earns (add_gain u.credits bytes u.ratio k.1)
  | inr free ↦ rw free
]
count-credits true false bytes u h k = refl
count-credits false true bytes u h k = elim (Bool-cases (ltb_ℤ (pos 0) u.ratio)) [
  | inl pays ↦ rw pays (charge_lem bytes u.credits h k)
  | inr free ↦ rw free
]
count-credits false false bytes u h k = refl

ensure_anchor-Keeps : (now : ℤ) (u v : User) → Keeps u v → Keeps u (ensure_anchor now v)
unfolding ensure_anchor
ensure_anchor-Keeps now u v k = elim (Bool-cases (leb_ℤ v.period_anchor (pos 0))) [
  | inl unknown ↦ rw unknown (record {
    name = k.name;
    credits = k.credits;
    ratio = k.ratio;
    nuke_stat = k.nuke_stat;
    all_up = k.all_up;
    all_dn = k.all_dn;
  })
  | inr known ↦ rw known k
]

credits_after_same :
    (is_upload apply_credits : Bool) (bytes : ℤ) (u v : User)
    → Keeps u v
    → credits_after is_upload apply_credits bytes v ≡ credits_after is_upload apply_credits bytes u
credits_after_same is_upload apply_credits bytes u v k = rw (k.credits, k.ratio)

module _ (local : ℤ → LocalTime) (now bytes : ℤ) (is_upload apply_credits : Bool) (u : User) where
  -- Where the bytes and the credits are non-negative int64s, a transfer leaves the credits of the
  -- account that it has loaded, before it saves it, as follows, whether or not the period counters were due for a reset. If credits apply and the account has a
  -- positive ratio, an upload adds bytes times ratio, up to MaxInt64, and a download takes its bytes,
  -- down to 0. Else the credits stay.
  pub transferred-credits :
      IsBalance bytes
      → IsBalance u.credits
      → (transferred local now bytes is_upload apply_credits u).credits
        ≡ credits_after is_upload apply_credits bytes u
  unfolding transferred
  transferred-credits h k =
      let v = ensure_anchor now (reset_transfer_stat_periods_if_due local now u).0 in
      let same = ensure_anchor-Keeps now u _ (reset-Keeps local now u) in
      count-credits is_upload apply_credits bytes v h (rw (same.credits) k)
      ∙ credits_after_same is_upload apply_credits bytes u v same

paid : (c b : ℤ) → b ≤ℤ c → max_ℤ (pos 0) (c -ℤ b) +ℤ b ≡ c
unfolding ◌-ℤ◌ ◌+ℤ◌
paid c b h = ground arith

affords :
    (ratio credits bytes : ℤ) (access : Bool)
    → pos 0 <ℤ ratio
    → (if access then (if eqb_ℤ ratio (pos 0) then true else leb_ℤ bytes credits) else false) ≡ true
    → bytes ≤ℤ credits
affords ratio credits bytes access r h = ground arith

lt→ltb_ℤ : (a b : ℤ) → a <ℤ b → ltb_ℤ a b ≡ true
lt→ltb_ℤ a b h = ground arith

afforded :
    (bytes : ℤ) (u : User) → pos 0 <ℤ u.ratio → can_download u bytes ≡ true → bytes ≤ℤ u.credits
unfolding can_download
afforded bytes u r h = affords u.ratio u.credits bytes (has_download_access u) r h

-- Of an account with a positive ratio and credits from 0 to MaxInt64, a download to which credits
-- apply and that `can_download` allows takes exactly its bytes, a non-negative int64, from the credits of
-- the account that it has loaded, before it saves it.
pub download_paid :
    (local : ℤ → LocalTime) (now bytes : ℤ) (u : User)
    → IsBalance bytes
    → IsBalance u.credits
    → pos 0 <ℤ u.ratio
    → can_download u bytes ≡ true
    → (transferred local now bytes false true u).credits +ℤ bytes ≡ u.credits
download_paid local now bytes u h k r allowed =
    rw (transferred-credits local now bytes false true u h k, lt→ltb_ℤ (pos 0) u.ratio r)
      (paid u.credits bytes (afforded bytes u r allowed))
