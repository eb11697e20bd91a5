-- ===== src/User/PeriodLaws.antt =====
-- The reset of the period counters in internal/user/user.go.
use weave_ftpd.Base.{
  ◌≡◌, refl, ◌⊎◌, inl, inr, ◌∙◌, Bool, true, false, arith, if◌then◌else◌, Bool-cases,
}
use weave_ftpd.Base.Int.{ℤ, pos, ◌<ℤ◌, leb_ℤ}
use weave_ftpd.User.Account.{User, StatLine, no_traffic}
use weave_ftpd.User.Periods.{
  LocalTime, same_local_day, same_local_month, same_iso_week, anchor_of, first_known, reset_with,
  reset_stats_from, reset_transfer_stat_periods_if_due,
}

same_local_day_refl : (t : LocalTime) → same_local_day t t ≡ true
unfolding same_local_day
same_local_day_refl t = ground arith

same_local_month_refl : (t : LocalTime) → same_local_month t t ≡ true
unfolding same_local_month
same_local_month_refl t = ground arith

same_iso_week_refl : (t : LocalTime) → same_iso_week t t ≡ true
unfolding same_iso_week
same_iso_week_refl t = ground arith

pub not_unknown : (a : ℤ) → pos 0 <ℤ a → leb_ℤ a (pos 0) ≡ false
not_unknown a h = ground arith

abbrev pub kept : Bool → StatLine → StatLine
kept same s = if same then s else no_traffic

-- The counters of a day, week and month are cleared exactly where the flag of the period is down.
pub record Resets (same_day same_week same_month : Bool) (u r : User) : Type 0 where
  pub day_up : r.day_up ≡ kept same_day u.day_up
  pub day_dn : r.day_dn ≡ kept same_day u.day_dn
  pub wk_up : r.wk_up ≡ kept same_week u.wk_up
  pub wk_dn : r.wk_dn ≡ kept same_week u.wk_dn
  pub month_up : r.month_up ≡ kept same_month u.month_up
  pub month_dn : r.month_dn ≡ kept same_month u.month_dn
  pub all_up : r.all_up ≡ u.all_up
  pub all_dn : r.all_dn ≡ u.all_dn
  pub nuke_stat : r.nuke_stat ≡ u.nuke_stat
  pub credits : r.credits ≡ u.credits
  pub ratio : r.ratio ≡ u.ratio
  pub name : r.name ≡ u.name

abbrev after_reset : Bool → Bool → Bool → ℤ → User → User
after_reset d w m anchor u = record u {
  day_up = kept d u.day_up;
  day_dn = kept d u.day_dn;
  wk_up = kept w u.wk_up;
  wk_dn = kept w u.wk_dn;
  month_up = kept m u.month_up;
  month_dn = kept m u.month_dn;
  period_anchor = anchor;
}

after_reset-Resets :
    (d w m : Bool) (anchor : ℤ) (u : User) → Resets d w m u (after_reset d w m anchor u)
after_reset-Resets d w m anchor u = record {
  day_up = refl;
  day_dn = refl;
  wk_up = refl;
  wk_dn = refl;
  month_up = refl;
  month_dn = refl;
  all_up = refl;
  all_dn = refl;
  nuke_stat = refl;
  credits = refl;
  ratio = refl;
  name = refl;
}

pub reset_with-Resets :
    (d w m : Bool) (now : ℤ) (u : User) → Resets d w m u (reset_with d w m now u).0
unfolding reset_with
reset_with-Resets true true true now u = after_reset-Resets true true true u.period_anchor u
reset_with-Resets true true false now u = after_reset-Resets true true false now u
reset_with-Resets true false true now u = after_reset-Resets true false true now u
reset_with-Resets true false false now u = after_reset-Resets true false false now u
reset_with-Resets false true true now u = after_reset-Resets false true true now u
reset_with-Resets false true false now u = after_reset-Resets false true false now u
reset_with-Resets false false true now u = after_reset-Resets false false true now u
reset_with-Resets false false false now u = after_reset-Resets false false false now u

reset_with-anchor :
    (d w m : Bool) (now : ℤ) (u : User)
    → (reset_with d w m now u ≡ (u, false)) ⊎ ((reset_with d w m now u).0.period_anchor ≡ now)
unfolding reset_with
reset_with-anchor true true true now u = inl refl
reset_with-anchor _ _ _ now u = inr refl

anchor_known : (a b c now : ℤ) → pos 0 <ℤ now → a ≡ now → first_known a b c ≡ now
unfolding first_known
anchor_known a b c now h e = rw e (rw (not_unknown now h) (rw (not_unknown now h)))

anchor_of_period_anchor :
    (u : User) (now : ℤ) → pos 0 <ℤ now → u.period_anchor ≡ now → anchor_of u ≡ now
unfolding anchor_of
anchor_of_period_anchor u now h e =
    anchor_known u.period_anchor u.file_mod_time u.last_login now h e

module _ (local : ℤ → LocalTime) (now : ℤ) where
  reset_unknown :
      (u : User)
      → leb_ℤ (anchor_of u) (pos 0) ≡ true
      → reset_transfer_stat_periods_if_due local now u ≡ (u, false)
  unfolding reset_transfer_stat_periods_if_due
  reset_unknown u e = rw e

  pub reset_known :
      (u : User)
      → leb_ℤ (anchor_of u) (pos 0) ≡ false
      → reset_transfer_stat_periods_if_due local now u
        ≡ reset_stats_from local (local (anchor_of u)) now u
  unfolding reset_transfer_stat_periods_if_due
  reset_known u e = rw e

  reset_from_now : (u : User) → reset_stats_from local (local now) now u ≡ (u, false)
  unfolding reset_stats_from reset_with
  reset_from_now u = rw (
    same_local_day_refl (local now),
    same_iso_week_refl (local now),
    same_local_month_refl (local now),
  )

  reset_at_now :
      (u : User)
      → pos 0 <ℤ now
      → u.period_anchor ≡ now
      → reset_transfer_stat_periods_if_due local now u ≡ (u, false)
  reset_at_now u h e =
      let anchored = anchor_of_period_anchor u now h e in
      reset_known u (rw anchored (not_unknown now h)) ∙ rw anchored (reset_from_now u)

  reset_twice :
      (u : User)
      → pos 0 <ℤ now
      → (leb_ℤ (anchor_of u) (pos 0) ≡ true) ⊎ (leb_ℤ (anchor_of u) (pos 0) ≡ false)
      → (reset_transfer_stat_periods_if_due local now u ≡ (u, false))
        ⊎ ((reset_transfer_stat_periods_if_due local now u).0.period_anchor ≡ now)
  unfolding reset_stats_from
  reset_twice u h (inl unknown) = inl (reset_unknown u unknown)
  reset_twice u h (inr known) = rw (reset_known u known) (reset_with-anchor _ _ _ now u)

  -- A reset is complete: a second one at the same, positive time changes nothing and says so.
  pub reset_idempotent :
      (u : User)
      → pos 0 <ℤ now
      → reset_transfer_stat_periods_if_due local now
          (reset_transfer_stat_periods_if_due local now u).0
        ≡ ((reset_transfer_stat_periods_if_due local now u).0, false)
  reset_idempotent u h = elim (reset_twice u h (Bool-cases _)) [
    | inl same ↦ rw same same
    | inr anchored ↦ reset_at_now _ h anchored
  ]

-- What a reset leaves alone, whether the counters' date is known or not.
pub record Keeps (u r : User) : Type 0 where
  pub name : r.name ≡ u.name
  pub credits : r.credits ≡ u.credits
  pub ratio : r.ratio ≡ u.ratio
  pub nuke_stat : r.nuke_stat ≡ u.nuke_stat
  pub all_up : r.all_up ≡ u.all_up
  pub all_dn : r.all_dn ≡ u.all_dn

Keeps-of_Resets : {d w m : Bool} {u r : User} → Resets d w m u r → Keeps u r
Keeps-of_Resets h = record {
  name = h.name;
  credits = h.credits;
  ratio = h.ratio;
  nuke_stat = h.nuke_stat;
  all_up = h.all_up;
  all_dn = h.all_dn;
}

module _ (local : ℤ → LocalTime) (now : ℤ) where
  pub reset-Keeps : (u : User) → Keeps u (reset_transfer_stat_periods_if_due local now u).0
  unfolding reset_stats_from
  reset-Keeps u = elim (Bool-cases (leb_ℤ (anchor_of u) (pos 0))) [
    | inl unknown ↦
        rw (reset_unknown local now u unknown)
          (Keeps-of_Resets (after_reset-Resets true true true u.period_anchor u))
    | inr known ↦
        rw (reset_known local now u known) (Keeps-of_Resets (reset_with-Resets _ _ _ now u))
  ]
