-- ===== src/User/Periods.antt =====
-- internal/user/user.go: the reset of the day, week and month counters. The local calendar (package
-- `time` with the zone of the server, a table outside the program) is the parameter `local`.
use weave_ftpd.Base.{Bool, true, false, ◌&&◌, ◌||◌, not, if◌then◌else◌}
use weave_ftpd.Base.Int.{ℤ, pos, leb_ℤ, eqb_ℤ}
use weave_ftpd.User.Account.{User, no_traffic}

-- Date() and ISOWeek() of an instant in the server's zone.
pub record LocalTime : Type 0 where
  pub year : ℤ
  pub month : ℤ
  pub day : ℤ
  pub iso_year : ℤ
  pub iso_week : ℤ

unfoldable pub same_local_day : LocalTime → LocalTime → Bool
same_local_day a b = eqb_ℤ a.year b.year && (eqb_ℤ a.month b.month && eqb_ℤ a.day b.day)

unfoldable pub same_local_month : LocalTime → LocalTime → Bool
same_local_month a b = eqb_ℤ a.year b.year && eqb_ℤ a.month b.month

unfoldable pub same_iso_week : LocalTime → LocalTime → Bool
same_iso_week a b = eqb_ℤ a.iso_year b.iso_year && eqb_ℤ a.iso_week b.iso_week

unfoldable pub first_known : ℤ → ℤ → ℤ → ℤ
first_known a b c = let d = (if leb_ℤ a (pos 0) then b else a) in if leb_ℤ d (pos 0) then c else d

-- The instant that the counters date from; not positive if it is not known.
unfoldable pub anchor_of : User → ℤ
unfolding first_known
anchor_of u = first_known u.period_anchor u.file_mod_time u.last_login

unfoldable pub reset_day : Bool → User → User
reset_day same u = if same then u else record u { day_up = no_traffic; day_dn = no_traffic }

unfoldable pub reset_week : Bool → User → User
reset_week same u = if same then u else record u { wk_up = no_traffic; wk_dn = no_traffic }

unfoldable pub reset_month : Bool → User → User
reset_month same u = if same then u else record u { month_up = no_traffic; month_dn = no_traffic }

unfoldable pub reset_with : Bool → Bool → Bool → ℤ → User → User × Bool
unfolding reset_day reset_week reset_month
reset_with same_day same_week same_month now u =
    let u' = reset_month same_month (reset_week same_week (reset_day same_day u)) in
    if not same_day || (not same_week || not same_month)
    then (record u' { period_anchor = now }, true)
    else (u', false)

module _ (local : ℤ → LocalTime) where
  unfoldable pub reset_stats_from : LocalTime → ℤ → User → User × Bool
  reset_stats_from prev now u =
      reset_with (same_local_day prev (local now)) (same_iso_week prev (local now))
        (same_local_month prev (local now)) now u

  -- ResetTransferStatPeriodsIfDue
  unfoldable pub reset_transfer_stat_periods_if_due : ℤ → User → User × Bool
  unfolding reset_stats_from
  reset_transfer_stat_periods_if_due now u =
      if leb_ℤ (anchor_of u) (pos 0)
      then (u, false)
      else reset_stats_from (local (anchor_of u)) now u
