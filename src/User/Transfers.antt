-- ===== src/User/Transfers.antt =====
-- internal/user/user.go: what UpdateStatsWithCredits does to the account that it has loaded, before it
-- saves it.
use weave_ftpd.Base.{Bool, ◌&&◌, if◌then◌else◌}
use weave_ftpd.Base.Int.{ℤ, pos, ltb_ℤ, leb_ℤ}
use weave_ftpd.Base.Int64.{◌+₆₄◌, ◌-₆₄◌}
use weave_ftpd.User.Account.{StatLine, User}
use weave_ftpd.User.Credits.{saturating_credit_gain, saturating_credit_add}
use weave_ftpd.User.Periods.{LocalTime, reset_transfer_stat_periods_if_due}

unfoldable pub count_file : ℤ → StatLine → StatLine
count_file bytes s = record s { files = s.files +₆₄ pos 1; bytes = s.bytes +₆₄ bytes }

unfoldable pub count_upload : ℤ → Bool → User → User
unfolding count_file
count_upload bytes apply_credits u =
    let counted = record u {
      all_up = count_file bytes u.all_up;
      wk_up = count_file bytes u.wk_up;
      day_up = count_file bytes u.day_up;
      month_up = count_file bytes u.month_up;
    } in
    if apply_credits && ltb_ℤ (pos 0) u.ratio
    then record counted {
      credits = saturating_credit_add u.credits (saturating_credit_gain bytes u.ratio);
    }
    else counted

-- `credits -= bytes`, and not below 0
unfoldable pub charge : ℤ → ℤ → ℤ
charge bytes credits = let left = credits -₆₄ bytes in if ltb_ℤ left (pos 0) then pos 0 else left

unfoldable pub count_download : ℤ → Bool → User → User
unfolding count_file charge
count_download bytes apply_credits u =
    let counted = record u {
      all_dn = count_file bytes u.all_dn;
      wk_dn = count_file bytes u.wk_dn;
      day_dn = count_file bytes u.day_dn;
      month_dn = count_file bytes u.month_dn;
    } in
    if apply_credits && ltb_ℤ (pos 0) u.ratio
    then record counted { credits = charge bytes u.credits }
    else counted

unfoldable pub ensure_anchor : ℤ → User → User
ensure_anchor now u = if leb_ℤ u.period_anchor (pos 0) then record u { period_anchor = now } else u

unfoldable pub count_transfer : ℤ → Bool → Bool → User → User
count_transfer bytes is_upload apply_credits u =
    if is_upload then count_upload bytes apply_credits u else count_download bytes apply_credits u

module _ (local : ℤ → LocalTime) where
  -- The account as the transfer leaves it, before it is saved.
  unfoldable pub transferred : ℤ → ℤ → Bool → Bool → User → User
  transferred now bytes is_upload apply_credits u =
      count_transfer bytes is_upload apply_credits
        (ensure_anchor now (reset_transfer_stat_periods_if_due local now u).0)
