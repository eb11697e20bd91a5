-- ===== src/User/Examples.antt =====
-- The laws of accounts at a concrete account.
use weave_ftpd.Base.{◌≡◌, refl, true, false, arith, contains}
use weave_ftpd.Base.Int.{pos, ◌+ℤ◌, ◌<ℤ◌}
use weave_ftpd.User.Account.{can_download}
use weave_ftpd.User.Periods.{anchor_of, reset_transfer_stat_periods_if_due}
use weave_ftpd.User.PeriodLaws.{reset_idempotent}
use weave_ftpd.User.CalendarLaws.{ResetsBy, reset-ResetsBy}
use weave_ftpd.User.Transfers.{transferred}
use weave_ftpd.User.TransferLaws.{IsBalance, transferred-credits, download_paid}
use weave_ftpd.User.Sample.{ann, sample_local}

hundred_IsBalance : IsBalance (pos 100)
hundred_IsBalance = (omega arith, (omega arith, omega arith))

ann_IsBalance : IsBalance ann.credits
ann_IsBalance = (omega arith, (omega arith, omega arith))

transferred-credits_example :
    (transferred sample_local (pos 9) (pos 100) true true ann).credits ≡ pos 1300
unfolding ◌+ℤ◌
transferred-credits_example =
    transferred-credits sample_local (pos 9) (pos 100) true true ann hundred_IsBalance ann_IsBalance

ann_earns : pos 0 <ℤ ann.ratio
ann_earns = omega arith

ann-can_download : can_download ann (pos 100) ≡ true
unfolding can_download contains
ann-can_download = refl

download_paid_example :
    (transferred sample_local (pos 9) (pos 100) false true ann).credits +ℤ pos 100 ≡ pos 1000
download_paid_example =
    download_paid sample_local (pos 9) (pos 100) ann hundred_IsBalance ann_IsBalance ann_earns
      ann-can_download

ann_anchored : pos 0 <ℤ anchor_of ann
unfolding anchor_of
ann_anchored = omega arith

reset-ResetsBy_example :
    ResetsBy
      (sample_local (anchor_of ann))
      (sample_local (pos 9))
      ann
      (reset_transfer_stat_periods_if_due sample_local (pos 9) ann).0
reset-ResetsBy_example = reset-ResetsBy sample_local (pos 9) ann ann_anchored

nine_positive : pos 0 <ℤ pos 9
nine_positive = omega arith

reset_idempotent_example :
    reset_transfer_stat_periods_if_due sample_local
      (pos 9)
      (reset_transfer_stat_periods_if_due sample_local (pos 9) ann).0
    ≡ ((reset_transfer_stat_periods_if_due sample_local (pos 9) ann).0, false)
reset_idempotent_example = reset_idempotent sample_local (pos 9) ann nine_positive
