-- ===== src/Nuke/Examples.antt =====
-- The laws of nukes at a concrete account.
use weave_ftpd.Base.{◌≡◌, refl, arith, ◌≤◌, ◌<◌, ◌+◌}
use weave_ftpd.Base.Int.{pos, ◌+ℤ◌}
use weave_ftpd.Base.Int64.{max_int64, InRange}
use weave_ftpd.User.Sample.{ann}
use weave_ftpd.Nuke.Credits.{nuke_credit_penalty, nuked_credits, nuke_account, restore_account}
use weave_ftpd.Nuke.CreditLaws.{nuke_credit_penalty_lem, nuke_account_exact, restore-nuke}

ann_InRange : InRange ann.credits
ann_InRange = (omega arith, omega arith)

nuke_account_exact_example :
    (nuked_credits (pos 10) (pos 2) ann ≡ pos 60)
    × ((nuke_account (pos 9) (pos 10) (pos 2) ann).credits +ℤ nuked_credits (pos 10) (pos 2) ann
        ≡ pos 1000)
nuke_account_exact_example = nuke_account_exact (pos 9) (pos 10) (pos 2) ann ann_InRange

nuke_credit_penalty_example : nuke_credit_penalty (pos 10) (pos 3) (pos 2) ≡ pos 60
nuke_credit_penalty_example = nuke_credit_penalty_lem (pos 10) (pos 3) (pos 2)

ann_nukes_fit : 2 < max_int64
ann_nukes_fit = omega arith

ann_bytes_fit : 20 + 10 ≤ max_int64
ann_bytes_fit = omega arith

restore-nuke_example :
    let nuked_account = nuke_account (pos 9) (pos 10) (pos 2) ann in
    let restored = restore_account (nuked_credits (pos 10) (pos 2) ann) (pos 10) nuked_account in
    (restored.credits ≡ pos 1000)
    × (restored.nuke_stat.files ≡ pos 2)
    × (restored.nuke_stat.bytes ≡ pos 20)
restore-nuke_example =
    restore-nuke (pos 9) (pos 2) 10 2 20 ann ann_InRange refl refl ann_nukes_fit ann_bytes_fit
