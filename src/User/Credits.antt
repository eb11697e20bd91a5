-- ===== src/User/Credits.antt =====
-- internal/user/user.go: credits earned by an upload, with saturation at MaxInt64.
use weave_ftpd.Base.{◌||◌, if◌then◌else◌}
use weave_ftpd.Base.Int.{ℤ, pos, ltb_ℤ, leb_ℤ}
use weave_ftpd.Base.Int64.{max_int64, ◌+₆₄◌, ◌-₆₄◌, ◌*₆₄◌, div64}

unfoldable pub saturating_credit_gain : ℤ → ℤ → ℤ
saturating_credit_gain bytes ratio =
    if leb_ℤ bytes (pos 0) || leb_ℤ ratio (pos 0)
    then pos 0
    else if ltb_ℤ (div64 (pos max_int64) ratio) bytes
    then pos max_int64
    else bytes *₆₄ ratio

unfoldable pub saturating_credit_add : ℤ → ℤ → ℤ
saturating_credit_add current delta =
    if leb_ℤ delta (pos 0)
    then current
    else if ltb_ℤ (pos max_int64 -₆₄ delta) current
    then pos max_int64
    else current +₆₄ delta
