-- ===== src/Nuke/Credits.antt =====
-- internal/core/nuke_helpers.go: what one nuke and its unnuke do to one account.
use weave_ftpd.Base.{◌||◌, if◌then◌else◌}
use weave_ftpd.Base.Int.{ℤ, pos, ltb_ℤ, leb_ℤ}
use weave_ftpd.Base.Int64.{max_int64, ◌+₆₄◌, ◌-₆₄◌, ◌*₆₄◌, div64}
use weave_ftpd.User.Account.{StatLine, User}
use weave_ftpd.User.Credits.{saturating_credit_add}

pub record NukeeRecord : Type 0 where
  pub bytes : ℤ
  pub credits : ℤ

-- The product `base * m`, or MaxInt64 where the test says that it would overflow.
abbrev pub capped_mul : ℤ → ℤ → ℤ
capped_mul base m = if ltb_ℤ (div64 (pos max_int64) m) base then pos max_int64 else base *₆₄ m

unfoldable pub nuke_credit_penalty : ℤ → ℤ → ℤ → ℤ
nuke_credit_penalty bytes ratio multiplier =
    if leb_ℤ bytes (pos 0) || (leb_ℤ ratio (pos 0) || leb_ℤ multiplier (pos 0))
    then pos 0
    else if ltb_ℤ (div64 (pos max_int64) ratio) bytes
    then pos max_int64
    else capped_mul (bytes *₆₄ ratio) multiplier

unfoldable pub clamp_credit_removal : ℤ → ℤ → ℤ
clamp_credit_removal balance penalty =
    if leb_ℤ balance (pos 0) || leb_ℤ penalty (pos 0)
    then pos 0
    else if ltb_ℤ balance penalty
    then balance
    else penalty

-- The credits that the change of ApplyNukeCredits takes, and the account that it leaves.
unfoldable pub nuked_credits : ℤ → ℤ → User → ℤ
nuked_credits bytes multiplier u =
    clamp_credit_removal u.credits (nuke_credit_penalty bytes u.ratio multiplier)

unfoldable pub nuke_account : ℤ → ℤ → ℤ → User → User
unfolding nuked_credits
nuke_account now bytes multiplier u = record u {
  credits = u.credits -₆₄ nuked_credits bytes multiplier u;
  nuke_stat = record {
    files = u.nuke_stat.files +₆₄ pos 1;
    bytes = u.nuke_stat.bytes +₆₄ bytes;
    meta = now;
  };
}

-- `nuke_stat` without one nuke of so many bytes
unfoldable pub forget_nuke : ℤ → StatLine → StatLine
forget_nuke bytes s =
    let left = s.bytes -₆₄ bytes in
    record s {
      files = if ltb_ℤ (pos 0) s.files then s.files -₆₄ pos 1 else s.files;
      bytes = if ltb_ℤ left (pos 0) then pos 0 else left;
    }

-- The change of ApplyUnnukeCredits, and of its fallback with the amount recomputed.
unfoldable pub restore_account : ℤ → ℤ → User → User
unfolding forget_nuke
restore_account credits bytes u = record u {
  credits = saturating_credit_add u.credits credits;
  nuke_stat = forget_nuke bytes u.nuke_stat;
}
