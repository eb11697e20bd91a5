-- ===== src/Slaves/Auth.antt =====
-- internal/master/slave_manager.go: the guard against failed handshakes. A time.Time is its instant in
-- nanoseconds, `none` for the zero time, and a Duration a number of nanoseconds. The functions return
-- what they hand to the security hook.
use weave_ftpd.Base.{
  Bool, false, ◌&&◌, Option, none, some, if◌then◌else◌, is_some, Text, text_eq, [], trim_space,
  Dict, lookup, insert, delete,
}
use weave_ftpd.Base.Int.{ℤ, pos, ltb_ℤ, leb_ℤ, min_ℤ, ◌+ℤ◌, ◌-ℤ◌}
use weave_ftpd.Base.Int64.{max_int64, ◌+₆₄◌}

pub record SlaveAuthState : Type 0 where
  pub strikes : ℤ
  pub first_seen : Option ℤ
  pub banned_until : Option ℤ

-- The states by address.
abbrev pub AuthStates : Type 0
AuthStates = Dict SlaveAuthState

pub record AuthGuard : Type 0 where
  pub auth_fail_limit : ℤ
  pub auth_fail_window : ℤ
  pub auth_ban_duration : ℤ
  pub auth_state : AuthStates

abbrev pub no_strikes : SlaveAuthState
no_strikes = record { strikes = pos 0; first_seen = none; banned_until = none }

-- `window > 0 && !first.IsZero() && now.Sub(first) > window`; Sub stops at the greatest Duration.
unfoldable pub window_passed : ℤ → ℤ → Option ℤ → Bool
window_passed window now none = false
window_passed window now (some first) =
    ltb_ℤ (pos 0) window && ltb_ℤ window (min_ℤ (now -ℤ first) (pos max_int64))

abbrev pub state_or_new : Option SlaveAuthState → SlaveAuthState
state_or_new none = no_strikes
state_or_new (some s) = s

abbrev pub or_now : ℤ → Option ℤ → Option ℤ
or_now now none = some now
or_now now (some first) = some first

-- The state after one more strike, and the ban that it earns.
unfoldable pub strike : AuthGuard → ℤ → SlaveAuthState → SlaveAuthState
unfolding window_passed
strike g now s =
    let fresh = (if window_passed g.auth_fail_window now s.first_seen then no_strikes else s) in
    let strikes = fresh.strikes +₆₄ pos 1 in
    record {
      strikes = strikes;
      first_seen = or_now now fresh.first_seen;
      banned_until =
          if ltb_ℤ (pos 0) g.auth_fail_limit
            && (ltb_ℤ (pos 0) g.auth_ban_duration && leb_ℤ g.auth_fail_limit strikes)
          then some (now +ℤ g.auth_ban_duration)
          else fresh.banned_until;
    }

unfoldable pub record_auth_failure : ℤ → Text → AuthGuard → AuthGuard
unfolding strike
record_auth_failure now ip g = if text_eq (trim_space ip) [] then g else record g {
  auth_state = insert ip (strike g now (state_or_new (lookup ip g.auth_state))) g.auth_state;
}

unfoldable pub clear_auth_state : Text → AuthGuard → AuthGuard
clear_auth_state ip g =
    if text_eq (trim_space ip) [] then g else record g { auth_state = delete ip g.auth_state }

abbrev pub is_before : ℤ → Option ℤ → Bool
is_before now none = false
is_before now (some t) = ltb_ℤ now t

-- The state that a check finds: a ban that is over takes the strikes with it.
unfoldable pub after_ban : SlaveAuthState → SlaveAuthState
after_ban s = if is_some s.banned_until then no_strikes else s

unfoldable pub after_window : AuthGuard → ℤ → SlaveAuthState → SlaveAuthState
unfolding window_passed
after_window g now s =
    if window_passed g.auth_fail_window now s.first_seen
    then record s { strikes = pos 0; first_seen = none }
    else s

-- The guard afterwards, and the end of the ban if there is one.
unfoldable pub is_auth_banned : ℤ → Text → AuthGuard → AuthGuard × Option ℤ
unfolding after_ban after_window
is_auth_banned now ip g =
    if text_eq (trim_space ip) [] then (g, none) else elim (lookup ip g.auth_state) [
      | none ↦ (g, none)
      | some s ↦ if is_before now s.banned_until then (g, s.banned_until) else (
        record g { auth_state = insert ip (after_window g now (after_ban s)) g.auth_state },
        none,
      )
    ]
