-- ===== src/Slaves/AuthLaws.antt =====
-- What the guard against failed handshakes makes of a run of failures from one address.
use weave_ftpd.Base.{
  ℕ, ◌+◌, ◌≤◌, ◌<◌, ◌≡◌, refl, ap, ◌∙◌, List, [], ◌∷◌, Bool, false, ◌&&◌, none, some, if◌then◌else◌,
  Text, text_eq, trim_space, lookup, insert, lookup-insert_self, All, length, arith, Bool-cases,
  inl, inr,
}
use weave_ftpd.Base.Int.{ℤ, pos, ltb_ℤ, leb_ℤ, min_ℤ, ◌≤ℤ◌, ◌+ℤ◌, ◌-ℤ◌}
use weave_ftpd.Base.Int64.{max_int64, ◌+₆₄◌, wrap64}
use weave_ftpd.Slaves.Auth.{
  SlaveAuthState, AuthGuard, no_strikes, window_passed, state_or_new, strike, record_auth_failure,
  is_auth_banned,
}

-- Failures of one address at these times, one after the other.
unfoldable pub record_failures : List ℤ → Text → AuthGuard → AuthGuard
record_failures [] ip g = g
record_failures (t ∷ ts) ip g = record_failures ts ip (record_auth_failure t ip g)

not_passed : (w d : ℤ) → d ≤ℤ w → (ltb_ℤ (pos 0) w && ltb_ℤ w (min_ℤ d (pos max_int64))) ≡ false
not_passed w d h = ground arith

one_more : (n : ℕ) → n < max_int64 → pos n +₆₄ pos 1 ≡ pos (n + 1)
unfolding ◌+₆₄◌ wrap64 ◌+ℤ◌
one_more n h = ground arith

-- So many failures are enough for a ban.
abbrev pub bans : AuthGuard → ℕ → Bool
bans g n =
    ltb_ℤ (pos 0) g.auth_fail_limit
    && (ltb_ℤ (pos 0) g.auth_ban_duration && leb_ℤ g.auth_fail_limit (pos n))

bans_fewer :
    (limit : ℤ) (b : Bool) (n : ℕ)
    → (ltb_ℤ (pos 0) limit && (b && leb_ℤ limit (pos (n + 1)))) ≡ false
    → (ltb_ℤ (pos 0) limit && (b && leb_ℤ limit (pos n))) ≡ false
bans_fewer limit b n h = ground arith

-- The last of these times.
abbrev pub last_of : ℤ → List ℤ → ℤ
last_of t [] = t
last_of t (u ∷ us) = last_of u us

module _ (ip : Text) (first : ℤ) where
  -- The state after `n` failures, the first at `first` and the last at `t`.
  abbrev struck : AuthGuard → ℕ → ℤ → SlaveAuthState
  struck g n t = record {
    strikes = pos n;
    first_seen = some first;
    banned_until = if bans g n then some (t +ℤ g.auth_ban_duration) else none;
  }

  -- One more strike, which the window does not clear.
  strike-struck :
      (g : AuthGuard) (n : ℕ) (t u : ℤ)
      → (u -ℤ first) ≤ℤ g.auth_fail_window
      → n < max_int64
      → strike g u (struck g n t) ≡ struck g (n + 1) u
  unfolding strike window_passed
  strike-struck g n t u w h =
      rw (not_passed g.auth_fail_window (u -ℤ first) w, one_more n h)
        (elim (Bool-cases (bans g (n + 1))) [
          | inl earned ↦ rw earned refl
          | inr spared ↦ rw (spared, bans_fewer g.auth_fail_limit _ n spared) refl
        ])

  strike-first : (g : AuthGuard) → strike g first no_strikes ≡ struck g 1 first
  unfolding strike window_passed
  strike-first g = rw (one_more 0 (omega arith)) refl

  module _ (named : text_eq (trim_space ip) [] ≡ false) where
    record_auth_failure_lem :
        (g : AuthGuard) (t : ℤ) (s s' : SlaveAuthState)
        → state_or_new (lookup ip g.auth_state) ≡ s
        → strike g t s ≡ s'
        → record_auth_failure t ip g ≡ record g { auth_state = insert ip s' g.auth_state }
    unfolding record_auth_failure
    record_auth_failure_lem g t s s' e k = rw (named, e, k) refl

    record_failures-struck :
        (ts : List ℤ) (g : AuthGuard) (n : ℕ) (t : ℤ)
        → lookup ip g.auth_state ≡ some (struck g n t)
        → All (λ u. (u -ℤ first) ≤ℤ g.auth_fail_window) ts
        → n + length ts ≤ max_int64
        → lookup ip (record_failures ts ip g).auth_state
          ≡ some (struck g (n + length ts) (last_of t ts))
    unfolding record_failures
    record_failures-struck [] g n t e w h = rw e (ap (λ m. some (struck g m t)) (omega arith))
    record_failures-struck (u ∷ ts) g n t e (w, ws) h =
        let s' = struck g (n + 1) u in
        ap (λ k. lookup ip (record_failures ts ip k).auth_state)
          (record_auth_failure_lem g u (struck g n t) s' (ap state_or_new e)
            (strike-struck g n t u w (omega arith)))
        ∙ (record_failures-struck ts (record g { auth_state = insert ip s' g.auth_state }) (n + 1) u
              (lookup-insert_self ip s' g.auth_state) ws (omega arith)
            ∙ ap (λ m. some (struck g m (last_of u ts))) (omega arith))

    run-struck :
        (ts : List ℤ) (g : AuthGuard)
        → lookup ip g.auth_state ≡ none
        → All (λ u. (u -ℤ first) ≤ℤ g.auth_fail_window) ts
        → 1 + length ts ≤ max_int64
        → lookup ip (record_failures (first ∷ ts) ip g).auth_state
          ≡ some (struck g (1 + length ts) (last_of first ts))
    unfolding record_failures
    run-struck ts g e w h =
        let s' = struck g 1 first in
        ap (λ k. lookup ip (record_failures ts ip k).auth_state)
          (record_auth_failure_lem g first no_strikes s' (ap state_or_new e) (strike-first g))
        ∙ record_failures-struck ts (record g { auth_state = insert ip s' g.auth_state }) 1 first
            (lookup-insert_self ip s' g.auth_state) w h

    check-struck :
        (now : ℤ) (g k : AuthGuard) (n : ℕ) (t : ℤ)
        → lookup ip k.auth_state ≡ some (struck g n t)
        → (is_auth_banned now ip k).1 ≡ (
            if bans g n && ltb_ℤ now (t +ℤ g.auth_ban_duration)
            then some (t +ℤ g.auth_ban_duration)
            else none)
    unfolding is_auth_banned
    check-struck now g k n t e = elim (Bool-cases (bans g n)) [
      | inl earned ↦ elim (Bool-cases (ltb_ℤ now (t +ℤ g.auth_ban_duration))) [
        | inl early ↦ rw (named, e, is_auth_banned, earned, early) refl
        | inr late ↦ rw (named, e, is_auth_banned, earned, late) refl
      ]
      | inr spared ↦ rw (named, e, is_auth_banned, spared) refl
    ]

-- An address without strikes fails handshakes at `first` and at the times `ts`, none of which lies
-- outside the window that began at `first`. A check for its ban at `now` then finds a ban exactly if
-- a limit and a ban duration are set, the failures have reached the limit, and `now` is before the
-- last failure plus the ban duration, which is the end of the ban that it returns.
pub is_auth_banned-record_failures :
    (now first : ℤ) (ts : List ℤ) (ip : Text) (g : AuthGuard)
    → text_eq (trim_space ip) [] ≡ false
    → lookup ip g.auth_state ≡ none
    → All (λ t. (t -ℤ first) ≤ℤ g.auth_fail_window) ts
    → 1 + length ts ≤ max_int64
    → (is_auth_banned now ip (record_failures (first ∷ ts) ip g)).1 ≡ (
        if bans g (1 + length ts) && ltb_ℤ now (last_of first ts +ℤ g.auth_ban_duration)
        then some (last_of first ts +ℤ g.auth_ban_duration)
        else none)
is_auth_banned-record_failures now first ts ip g named e w h =
    check-struck ip first named now g (record_failures (first ∷ ts) ip g) (1 + length ts)
      (last_of first ts) (run-struck ip first named ts g e w h)
