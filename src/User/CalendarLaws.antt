-- ===== src/User/CalendarLaws.antt =====
-- The reset of the period counters by the calendar.
use weave_ftpd.Base.{◌≡◌, ◌↔◌, refl, Bool, true, false, arith}
use weave_ftpd.Base.Int.{ℤ, pos, ◌<ℤ◌}
use weave_ftpd.User.Account.{User, StatLine, no_traffic}
use weave_ftpd.User.Periods.{
  LocalTime, same_local_day, same_local_month, same_iso_week, anchor_of, reset_with,
  reset_stats_from, reset_transfer_stat_periods_if_due,
}
use weave_ftpd.User.PeriodLaws.{kept, not_unknown, reset_known, reset_with-Resets}

pub SameDay : LocalTime → LocalTime → Type 0
SameDay a b = (a.year ≡ b.year) × (a.month ≡ b.month) × (a.day ≡ b.day)

pub SameWeek : LocalTime → LocalTime → Type 0
SameWeek a b = (a.iso_year ≡ b.iso_year) × (a.iso_week ≡ b.iso_week)

pub SameMonth : LocalTime → LocalTime → Type 0
SameMonth a b = (a.year ≡ b.year) × (a.month ≡ b.month)

same_local_day_iff : (a b : LocalTime) → (same_local_day a b ≡ true) ↔ SameDay a b
unfolding same_local_day SameDay
same_local_day_iff a b = ground arith

same_iso_week_iff : (a b : LocalTime) → (same_iso_week a b ≡ true) ↔ SameWeek a b
unfolding same_iso_week SameWeek
same_iso_week_iff a b = ground arith

same_local_month_iff : (a b : LocalTime) → (same_local_month a b ≡ true) ↔ SameMonth a b
unfolding same_local_month SameMonth
same_local_month_iff a b = ground arith

-- A counter stays where the period is the same, and is cleared where it is another.
pub StaysIf : Type 0 → StatLine → StatLine → Type 0
StaysIf P old new = (P → new ≡ old) × (¬ P → new ≡ no_traffic)

StaysIf-of_kept :
    (P : Type 0) (same : Bool) (old new : StatLine)
    → ((same ≡ true) ↔ P)
    → new ≡ kept same old
    → StaysIf P old new
unfolding StaysIf
StaysIf-of_kept P true old new e h = (λ p. h, λ np. absurd (np (e.0 refl)))
StaysIf-of_kept P false old new e h = (λ p. cc (e.1 p), λ np. h)

-- Nothing but the counters of periods and their anchor changes.
abbrev pub OnlyPeriods : User → User → Type 0
OnlyPeriods u r = r ≡ record u {
  day_up = r.day_up;
  day_dn = r.day_dn;
  wk_up = r.wk_up;
  wk_dn = r.wk_dn;
  month_up = r.month_up;
  month_dn = r.month_dn;
  period_anchor = r.period_anchor;
}

-- The counters of a period stay exactly in the same period; no other field but the anchor changes.
pub record ResetsBy (before now : LocalTime) (u r : User) : Type 0 where
  pub day_up : StaysIf (SameDay before now) u.day_up r.day_up
  pub day_dn : StaysIf (SameDay before now) u.day_dn r.day_dn
  pub wk_up : StaysIf (SameWeek before now) u.wk_up r.wk_up
  pub wk_dn : StaysIf (SameWeek before now) u.wk_dn r.wk_dn
  pub month_up : StaysIf (SameMonth before now) u.month_up r.month_up
  pub month_dn : StaysIf (SameMonth before now) u.month_dn r.month_dn
  pub rest : OnlyPeriods u r

reset_with-rest : (d w m : Bool) (now : ℤ) (u : User) → OnlyPeriods u (reset_with d w m now u).0
unfolding reset_with
reset_with-rest true true true now u = refl
reset_with-rest true true false now u = refl
reset_with-rest true false true now u = refl
reset_with-rest true false false now u = refl
reset_with-rest false true true now u = refl
reset_with-rest false true false now u = refl
reset_with-rest false false true now u = refl
reset_with-rest false false false now u = refl

reset_stats_from-ResetsBy :
    (local : ℤ → LocalTime) (before : LocalTime) (now : ℤ) (u : User)
    → ResetsBy before (local now) u (reset_stats_from local before now u).0
unfolding reset_stats_from
reset_stats_from-ResetsBy local before now u =
    let d = same_local_day before (local now) in
    let w = same_iso_week before (local now) in
    let m = same_local_month before (local now) in
    let h = reset_with-Resets d w m now u in
    let day = same_local_day_iff before (local now) in
    let week = same_iso_week_iff before (local now) in
    let month = same_local_month_iff before (local now) in
    record {
      day_up = StaysIf-of_kept _ d _ _ day h.day_up;
      day_dn = StaysIf-of_kept _ d _ _ day h.day_dn;
      wk_up = StaysIf-of_kept _ w _ _ week h.wk_up;
      wk_dn = StaysIf-of_kept _ w _ _ week h.wk_dn;
      month_up = StaysIf-of_kept _ m _ _ month h.month_up;
      month_dn = StaysIf-of_kept _ m _ _ month h.month_dn;
      rest = reset_with-rest d w m now u;
    }

-- Where the counters date from a known instant, the upload and download counters of the day, the ISO
-- week and the month stay where that instant lies in the same day, ISO week of the same ISO year, or
-- month of the same year as now, and are cleared where it does not; no other field but the anchor
-- changes.
pub reset-ResetsBy :
    (local : ℤ → LocalTime) (now : ℤ) (u : User)
    → pos 0 <ℤ anchor_of u
    → ResetsBy
        (local (anchor_of u))
        (local now)
        u
        (reset_transfer_stat_periods_if_due local now u).0
reset-ResetsBy local now u h =
    rw (reset_known local now u (not_unknown (anchor_of u) h))
      (reset_stats_from-ResetsBy local (local (anchor_of u)) now u)
