-- ===== src/Slaves/WindowLaws.antt =====
-- The window of a release's race after its payloads.
use weave_ftpd.Base.{
  ℕ, ◌-◌, ◌≤◌, ◌<◌, ◌≡◌, refl, sym, List, [], ◌∷◌, true, false, ◌||◌, Option, none, some,
  if◌then◌else◌, Text, lookup, lookup-insert_self, All, min, max, arith, subst,
}
use weave_ftpd.Base.Int.{ℤ, pos, ltb_ℤ, leb_ℤ, ◌-ℤ◌}
use weave_ftpd.Base.Int64.{max_int64, ◌-₆₄◌, wrap64}
use weave_ftpd.GoPath.Clean.{clean}
use weave_ftpd.Slaves.Releases.{
  ReleaseRaceWindow, ReleaseState, widen, at_least_one, note_race_payload_transfer_at,
  window_length, get_release_race_window_milliseconds,
}

-- Payloads of a release, each with its start and its end in milliseconds.
unfoldable pub note_all : ℤ → Text → List (ℕ × ℕ) → ReleaseState → ReleaseState
note_all now d [] s = s
note_all now d ((start, stop) ∷ rest) s =
    note_all now d rest (note_race_payload_transfer_at now d (pos (stop - start)) (pos stop) s)

-- A transfer that takes time, at a time that an int64 holds.
abbrev pub IsPayload : ℕ × ℕ → Type 0
IsPayload (start, stop) = (0 < start) × (start < stop) × (stop ≤ max_int64)

-- There is no window yet, or one that only the creation of the directory has opened by `stop`.
unfoldable pub IsUnused : ℕ → Option ReleaseRaceWindow → Type 0
IsUnused stop none = Unit
IsUnused stop (some w) = (w.has_payload ≡ false) × (ltb_ℤ (pos stop) w.end_ms ≡ false)

abbrev pub first_start : ℕ → List (ℕ × ℕ) → ℕ
first_start a [] = a
first_start a ((start, stop) ∷ rest) = first_start (min a start) rest

abbrev pub last_end : ℕ → List (ℕ × ℕ) → ℕ
last_end b [] = b
last_end b ((start, stop) ∷ rest) = last_end (max b stop) rest

-- A window of payloads that begins and ends then.
record Spans (a b : ℕ) (o : Option ReleaseRaceWindow) : Type 0 where
  window : ReleaseRaceWindow
  is_there : o ≡ some window
  start : window.start_ms ≡ pos a
  stop : window.end_ms ≡ pos b
  used : window.has_payload ≡ true

start_of :
    (start stop : ℕ)
    → 0 < start
    → start < stop
    → stop ≤ max_int64
    → at_least_one (pos stop -₆₄ pos (stop - start)) ≡ pos start
unfolding ◌-₆₄◌ wrap64 ◌-ℤ◌
start_of start stop h k l = ground arith

later : (n : ℕ) → 0 < n → leb_ℤ (pos n) (pos 0) ≡ false
later n h = ground arith

end_of_unused :
    (e : ℤ) (b : ℕ) → ltb_ℤ (pos b) e ≡ false → (if ltb_ℤ e (pos b) then pos b else e) ≡ pos b
end_of_unused e b h = ground arith

module _ (now : ℤ) (d : Text) where
  note_lem :
      (start stop : ℕ) (s : ReleaseState)
      → IsPayload (start, stop)
      → lookup
          (clean d)
          (note_race_payload_transfer_at now d (pos (stop - start)) (pos stop) s).race_windows
        ≡ some (widen (pos start) (pos stop) (lookup (clean d) s.race_windows))
  unfolding note_race_payload_transfer_at
  note_lem start stop s (h, k, l) =
      rw (later (stop - start) (omega arith), later stop (omega arith), start_of start stop h k l)
        (lookup-insert_self (clean d) _ s.race_windows)

  widen_unused :
      (start stop : ℕ) (o : Option ReleaseRaceWindow)
      → IsUnused stop o
      → Spans start stop (some (widen (pos start) (pos stop) o))
  unfolding widen IsUnused
  widen_unused start stop none h = record {
    window = _;
    is_there = refl;
    start = refl;
    stop = refl;
    used = refl;
  }
  widen_unused start stop (some w) (empty, early) = record {
    window = _;
    is_there = refl;
    start = rw empty refl;
    stop = end_of_unused w.end_ms stop early;
    used = refl;
  }

  widen_used :
      (a b start stop : ℕ) (o : Option ReleaseRaceWindow)
      → 0 < a
      → Spans a b o
      → Spans (min a start) (max b stop) (some (widen (pos start) (pos stop) o))
  unfolding widen
  widen_used a b start stop o h k =
      subst (λ x. Spans (min a start) (max b stop) (some (widen (pos start) (pos stop) x)))
        (sym k.is_there)
        (record {
          window = _;
          is_there = refl;
          start = rw (k.start, k.used) (ground arith);
          stop = rw (k.stop) (ground arith);
          used = refl;
        })

  note_all-Spans :
      (a b : ℕ) (rest : List (ℕ × ℕ)) (s : ReleaseState)
      → 0 < a
      → All IsPayload rest
      → Spans a b (lookup (clean d) s.race_windows)
      → Spans
          (first_start a rest)
          (last_end b rest)
          (lookup (clean d) (note_all now d rest s).race_windows)
  unfolding note_all
  note_all-Spans a b [] s h ps k = k
  note_all-Spans a b ((start, stop) ∷ rest) s h (p, ps) k =
      note_all-Spans (min a start) (max b stop) rest
        (note_race_payload_transfer_at now d (pos (stop - start)) (pos stop) s) (omega (arith, p.0))
        ps
        (subst (Spans (min a start) (max b stop)) (sym (note_lem start stop s p))
          (widen_used a b start stop (lookup (clean d) s.race_windows) h k))

last_end_bound :
    (b : ℕ) (rest : List (ℕ × ℕ)) → b ≤ max_int64 → All IsPayload rest → last_end b rest ≤ max_int64
last_end_bound b [] h ps = h
last_end_bound b ((start, stop) ∷ rest) h (p, ps) =
    last_end_bound (max b stop) rest (omega (arith, p.2)) ps

first_start_pos :
    (a : ℕ) (rest : List (ℕ × ℕ)) → 0 < a → All IsPayload rest → 0 < first_start a rest
first_start_pos a [] h ps = h
first_start_pos a ((start, stop) ∷ rest) h (p, ps) =
    first_start_pos (min a start) rest (omega (arith, p.0)) ps

length_pos :
    (a b : ℕ)
    → 0 < a
    → b ≤ max_int64
    → (if leb_ℤ (pos b) (pos a) || leb_ℤ (pos a) (pos 0) then pos 0 else pos b -₆₄ pos a)
      ≡ pos (b - a)
unfolding ◌-₆₄◌ wrap64 ◌-ℤ◌
length_pos a b h k = ground arith

window_length_lem :
    (a b : ℕ) (o : Option ReleaseRaceWindow)
    → 0 < a
    → b ≤ max_int64
    → Spans a b o
    → window_length o ≡ pos (b - a)
unfolding window_length
window_length_lem a b o h k sp = rw (sp.is_there) (rw (sp.start, sp.stop) (length_pos a b h k))

-- After the payloads of a release have been noted, in any order, the length of its race is the time
-- from the earliest start to the latest end, where each payload starts after time 0 and takes time,
-- and the release had no window before or one without payloads that ends by the end of the first.
pub get_release_race_window_lem :
    (now : ℤ) (d : Text) (start stop : ℕ) (rest : List (ℕ × ℕ)) (s : ReleaseState)
    → IsUnused stop (lookup (clean d) s.race_windows)
    → IsPayload (start, stop)
    → All IsPayload rest
    → get_release_race_window_milliseconds d (note_all now d ((start, stop) ∷ rest) s)
      ≡ pos (last_end stop rest - first_start start rest)
unfolding get_release_race_window_milliseconds note_all
get_release_race_window_lem now d start stop rest s empty p ps =
    window_length_lem (first_start start rest) (last_end stop rest) _
      (first_start_pos start rest p.0 ps) (last_end_bound stop rest p.2 ps)
      (note_all-Spans now d start stop rest
        (note_race_payload_transfer_at now d (pos (stop - start)) (pos stop) s) p.0 ps
        (subst (Spans start stop) (sym (note_lem now d start stop s p))
          (widen_unused now d start stop (lookup (clean d) s.race_windows) empty)))
