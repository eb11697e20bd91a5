-- ===== src/Slaves/Releases.antt =====
-- internal/master/slave_manager.go: what the master keeps of a release beside its files: media
-- information, the announcements made, and the window of its race.
use weave_ftpd.Base.{
  [], ◌∷◌, ◌++◌, Bool, true, false, ◌||◌, not, Option, none, some, if◌then◌else◌, Text, text_eq,
  has_prefix, trim_space, trim_right, ◌==◌, Dict, lookup, insert, delete,
}
use weave_ftpd.Base.Int.{ℤ, pos, ltb_ℤ, leb_ℤ}
use weave_ftpd.Base.Int64.{◌-₆₄◌}
use weave_ftpd.GoPath.Clean.{slash, clean}

pub record ReleaseRaceWindow : Type 0 where
  pub start_ms : ℤ
  pub end_ms : ℤ
  pub updated_at_ms : ℤ
  pub has_payload : Bool

pub record ReleaseState : Type 0 where
  pub media : Dict (Dict Text)
  pub announcements : Dict (Dict Bool)
  pub race_windows : Dict ReleaseRaceWindow

abbrev is_no_fields : Dict Text → Bool
is_no_fields [] = true
is_no_fields (f ∷ fs) = false

unfoldable pub set_release_media_info : Text → Dict Text → ReleaseState → ReleaseState
set_release_media_info dir_path fields s =
    let d = clean dir_path in
    if is_no_fields fields
    then record s { media = delete d s.media }
    else record s { media = insert d fields s.media }

unfoldable pub reset_release_race_window : Text → ReleaseState → ReleaseState
reset_release_race_window dir_path s = record s {
  race_windows = delete (clean dir_path) s.race_windows;
}

abbrev pub seed_window : ℤ → Option ReleaseRaceWindow → ReleaseRaceWindow
seed_window start none = record {
  start_ms = start;
  end_ms = start;
  updated_at_ms = start;
  has_payload = false;
}
seed_window start (some w) =
    let first = (if leb_ℤ w.start_ms (pos 0) then start else w.start_ms) in
    record w {
      start_ms = first;
      end_ms = if ltb_ℤ w.end_ms first then first else w.end_ms;
      updated_at_ms = if ltb_ℤ w.updated_at_ms start then start else w.updated_at_ms;
    }

unfoldable pub start_release_race_window_at : ℤ → Text → ℤ → ReleaseState → ReleaseState
start_release_race_window_at now dir_path start_ms s =
    let d = clean dir_path in
    let start = (if leb_ℤ start_ms (pos 0) then now else start_ms) in
    record s {
      race_windows = insert d (seed_window start (lookup d s.race_windows)) s.race_windows;
    }

-- The window with one more payload, from `start` to `stop`.
unfoldable pub widen : ℤ → ℤ → Option ReleaseRaceWindow → ReleaseRaceWindow
widen start stop none = record {
  start_ms = start;
  end_ms = stop;
  updated_at_ms = stop;
  has_payload = true;
}
widen start stop (some w) = record {
  start_ms =
      if not w.has_payload || (leb_ℤ w.start_ms (pos 0) || ltb_ℤ start w.start_ms)
      then start
      else w.start_ms;
  end_ms = if ltb_ℤ w.end_ms stop then stop else w.end_ms;
  updated_at_ms = stop;
  has_payload = true;
}

-- A payload that starts before the first millisecond counts from there.
abbrev pub at_least_one : ℤ → ℤ
at_least_one n = if ltb_ℤ n (pos 1) then pos 1 else n

unfoldable pub note_race_payload_transfer_at : ℤ → Text → ℤ → ℤ → ReleaseState → ReleaseState
unfolding widen
note_race_payload_transfer_at now dir_path duration_ms end_ms s =
    let d = clean dir_path in
    let stop = (if leb_ℤ end_ms (pos 0) then now else end_ms) in
    if leb_ℤ duration_ms (pos 0) then s else record s {
      race_windows =
          insert d (widen (at_least_one (stop -₆₄ duration_ms)) stop (lookup d s.race_windows))
            s.race_windows;
    }

unfoldable pub window_length : Option ReleaseRaceWindow → ℤ
window_length none = pos 0
window_length (some w) =
    if leb_ℤ w.end_ms w.start_ms || leb_ℤ w.start_ms (pos 0) then pos 0 else w.end_ms -₆₄ w.start_ms

unfoldable pub get_release_race_window_milliseconds : Text → ReleaseState → ℤ
unfolding window_length
get_release_race_window_milliseconds dir_path s =
    window_length (lookup (clean dir_path) s.race_windows)

abbrev pub keys_or_none : Option (Dict Bool) → Dict Bool
keys_or_none none = []
keys_or_none (some keys) = keys

abbrev pub is_set : Option Bool → Bool
is_set none = false
is_set (some b) = b

-- Whether the announcement has been claimed.
unfoldable pub is_claimed : Text → Text → ReleaseState → Bool
is_claimed d key s = is_set (lookup key (keys_or_none (lookup d s.announcements)))

unfoldable pub claim_release_announcement : Text → Text → ReleaseState → ReleaseState × Bool
unfolding is_claimed
claim_release_announcement dir_path key s =
    let d = clean dir_path in
    let k = trim_space key in
    if text_eq k [] then (s, false) else if is_claimed d k s then (s, false) else (
      record s {
        announcements =
            insert d (insert k true (keys_or_none (lookup d s.announcements))) s.announcements;
      },
      true,
    )

-- The keys that are the path or start with the prefix are deleted.
unfoldable pub delete_below {ℓ} : {V : Type ℓ} → Text → Text → Dict V → Dict V
delete_below path prefix [] = []
delete_below path prefix ((key, v) ∷ m) =
    let rest = delete_below path prefix m in
    if text_eq key path || has_prefix key prefix then rest else (key, v) ∷ rest

-- strings.TrimRight(path, "/") + "/"
unfoldable pub below_prefix : Text → Text
below_prefix path = trim_right (λ c. c == b'/') path ++ slash

unfoldable pub invalidate_release_state_for_path : Text → Bool → ReleaseState → ReleaseState
unfolding delete_below below_prefix
invalidate_release_state_for_path file_path is_dir s =
    let p = clean file_path in
    let own : ReleaseState = record {
      media = delete p s.media;
      announcements = delete p s.announcements;
      race_windows = delete p s.race_windows;
    } in
    let q = below_prefix p in
    if is_dir
    then record {
      media = delete_below p q own.media;
      announcements = delete_below p q own.announcements;
      race_windows = delete_below p q own.race_windows;
    }
    else own
