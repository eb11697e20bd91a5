-- ===== src/Session/Reservations.antt =====
-- internal/core/session_registry.go: the paths that transfers have reserved. Each function holds the
-- lock from its test to its change, so that it is one step.
use weave_ftpd.Base.{
  Bool, true, false, ◌||◌, Option, none, some, if◌then◌else◌, is_some, Text, text_eq, Dict, lookup,
  insert, delete,
}
use weave_ftpd.Base.Int.{ℤ, pos, ltb_ℤ, leb_ℤ}
use weave_ftpd.Base.Int64.{◌+₆₄◌, ◌-₆₄◌}
use weave_ftpd.GoPath.Clean.{slash, dot, clean}

pub record Reservations : Type 0 where
  pub uploads : Dict (Unit {0})
  pub downloads : Dict ℤ

-- What a path must not be.
unfoldable pub is_no_file : Text → Bool
is_no_file p = text_eq p dot || text_eq p slash

abbrev pub zero_if_none : Option ℤ → ℤ
zero_if_none none = pos 0
zero_if_none (some n) = n

unfoldable pub download_count : Text → Reservations → ℤ
download_count p r = zero_if_none (lookup p r.downloads)

unfoldable pub is_uploading : Text → Reservations → Bool
is_uploading p r = is_some (lookup p r.uploads)

unfoldable pub reserve_upload_path : Text → Reservations → Reservations × Bool
reserve_upload_path file_path r =
    let p = clean file_path in
    if is_no_file p
    then (r, false)
    else if is_uploading p r || ltb_ℤ (pos 0) (download_count p r)
    then (r, false)
    else (record r { uploads = insert p tt r.uploads }, true)

unfoldable pub release_upload_path : Text → Reservations → Reservations
release_upload_path file_path r =
    let p = clean file_path in if is_no_file p then r else record r { uploads = delete p r.uploads }

unfoldable pub upload_path_reserved : Text → Reservations → Bool
upload_path_reserved file_path r =
    let p = clean file_path in if is_no_file p then false else is_uploading p r

unfoldable pub reserve_download_path : Text → Reservations → Reservations × Bool
reserve_download_path file_path r =
    let p = clean file_path in
    if is_no_file p
    then (r, false)
    else if is_uploading p r
    then (r, false)
    else (record r { downloads = insert p (download_count p r +₆₄ pos 1) r.downloads }, true)

unfoldable pub release_download_path : Text → Reservations → Reservations
release_download_path file_path r =
    let p = clean file_path in
    if is_no_file p
    then r
    else if leb_ℤ (download_count p r) (pos 1)
    then record r { downloads = delete p r.downloads }
    else record r { downloads = insert p (download_count p r -₆₄ pos 1) r.downloads }

unfoldable pub download_path_reserved : Text → Reservations → Bool
download_path_reserved file_path r =
    let p = clean file_path in if is_no_file p then false else ltb_ℤ (pos 0) (download_count p r)
