-- ===== src/Session/Examples.antt =====
-- The laws of the session registry at concrete calls and sessions.
use weave_ftpd.Base.{
  ◌≡◌, refl, arith, if◌then◌else◌, [], true, false, codes, text_eq, lookup, insert,
}
use weave_ftpd.GoPath.Clean.{clean}
use weave_ftpd.Session.Reservations.{
  Reservations, reserve_upload_path, reserve_download_path, upload_path_reserved,
  download_path_reserved, is_no_file, is_uploading, download_count,
}
use weave_ftpd.Session.ReservationLaws.{
  Reachable, start, reserve_upload, reserve_download, upload_excludes_download,
}
use weave_ftpd.Base.Int.{pos, ◌+ℤ◌}
use weave_ftpd.Base.Int64.{◌+₆₄◌, wrap64}
use weave_ftpd.Session.LockLaws.{lock_at, run, act, unlock_read, run_refines-act}

-- An upload is reserved, then a download of the same file is asked for.
abbrev both_asked : Reservations
both_asked =
    (reserve_download_path (codes "/a//b")
      (reserve_upload_path (codes "/a/b") (record { uploads = []; downloads = [] })).0).0

both_asked-Reachable : Reachable both_asked
both_asked-Reachable = reserve_download (codes "/a//b") (reserve_upload (codes "/a/b") start)

b_is_uploaded : upload_path_reserved (codes "/a/b") both_asked ≡ true
unfolding upload_path_reserved reserve_download_path reserve_upload_path is_no_file clean text_eq
    lookup insert is_uploading download_count
b_is_uploaded = refl

upload_excludes_download_example : download_path_reserved (codes "/a/b") both_asked ≡ false
upload_excludes_download_example =
    upload_excludes_download both_asked (codes "/a/b") both_asked-Reachable b_is_uploaded

abbrev one_download : Reservations
one_download = (reserve_download_path (codes "/a/b") (record { uploads = []; downloads = [] })).0

b_is_a_file : is_no_file (clean (codes "/a/b")) ≡ false
unfolding is_no_file clean text_eq
b_is_a_file = refl

b_is_downloaded : download_count (clean (codes "/a/b")) one_download ≡ pos 1
unfolding download_count reserve_download_path is_no_file is_uploading clean text_eq lookup insert
    ◌+₆₄◌ wrap64 ◌+ℤ◌
b_is_downloaded = refl

run_refines-act_example :
    (lock_at (codes "/c") (run unlock_read (codes "/a/b") one_download).0 ≡ (
      if text_eq (clean (codes "/a/b")) (codes "/c")
      then (act unlock_read (lock_at (clean (codes "/a/b")) one_download)).0
      else lock_at (codes "/c") one_download))
    × ((run unlock_read (codes "/a/b") one_download).1
        ≡ (act unlock_read (lock_at (clean (codes "/a/b")) one_download)).1)
run_refines-act_example =
    run_refines-act unlock_read (codes "/a/b") (codes "/c") one_download 1
      (reserve_download (codes "/a/b") start) b_is_a_file b_is_downloaded (omega arith)
