-- ===== src/Slaves/Examples.antt =====
-- The laws of the choice of slaves, of the guard and of the releases at concrete states.
use weave_ftpd.Base.{
  ℕ, ◌≡◌, ◌*◌, ◌/◌, refl, ◌⊎◌, ◌++◌, [], ◌∷◌, true, false, none, some, is_some, Text, codes,
  text_eq, trim_space, is_space, lookup, arith,
}
use weave_ftpd.Base.Int.{ℤ, pos, negsuc, ◌+ℤ◌, ◌-ℤ◌}
use weave_ftpd.GoPath.Clean.{clean, dir}
use weave_ftpd.Vfs.Paths.{clean_vfs_path, is_covered_by}
use weave_ftpd.Vfs.CoverLaws.{IsAtOrBelow}
use weave_ftpd.Vfs.State.{new_vfs}
use weave_ftpd.Vfs.Read.{get_file}
use weave_ftpd.Slaves.Policy.{
  RemoteSlave, SlaveManager, get_policy, is_slave_read_only, slave_can_store_path,
}
use weave_ftpd.Slaves.Select.{
  eligible_slaves, select_owned_ancestor_slave_for_upload, select_slave_for_upload,
  get_available_slaves, policy_weight, first_owner, dirs_above, directory_owner, owner_of, slave_of,
  fit_owner,
}
use weave_ftpd.Slaves.SelectLaws.{IsFit, select_slave_for_upload-IsFit}
use weave_ftpd.Slaves.BestLaws.{
  IsBest, select_slave_for_upload-is_some, select_slave_for_upload-IsBest,
}
use weave_ftpd.Slaves.Auth.{AuthGuard, is_auth_banned}
use weave_ftpd.Slaves.AuthLaws.{record_failures, is_auth_banned-record_failures}
use weave_ftpd.Slaves.Releases.{
  ReleaseState, claim_release_announcement, get_release_race_window_milliseconds,
  invalidate_release_state_for_path,
}
use weave_ftpd.Slaves.ReleaseLaws.{claim_all, claim_release_announcement_once}
use weave_ftpd.Slaves.WindowLaws.{IsUnused, note_all, get_release_race_window_lem}
use weave_ftpd.Slaves.InvalidateLaws.{IsForgotten, IsKept, invalidate_release_state_for_path_lem}

-- In place of the quotient as a float64, thousandths.
abbrev thousandths : ℤ → ℤ → ℕ
thousandths (pos a) (pos b) = a * 1000 / b
thousandths (pos a) (negsuc b) = 0
thousandths (negsuc a) b = 0

abbrev busy : RemoteSlave
busy = record {
  name = codes "s1";
  available = true;
  active_transfers = pos 3;
  space_available = pos 900;
  mount_paths = [];
}

abbrev idle : RemoteSlave
idle = record {
  name = codes "s2";
  available = true;
  active_transfers = pos 1;
  space_available = pos 500;
  mount_paths = [];
}

abbrev two_slaves : SlaveManager
two_slaves = record {
  slaves = (codes "s1", busy) ∷ (codes "s2", idle) ∷ [];
  policies = [];
  vfs = new_vfs;
}

abbrev upload : Text
upload = codes "/a/b"

nobody_owns : select_owned_ancestor_slave_for_upload two_slaves upload ≡ none
unfolding select_owned_ancestor_slave_for_upload first_owner dirs_above directory_owner owner_of
    fit_owner slave_of get_file clean_vfs_path is_covered_by clean dir trim_space is_space text_eq
    lookup new_vfs
nobody_owns = refl

idle_is_chosen : select_slave_for_upload thousandths two_slaves upload ≡ some idle
unfolding select_slave_for_upload eligible_slaves get_available_slaves policy_weight
    slave_can_store_path text_eq clean trim_space lookup
idle_is_chosen = rw nobody_owns refl

select_slave_for_upload-IsFit_example : IsFit two_slaves upload idle
select_slave_for_upload-IsFit_example =
    select_slave_for_upload-IsFit thousandths two_slaves upload idle idle_is_chosen

select_slave_for_upload-IsBest_example : IsBest thousandths (eligible_slaves two_slaves upload) idle
select_slave_for_upload-IsBest_example =
    select_slave_for_upload-IsBest thousandths two_slaves upload idle nobody_owns idle_is_chosen

busy_found : lookup (codes "s1") two_slaves.slaves ≡ some busy
unfolding lookup text_eq
busy_found = refl

busy_writes : is_slave_read_only (codes "s1") two_slaves ≡ false
unfolding is_slave_read_only get_policy lookup
busy_writes = refl

busy_stores : slave_can_store_path busy upload ≡ true
unfolding slave_can_store_path text_eq clean trim_space
busy_stores = refl

select_slave_for_upload-is_some_example :
    is_some (select_slave_for_upload thousandths two_slaves upload) ≡ true
select_slave_for_upload-is_some_example =
    select_slave_for_upload-is_some thousandths two_slaves upload (codes "s1") busy busy_found refl
      busy_writes busy_stores

-- A ban for 100 after two failures within 50.
abbrev guard : AuthGuard
guard = record {
  auth_fail_limit = pos 2;
  auth_fail_window = pos 50;
  auth_ban_duration = pos 100;
  auth_state = [];
}

abbrev address : Text
address = codes "10.0.0.9"

address_is_named : text_eq (trim_space address) [] ≡ false
unfolding trim_space is_space text_eq
address_is_named = refl

address_is_new : lookup address guard.auth_state ≡ none
unfolding lookup
address_is_new = refl

is_auth_banned-record_failures_example :
    (is_auth_banned (pos 60) address (record_failures (pos 10 ∷ pos 40 ∷ []) address guard)).1
    ≡ some (pos 40 +ℤ pos 100)
unfolding ◌-ℤ◌ ◌+ℤ◌
is_auth_banned-record_failures_example =
    is_auth_banned-record_failures (pos 60) (pos 10) (pos 40 ∷ []) address guard address_is_named
      address_is_new (omega arith, tt) (omega arith)

abbrev no_releases : ReleaseState
no_releases = record { media = []; announcements = []; race_windows = [] }

key_is_named : text_eq (trim_space (codes "race")) [] ≡ false
unfolding trim_space is_space text_eq
key_is_named = refl

claim_release_announcement_once_example :
    (claim_release_announcement (codes "/a") (codes "race") (
      claim_all
        ((codes "/b", codes "race") ∷ [])
        (claim_release_announcement (codes "/a") (codes "race") no_releases).0)).1
    ≡ false
claim_release_announcement_once_example =
    claim_release_announcement_once (codes "/a") (codes "race") ((codes "/b", codes "race") ∷ [])
      no_releases key_is_named

no_window : IsUnused 20 (lookup (clean (codes "/a")) no_releases.race_windows)
unfolding IsUnused lookup
no_window = tt

get_release_race_window_example :
    get_release_race_window_milliseconds
      (codes "/a")
      (note_all (pos 99) (codes "/a") ((10, 20) ∷ (5, 30) ∷ []) no_releases)
    ≡ pos 25
get_release_race_window_example =
    get_release_race_window_lem (pos 99) (codes "/a") 10 20 ((5, 30) ∷ []) no_releases no_window
      (omega arith, omega arith, omega arith) ((omega arith, omega arith, omega arith), tt)

abbrev with_media : ReleaseState
with_media = record no_releases { media = (codes "/a/b", (codes "codec", codes "x264") ∷ []) ∷ [] }

a_clean : clean (codes "/a") ≡ codes "/" ++ b'a' ∷ []
unfolding clean
a_clean = refl

invalidate_release_state_for_path_example :
    let t = invalidate_release_state_for_path (codes "/a") true with_media in
    (IsAtOrBelow (codes "/a/b") (clean (codes "/a")) × IsForgotten (codes "/a/b") t)
    ⊎ (¬ IsAtOrBelow (codes "/a/b") (clean (codes "/a")) × IsKept (codes "/a/b") with_media t)
invalidate_release_state_for_path_example =
    invalidate_release_state_for_path_lem (codes "/a") (codes "/") (codes "/a/b") b'a' with_media
      a_clean refl
