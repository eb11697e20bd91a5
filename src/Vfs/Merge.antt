-- ===== src/Vfs/Merge.antt =====
-- internal/master/vfs.go: what AddFile keeps of the entry that it replaces.
use weave_ftpd.Base.{
  Bool, true, false, ◌&&◌, ◌||◌, not, Option, none, some, if◌then◌else◌, ◌==◌, [], Text, text_eq,
  lookup,
}
use weave_ftpd.Base.Int.{ℤ, pos, ltb_ℤ, eqb_ℤ}
use weave_ftpd.Vfs.Paths.{clean_vfs_path, is_weak_metadata_value}
use weave_ftpd.Vfs.State.{Vfs, VfsFile, has_key}

abbrev pub is_plain_file : VfsFile → Bool
is_plain_file f = not f.is_dir && not f.is_symlink

-- A strong owner or group is not replaced by a weak one.
unfoldable pub keep_strong : Text → Text → Text
keep_strong new old =
    if is_weak_metadata_value new && not (is_weak_metadata_value old) then old else new

-- A scan without evidence of a transfer does not shrink the size of a verified upload.
unfoldable pub keep_size : VfsFile → VfsFile → ℤ
keep_size old new =
    if is_plain_file new
      && (is_plain_file old
          && ((eqb_ℤ new.xfer_time (pos 0) && new.checksum == 0)
              && ((ltb_ℤ (pos 0) old.xfer_time && not (old.checksum == 0))
                  && ltb_ℤ new.size old.size)))
    then old.size
    else new.size

-- Where the sizes agree, what is known of the old entry's transfer is kept.
unfoldable pub keep_transfer : VfsFile → VfsFile → VfsFile
keep_transfer old new =
    if is_plain_file new && (is_plain_file old && eqb_ℤ old.size new.size)
    then record new {
      checksum = if new.checksum == 0 then old.checksum else new.checksum;
      xfer_time = if eqb_ℤ new.xfer_time (pos 0) then old.xfer_time else new.xfer_time;
    }
    else new

unfoldable pub merge_existing : Option VfsFile → VfsFile → VfsFile
unfolding keep_strong keep_size keep_transfer
merge_existing none new = new
merge_existing (some old) new = keep_transfer old (record new {
  owner = keep_strong new.owner old.owner;
  group = keep_strong new.group old.group;
  size = keep_size old new;
})

unfoldable pub as_protected : Bool → VfsFile → VfsFile
as_protected false f = f
as_protected true f = record f {
  is_dir = true;
  is_symlink = false;
  link_target = [];
  seen = true;
  slave_name = [];
}

dir_there : Option VfsFile → Bool
dir_there none = false
dir_there (some f) = f.is_dir

unfoldable pub as_link : Vfs → Text → VfsFile → VfsFile
unfolding dir_there
as_link v path f =
    if f.is_symlink && not (text_eq f.link_target [])
    then record f {
      is_dir =
          f.is_dir || (dir_there (lookup path v.files) || dir_there (lookup f.link_target v.files));
    }
    else f

-- The entry that AddFile stores under a path that is neither hidden nor excluded.
unfoldable pub stored_file : Vfs → Text → VfsFile → VfsFile
unfolding merge_existing as_protected as_link
stored_file v path f =
    let named = record f {
      path = path;
      link_target = if text_eq f.link_target [] then [] else clean_vfs_path f.link_target;
    } in
    merge_existing (lookup path v.files)
      (as_link v path (as_protected (has_key path v.protected_dirs) named))
