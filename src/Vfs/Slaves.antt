-- ===== src/Vfs/Slaves.antt =====
-- internal/master/vfs.go: the first step of a remerge, which marks what a slave is to confirm.
use weave_ftpd.Base.{
  List, [], ◌∷◌, true, false, none, some, if◌then◌else◌, Text, text_eq, lookup, insert,
}
use weave_ftpd.Vfs.State.{Vfs, VfsFile, has_key}
use weave_ftpd.Vfs.Index.{remove_slave_path, reindex_slave_path, paths_for_slave}

-- A protected directory belongs to no slave and is always seen.
unfoldable pub reset_protected_dir : Text → VfsFile → Vfs → Vfs
reset_protected_dir path f v =
    let v' = reindex_slave_path path f.slave_name [] v in
    record v' { files = insert path (record f { seen = true; slave_name = [] }) v'.files }

unfoldable pub mark_unseen : Text → Text → Vfs → Vfs
mark_unseen slave_name path v = elim (lookup path v.files) [
  | none ↦ remove_slave_path slave_name path v
  | some f ↦
      if has_key path v.protected_dirs
      then reset_protected_dir path f v
      else if text_eq f.slave_name slave_name
      then record v { files = insert path (record f { seen = false }) v.files }
      else v
]

unfoldable pub mark_paths_unseen : Text → List Text → Vfs → Vfs
unfolding mark_unseen
mark_paths_unseen slave_name [] v = v
mark_paths_unseen slave_name (path ∷ rest) v =
    mark_paths_unseen slave_name rest (mark_unseen slave_name path v)

unfoldable pub mark_all_unseen : Text → Vfs → Vfs
mark_all_unseen slave_name v = mark_paths_unseen slave_name (paths_for_slave slave_name v) v
