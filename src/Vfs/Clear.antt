-- ===== src/Vfs/Clear.antt =====
-- internal/master/vfs.go: ClearSlave, which drops the entries of a slave that goes offline. The
-- children of a directory are those that it has when its loop starts.
use weave_ftpd.Base.{
  List, [], ◌∷◌, ◌++◌, Bool, true, false, ◌&&◌, not, Option, none, some, if◌then◌else◌, Text,
  text_eq, lookup, insert, delete, map,
}
use weave_ftpd.Vfs.Paths.{parent}
use weave_ftpd.Vfs.State.{TextSet, Vfs, VfsFile, has_key}
use weave_ftpd.Vfs.Index.{
  remove_slave_path, delete_file_entry_only, paths_for_slave, mark_persist_dirty,
}
use weave_ftpd.Vfs.Tree.{child_set, ensure_parent_dirs}

unfoldable pub is_owned : Text → Option VfsFile → Bool
is_owned slave_name none = false
is_owned slave_name (some f) = text_eq f.slave_name slave_name

unfoldable pub is_directory : Option VfsFile → Bool
is_directory none = false
is_directory (some f) = f.is_dir

unfoldable pub drop_child : Text → Vfs → Vfs
drop_child path v = elim (lookup (parent path) v.children) [
  | none ↦ v
  | some set ↦ record v { children = insert (parent path) (delete path set) v.children }
]

unfoldable pub clear_entry : Text → Vfs → Vfs
unfolding drop_child
clear_entry path v =
    let w = delete_file_entry_only path v in
    drop_child path (record w { dir_meta = delete path w.dir_meta })

-- The first loop: the file system, the directories deleted so far, and whether anything changed.
pub record Clearing : Type 0 where
  pub vfs : Vfs
  pub deleted_dirs : List Text
  pub changed : Bool

unfoldable pub clear_path : Text → Text → Clearing → Clearing
unfolding is_owned is_directory
clear_path slave_name path c =
    let file = lookup path c.vfs.files in
    if is_owned slave_name file
    then record {
      vfs = clear_entry path c.vfs;
      deleted_dirs = if is_directory file then c.deleted_dirs ++ (path ∷ []) else c.deleted_dirs;
      changed = true;
    }
    else record c { vfs = remove_slave_path slave_name path c.vfs }

unfoldable pub clear_paths : Text → List Text → Clearing → Clearing
clear_paths slave_name [] c = c
clear_paths slave_name (path ∷ rest) c = clear_paths slave_name rest (clear_path slave_name path c)

-- The second loop: the directories that still have children are made again for these.
unfoldable pub restore_child : Text → Text → Vfs → Vfs
restore_child dir_path child v = elim (lookup child v.files) [
  | none ↦ record v { children = insert dir_path (delete child (child_set dir_path v)) v.children }
  | some f ↦ ensure_parent_dirs child f.slave_name v
]

unfoldable pub restore_children : Text → List Text → Vfs → Vfs
restore_children dir_path [] v = v
restore_children dir_path (child ∷ rest) v =
    restore_children dir_path rest (restore_child dir_path child v)

abbrev pub is_empty_set : TextSet → Bool
is_empty_set [] = true
is_empty_set (e ∷ s) = false

abbrev pub forget_children : Text → Vfs → Vfs
forget_children dir_path v = record v { children = delete dir_path v.children }

unfoldable pub restore_dir : Text → Vfs → Vfs
restore_dir dir_path v =
    let w = restore_children dir_path (map (λ e. e.0) (child_set dir_path v)) v in
    if is_empty_set (child_set dir_path v)
    then forget_children dir_path v
    else if is_empty_set (child_set dir_path w) && not (has_key dir_path w.files)
    then forget_children dir_path w
    else w

unfoldable pub restore_dirs : List Text → Vfs → Vfs
restore_dirs [] v = v
restore_dirs (d ∷ ds) v = restore_dirs ds (restore_dir d v)

unfoldable pub clear_slave : Text → Vfs → Vfs
clear_slave slave_name v =
    let c =
      clear_paths slave_name (paths_for_slave slave_name v)
        (record { vfs = v; deleted_dirs = []; changed = false }) in
    if c.changed then mark_persist_dirty (restore_dirs c.deleted_dirs c.vfs) else c.vfs
