-- ===== src/Vfs/Tree.antt =====
-- internal/master/vfs.go: the links from directories to their entries, and the directories above an
-- entry.
use weave_ftpd.Base.{
  List, [], ◌∷◌, true, ◌&&◌, none, some, if◌then◌else◌, Text, text_eq, lookup, insert,
}
use weave_ftpd.Base.Int.{ℤ, pos, ltb_ℤ, leb_ℤ}
use weave_ftpd.GoPath.Clean.{slash}
use weave_ftpd.Vfs.Paths.{clean_vfs_path, parent, ancestors}
use weave_ftpd.Vfs.State.{TextSet, Vfs, made_dir, has_key}
use weave_ftpd.Vfs.Index.{set_or_empty, add_slave_path}

unfoldable pub ensure_children_bucket : Text → Vfs → Vfs
ensure_children_bucket dir_path v =
    let d = clean_vfs_path dir_path in
    if has_key d v.children then v else record v { children = insert d [] v.children }

-- vfs.children[dir]; a missing set is empty.
unfoldable pub child_set : Text → Vfs → TextSet
child_set d v = set_or_empty (lookup d v.children)

unfoldable pub link_child : Text → Text → Vfs → Vfs
unfolding ensure_children_bucket child_set
link_child parent_path child_path v =
    let p = clean_vfs_path parent_path in
    let v' = ensure_children_bucket p v in
    record v' {
      children = insert p (insert (clean_vfs_path child_path) tt (child_set p v')) v'.children;
    }

-- One round of ensureParentDirsLocked up to the bucket: the directory is made, or made one.
unfoldable pub ensure_dir : Text → Text → Vfs → Vfs
ensure_dir slave_name d v = elim (lookup d v.files) [
  | none ↦
      add_slave_path slave_name d (record v { files = insert d (made_dir d slave_name) v.files })
  | some existing ↦ record v {
    files = insert d (record existing { path = d; is_dir = true; seen = true }) v.files;
  }
]

unfoldable pub ensure_linked_dir : Text → Text → Vfs → Vfs
unfolding ensure_dir link_child ensure_children_bucket
ensure_linked_dir slave_name d v =
    let v' = ensure_children_bucket d (ensure_dir slave_name d v) in
    if text_eq d slash then v' else link_child (parent d) d v'

unfoldable pub ensure_dirs : Text → List Text → Vfs → Vfs
unfolding ensure_linked_dir
ensure_dirs slave_name [] v = v
ensure_dirs slave_name (d ∷ ds) v = ensure_dirs slave_name ds (ensure_linked_dir slave_name d v)

unfoldable pub ensure_root : Vfs → Vfs
ensure_root v =
    if has_key slash v.files
    then v
    else record v { files = insert slash (made_dir slash []) v.files }

unfoldable pub ensure_parent_dirs : Text → Text → Vfs → Vfs
unfolding ensure_root ensure_dirs ensure_children_bucket
ensure_parent_dirs path slave_name v =
    ensure_dirs slave_name (ancestors (parent (clean_vfs_path path)))
      (ensure_children_bucket slash (ensure_root v))

unfoldable pub touch_dir : ℤ → Text → Vfs → Vfs
touch_dir ts d v = elim (lookup d v.files) [
  | none ↦ v
  | some f ↦
      if f.is_dir && ltb_ℤ f.last_modified ts
      then record v { files = insert d (record f { last_modified = ts }) v.files }
      else v
]

unfoldable pub touch_dirs : ℤ → List Text → Vfs → Vfs
touch_dirs ts [] v = v
touch_dirs ts (d ∷ ds) v = touch_dirs ts ds (touch_dir ts d v)

unfoldable pub touch_ancestors : ℤ → Text → ℤ → Vfs → Vfs
touch_ancestors now path ts v =
    touch_dirs (if leb_ℤ ts (pos 0) then now else ts) (ancestors (clean_vfs_path path)) v
