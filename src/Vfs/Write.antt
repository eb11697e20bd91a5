-- ===== src/Vfs/Write.antt =====
-- internal/master/vfs.go: the operations that add and change single entries.
use weave_ftpd.Base.{
  ℕ, Bool, true, false, ◌&&◌, ◌||◌, not, Option, none, some, if◌then◌else◌, ◌==◌, [], Text, text_eq,
  lookup, insert,
}
use weave_ftpd.Base.Int.{ℤ, pos, ltb_ℤ, leb_ℤ}
use weave_ftpd.Vfs.Paths.{clean_vfs_path, parent, is_covered_by}
use weave_ftpd.Vfs.State.{Vfs, VfsFile}
use weave_ftpd.Vfs.Index.{reindex_slave_path, delete_file_entry_only, mark_persist_dirty}
use weave_ftpd.Vfs.Tree.{ensure_children_bucket, link_child, ensure_parent_dirs, touch_ancestors}
use weave_ftpd.Vfs.Merge.{stored_file}

unfoldable pub slave_there : Option VfsFile → Text
slave_there none = []
slave_there (some f) = f.slave_name

-- The end of AddFile: the entry that is stored is indexed and linked to its parent, and the
-- directories above it are made.
unfoldable pub place_file : Text → Text → VfsFile → Vfs → Vfs
place_file path old_slave f v =
    let v₂ = reindex_slave_path path old_slave f.slave_name v in
    let v₃ = link_child (parent path) path (ensure_parent_dirs path f.slave_name v₂) in
    if f.is_dir then ensure_children_bucket path v₃ else v₃

unfoldable pub store_file : ℤ → Text → VfsFile → Vfs → Vfs
unfolding place_file slave_there
store_file now path f v = mark_persist_dirty (
    touch_ancestors now path f.last_modified (
      place_file path (slave_there (lookup path v.files)) f
        (record v { files = insert path f v.files })))

unfoldable pub add_file : ℤ → Text → VfsFile → Vfs → Vfs
add_file now path file v =
    let p = clean_vfs_path path in
    if is_covered_by v.exclude_paths p || is_covered_by v.hidden_paths p
    then delete_file_entry_only p v
    else store_file now p (stored_file v p file) v

unfoldable pub update_file_verification : Text → ℕ → Vfs → Vfs × Bool
update_file_verification path checksum v = elim (lookup (clean_vfs_path path) v.files) [
  | none ↦ (v, false)
  | some f ↦ if f.is_dir then (v, false) else (
    mark_persist_dirty (record v {
      files = insert (clean_vfs_path path) (record f { checksum = checksum }) v.files;
    }),
    true,
  )
]

-- The running size of a transfer may only grow an entry that no finished transfer has verified.
unfoldable pub may_grow : ℤ → VfsFile → Bool
may_grow size_bytes f =
    not f.is_dir
    && (not (ltb_ℤ (pos 0) f.xfer_time && not (f.checksum == 0)) && ltb_ℤ f.size size_bytes)

unfoldable pub update_file_transfer_size : Text → ℤ → Vfs → Vfs × Bool
unfolding may_grow
update_file_transfer_size path size_bytes v =
    if leb_ℤ size_bytes (pos 0) then (v, false) else elim (lookup (clean_vfs_path path) v.files) [
      | none ↦ (v, false)
      | some f ↦
          if may_grow size_bytes f
          then (
            mark_persist_dirty (record v {
              files = insert (clean_vfs_path path) (record f { size = size_bytes }) v.files;
            }),
            true,
          )
          else (v, false)
    ]

unfoldable pub chmod : ℤ → Text → ℕ → Vfs → Vfs
chmod now path mode v = elim (lookup (clean_vfs_path path) v.files) [
  | none ↦ v
  | some f ↦ mark_persist_dirty (record v {
    files = insert (clean_vfs_path path) (record f { mode = mode; last_modified = now }) v.files;
  })
]

unfoldable pub dir_of_target : Option VfsFile → Bool
dir_of_target none = true
dir_of_target (some f) = f.is_dir

abbrev pub new_link : ℤ → Text → Text → Bool → VfsFile
new_link now link target is_dir = record {
  path = link;
  size = pos 0;
  is_dir = is_dir;
  is_symlink = true;
  link_target = target;
  mode = 0o777;
  last_modified = now;
  slave_name = [];
  owner = [];
  group = [];
  seen = true;
  xfer_time = pos 0;
  checksum = 0;
}

unfoldable pub same_link : Text → Option VfsFile → Bool
same_link target none = false
same_link target (some f) = f.is_symlink && text_eq f.link_target target

unfoldable pub refreshed_link : Bool → Option VfsFile → VfsFile → VfsFile
refreshed_link is_dir none f = f
refreshed_link is_dir (some g) f = record g { is_dir = is_dir; seen = true }

-- AddSymlink; the slave index is left as it is.
unfoldable pub add_symlink : ℤ → Text → Text → Vfs → Vfs
unfolding dir_of_target same_link refreshed_link
add_symlink now link_path target_path v =
    let link = clean_vfs_path link_path in
    let target = clean_vfs_path target_path in
    let is_dir = dir_of_target (lookup target v.files) in
    let fresh = new_link now link target is_dir in
    if same_link target (lookup link v.files)
    then record v {
      files = insert link (refreshed_link is_dir (lookup link v.files) fresh) v.files;
    }
    else let v₁ = ensure_parent_dirs link [] (record v { files = insert link fresh v.files }) in
      let v₂ = link_child (parent link) link v₁ in
      let v₃ = (if is_dir then ensure_children_bucket link v₂ else v₂) in
      mark_persist_dirty (touch_ancestors now link now v₃)
