-- ===== src/Vfs/Purge.antt =====
-- internal/master/vfs.go: the last steps of a remerge, which drop what a slave has not confirmed.
use weave_ftpd.Base.{
  List, [], ◌∷◌, Bool, false, ◌&&◌, ◌||◌, not, Option, none, some, if◌then◌else◌, Text, text_eq,
  any, lookup, insert,
}
use weave_ftpd.Base.Int.{ℤ, pos, ltb_ℤ}
use weave_ftpd.Base.Int64.{◌-₆₄◌}
use weave_ftpd.GoPath.Clean.{dot}
use weave_ftpd.Vfs.Paths.{clean_vfs_path, at_or_below}
use weave_ftpd.Vfs.State.{TextSet, Vfs, VfsFile, has_key}
use weave_ftpd.Vfs.Index.{remove_slave_path, paths_for_slave, mark_persist_dirty}
use weave_ftpd.Vfs.Slaves.{reset_protected_dir}
use weave_ftpd.Vfs.Collect.{keys_of, children_of, collect_subtree}
use weave_ftpd.Vfs.Delete.{delete_path}

abbrev pub grace_seconds : ℤ
grace_seconds = pos 120

-- Entries of the last two minutes may have come after the slave's snapshot.
unfoldable pub is_recent : ℤ → VfsFile → Bool
is_recent now f = ltb_ℤ (pos 0) f.last_modified && ltb_ℤ (now -₆₄ f.last_modified) grace_seconds

-- The deletion, and whether one changed anything so far.
abbrev pub or_changed : Bool → Vfs × Bool → Vfs × Bool
or_changed changed (v, deleted) = (v, deleted || changed)

unfoldable pub purge_path : ℤ → Text → Text → Vfs × Bool → Vfs × Bool
unfolding is_recent
purge_path now slave_name path (v, changed) = elim (lookup path v.files) [
  | none ↦ (remove_slave_path slave_name path v, changed)
  | some f ↦
      if has_key path v.protected_dirs
      then (reset_protected_dir path f v, changed)
      else if (text_eq f.slave_name slave_name && not f.seen) && not (is_recent now f)
      then or_changed changed (delete_path path v)
      else (v, changed)
]

unfoldable pub purge_paths : ℤ → Text → List Text → Vfs × Bool → Vfs × Bool
unfolding purge_path
purge_paths now slave_name [] s = s
purge_paths now slave_name (path ∷ rest) s =
    purge_paths now slave_name rest (purge_path now slave_name path s)

abbrev pub dirty_if_changed : Vfs × Bool → Vfs
dirty_if_changed (v, changed) = if changed then mark_persist_dirty v else v

unfoldable pub purge_unseen : ℤ → Text → Vfs → Vfs
purge_unseen now slave_name v =
    dirty_if_changed (purge_paths now slave_name (paths_for_slave slave_name v) (v, false))

-- The remerge of a subtree.
unfoldable pub reset_protected : Option VfsFile → Text → Vfs → Vfs
reset_protected none path v = v
reset_protected (some f) path v = reset_protected_dir path f v

unfoldable pub reset_protected_dirs : List Text → Vfs → Vfs
unfolding reset_protected
reset_protected_dirs [] v = v
reset_protected_dirs (path ∷ rest) v =
    reset_protected_dirs rest (reset_protected (lookup path v.files) path v)

unfoldable pub mark_path_unseen : Text → Text → Vfs → Vfs
mark_path_unseen slave_name path v = elim (lookup path v.files) [
  | none ↦ v
  | some f ↦
      if not (has_key path v.protected_dirs) && text_eq f.slave_name slave_name
      then record v { files = insert path (record f { seen = false }) v.files }
      else v
]

unfoldable pub mark_each_unseen : Text → List Text → Vfs → Vfs
unfolding mark_path_unseen
mark_each_unseen slave_name [] v = v
mark_each_unseen slave_name (path ∷ rest) v =
    mark_each_unseen slave_name rest (mark_path_unseen slave_name path v)

unfoldable pub mark_subtree_unseen : Text → Text → Vfs → Vfs
unfolding reset_protected_dirs mark_each_unseen
mark_subtree_unseen slave_name root_path v =
    let root = clean_vfs_path root_path in
    let w = reset_protected_dirs (keys_of v.protected_dirs) v in
    mark_each_unseen slave_name (collect_subtree root w) w

unfoldable pub purge_below : ℤ → Text → Text → Vfs × Bool → Vfs × Bool
purge_below now slave_name path (v, changed) = elim (lookup path v.files) [
  | none ↦ (v, changed)
  | some f ↦
      if not (has_key path v.protected_dirs)
        && ((text_eq f.slave_name slave_name && not f.seen) && not (is_recent now f))
      then or_changed changed (delete_path path v)
      else (v, changed)
]

unfoldable pub purge_each_below : ℤ → Text → List Text → Vfs × Bool → Vfs × Bool
unfolding purge_below
purge_each_below now slave_name [] s = s
purge_each_below now slave_name (path ∷ rest) s =
    purge_each_below now slave_name rest (purge_below now slave_name path s)

unfoldable pub purge_unseen_subtree : ℤ → Text → Text → Vfs → Vfs
unfolding reset_protected_dirs purge_each_below
purge_unseen_subtree now slave_name root_path v =
    let root = clean_vfs_path root_path in
    let w = reset_protected_dirs (keys_of v.protected_dirs) v in
    dirty_if_changed (purge_each_below now slave_name (collect_subtree root w) (w, false))

-- The remerge of one directory, with the children that the slave reports.
unfoldable pub is_protected_remerge_child : Text → List Text → Bool
unfolding any
is_protected_remerge_child child_path protected_subtrees =
    any
      (λ s.
        let top = clean_vfs_path s in
        not (text_eq top [] || text_eq top dot) && at_or_below (clean_vfs_path child_path) top)
      protected_subtrees

unfoldable pub purge_child : ℤ → Text → TextSet → List Text → Text → Vfs × Bool → Vfs × Bool
purge_child now slave_name present protected_subtrees child (v, changed) =
    elim (lookup child v.files) [
      | none ↦ (v, changed)
      | some f ↦
          if text_eq f.slave_name slave_name
            && (not (has_key child present)
                && (not (is_protected_remerge_child child protected_subtrees)
                    && not (is_recent now f)))
          then or_changed changed (delete_path child v)
          else (v, changed)
    ]

unfoldable pub purge_children : ℤ → Text → TextSet → List Text → List Text → Vfs × Bool → Vfs × Bool
unfolding purge_child
purge_children now slave_name present protected_subtrees [] s = s
purge_children now slave_name present protected_subtrees (child ∷ rest) s =
    purge_children now slave_name present protected_subtrees rest
      (purge_child now slave_name present protected_subtrees child s)

unfoldable pub purge_missing_children : ℤ → Text → Text → TextSet → List Text → Vfs → Vfs
unfolding purge_children
purge_missing_children now slave_name dir_path present protected_subtrees v = dirty_if_changed (
    purge_children now slave_name present protected_subtrees
      (children_of (clean_vfs_path dir_path) v) (v, false))
