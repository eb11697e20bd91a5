-- ===== src/Vfs/BuiltStates.antt =====
-- The states that the operations build, the removal of paths included, and the shape of the tree in them.
use weave_ftpd.Base.{ℕ, ◌≡◌, refl, [], ◌∷◌, List, false, Text, trim_space, All}
use weave_ftpd.Base.Int.{ℤ}
use weave_ftpd.Vfs.PathLaws.{IsTidy, path_to}
use weave_ftpd.Vfs.State.{TextSet, Vfs, VfsFile}
use weave_ftpd.Vfs.Index.{paths_for_slave}
use weave_ftpd.Vfs.Write.{
  add_file, update_file_verification, update_file_transfer_size, chmod, add_symlink,
}
use weave_ftpd.Vfs.Slaves.{mark_all_unseen}
use weave_ftpd.Vfs.Delete.{delete_file}
use weave_ftpd.Vfs.Purge.{
  mark_subtree_unseen, purge_unseen, purge_unseen_subtree, purge_missing_children,
}
use weave_ftpd.Vfs.IndexedLaws.{IsIndexed, update-IsIndexed}
use weave_ftpd.Vfs.DroppedLaws.{unlisted-IsIndexed}
use weave_ftpd.Vfs.StoreLaws.{add_file-IsIndexed, dirty-IsIndexed}
use weave_ftpd.Vfs.UpdateLaws.{
  update_file_verification-IsIndexed, update_file_transfer_size-IsIndexed, chmod-IsIndexed,
  add_symlink-IsIndexed, reset_protected_dir-IsIndexed,
}
use weave_ftpd.Vfs.ClearLaws.{clean_paths}
use weave_ftpd.Vfs.ClearIndexLaws.{mark_all_unseen-IsIndexed}
use weave_ftpd.Vfs.Start.{configured_vfs}
use weave_ftpd.Vfs.StartLaws.{configured_vfs-IsTree, configured_vfs-IsIndexed}
use weave_ftpd.Vfs.LinkLaws.{IsTree}
use weave_ftpd.Vfs.HangLaws.{IsTreeBut-updated}
use weave_ftpd.Vfs.ShapeLaws.{IsTreeBut-dirty}
use weave_ftpd.Vfs.BuiltLaws.{
  add_file-IsTree, add_symlink-IsTree, update_file_verification-IsTree,
  update_file_transfer_size-IsTree, chmod-IsTree, unlisted-IsTree, reset_protected_dir-IsTree,
  mark_paths_unseen-IsTree,
}
use weave_ftpd.Vfs.DeleteLaws.{delete_path-IsTree}
use weave_ftpd.Vfs.DeleteFileLaws.{delete_file-IsTree}
use weave_ftpd.Vfs.DroppingLaws.{delete_path-IsIndexed, delete_file-IsIndexed}
use weave_ftpd.Vfs.StableLaws.{
  IsStable, purge_unseen-IsStable, mark_subtree_unseen-IsStable, purge_unseen_subtree-IsStable,
  purge_missing_children-IsStable,
}

-- The tree has its shape, and the index of the slaves is complete.
pub record IsSound (v : Vfs) : Type 0 where
  pub tree : IsTree v
  pub index : IsIndexed v

IsSound-IsStable : IsStable IsSound
IsSound-IsStable = record {
  deletes = λ p v h. record {
    tree = delete_path-IsTree p v h.tree;
    index = delete_path-IsIndexed p v h.index;
  };
  resets = λ p f v e h. record {
    tree = reset_protected_dir-IsTree p f v e h.tree;
    index = reset_protected_dir-IsIndexed p f v e h.index;
  };
  marks = λ p f v e h. record {
    tree = IsTreeBut-updated [] p f (record f { seen = false }) v e h.tree;
    index = update-IsIndexed p f (record f { seen = false }) v e refl h.index;
  };
  unlists = λ s p v clean e h. record {
    tree = unlisted-IsTree s p v h.tree;
    index = unlisted-IsIndexed s p v clean e h.index;
  };
  dirties = λ v h. record { tree = IsTreeBut-dirty [] v h.tree; index = dirty-IsIndexed v h.index };
}

-- The states that these operations build from a file system configured with any protected, hidden and
-- excluded paths, where entries are added and links made under tidy paths, and the names of slaves have no white space at their ends. ClearSlave is left
-- out: where a file has taken the place of a directory that still has a set of children, it drops the
-- link to the path and may leave the set.
pub data Built : Vfs → Type 0 where
  start : (protected hidden excluded : List Text) → Built (configured_vfs protected hidden excluded)
  adds :
      (now : ℤ) (x : Text) (up : List Text) (f : VfsFile) (v : Vfs)
      → IsTidy x
      → All IsTidy up
      → trim_space f.slave_name ≡ f.slave_name
      → Built v
      → Built (add_file now (path_to (x ∷ up)) f v)
  links :
      (now : ℤ) (x : Text) (up : List Text) (target : Text) (v : Vfs)
      → IsTidy x
      → All IsTidy up
      → Built v
      → Built (add_symlink now (path_to (x ∷ up)) target v)
  verifies :
      (path : Text) (checksum : ℕ) (v : Vfs)
      → Built v
      → Built (update_file_verification path checksum v).0
  grows :
      (path : Text) (size_bytes : ℤ) (v : Vfs)
      → Built v
      → Built (update_file_transfer_size path size_bytes v).0
  chmods : (now : ℤ) (path : Text) (mode : ℕ) (v : Vfs) → Built v → Built (chmod now path mode v)
  deletes : (now : ℤ) (path : Text) (v : Vfs) → Built v → Built (delete_file now path v)
  marks : (s : Text) (v : Vfs) → Built v → Built (mark_all_unseen s v)
  marks_below : (s root : Text) (v : Vfs) → Built v → Built (mark_subtree_unseen s root v)
  purges : (now : ℤ) (s : Text) (v : Vfs) → Built v → Built (purge_unseen now s v)
  purges_below :
      (now : ℤ) (s root : Text) (v : Vfs) → Built v → Built (purge_unseen_subtree now s root v)
  purges_children :
      (now : ℤ) (s dir : Text) (present : TextSet) (tops : List Text) (v : Vfs)
      → Built v
      → Built (purge_missing_children now s dir present tops v)

mark_all_unseen-IsTree : (s : Text) (v : Vfs) → IsTree v → IsTree (mark_all_unseen s v)
unfolding mark_all_unseen
mark_all_unseen-IsTree s v = mark_paths_unseen-IsTree s (paths_for_slave s v) v

pub Built-IsSound : (v : Vfs) → Built v → IsSound v
Built-IsSound v (start protected hidden excluded) = record {
  tree = configured_vfs-IsTree protected hidden excluded;
  index = configured_vfs-IsIndexed protected hidden excluded;
}
Built-IsSound v (adds now x up f v' t ts name r) =
    let h = Built-IsSound v' r in
    record {
      tree = add_file-IsTree x up t ts now f v' h.tree;
      index = add_file-IsIndexed x up t ts now f v' name h.index;
    }
Built-IsSound v (links now x up target v' t ts r) =
    let h = Built-IsSound v' r in
    record {
      tree = add_symlink-IsTree x up t ts now target v' h.tree;
      index = add_symlink-IsIndexed x up t ts now target v' h.index;
    }
Built-IsSound v (verifies path checksum v' r) =
    let h = Built-IsSound v' r in
    record {
      tree = update_file_verification-IsTree path checksum v' h.tree;
      index = update_file_verification-IsIndexed path checksum v' h.index;
    }
Built-IsSound v (grows path size_bytes v' r) =
    let h = Built-IsSound v' r in
    record {
      tree = update_file_transfer_size-IsTree path size_bytes v' h.tree;
      index = update_file_transfer_size-IsIndexed path size_bytes v' h.index;
    }
Built-IsSound v (chmods now path mode v' r) =
    let h = Built-IsSound v' r in
    record {
      tree = chmod-IsTree now path mode v' h.tree;
      index = chmod-IsIndexed now path mode v' h.index;
    }
Built-IsSound v (deletes now path v' r) =
    let h = Built-IsSound v' r in
    record {
      tree = delete_file-IsTree now path v' h.tree;
      index = delete_file-IsIndexed now path v' h.index;
    }
Built-IsSound v (marks s v' r) =
    let h = Built-IsSound v' r in
    record {
      tree = mark_all_unseen-IsTree s v' h.tree;
      index = mark_all_unseen-IsIndexed s v' h.index;
    }
Built-IsSound v (marks_below s root v' r) =
    mark_subtree_unseen-IsStable IsSound IsSound-IsStable s root v' (Built-IsSound v' r)
Built-IsSound v (purges now s v' r) =
    let h = Built-IsSound v' r in
    purge_unseen-IsStable IsSound IsSound-IsStable now s v' (clean_paths s v' h.index) h
Built-IsSound v (purges_below now s root v' r) =
    purge_unseen_subtree-IsStable IsSound IsSound-IsStable now s root v' (Built-IsSound v' r)
Built-IsSound v (purges_children now s dir present tops v' r) =
    purge_missing_children-IsStable IsSound IsSound-IsStable now s present tops dir v'
      (Built-IsSound v' r)
