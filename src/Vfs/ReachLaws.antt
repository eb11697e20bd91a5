-- ===== src/Vfs/ReachLaws.antt =====
-- The states that the operations reach, and the slave index and ClearSlave in them.
use weave_ftpd.Base.{ℕ, ◌≡◌, refl, List, [], ◌∷◌, false, Text, text_eq, trim_space, lookup, All}
use weave_ftpd.Base.Int.{ℤ}
use weave_ftpd.Vfs.PathLaws.{IsTidy, path_to}
use weave_ftpd.Vfs.DroppedLaws.{unlisted-IsIndexed}
use weave_ftpd.Vfs.State.{TextSet, Vfs, VfsFile}
use weave_ftpd.Vfs.Start.{configured_vfs}
use weave_ftpd.Vfs.StartLaws.{configured_vfs-IsIndexed}
use weave_ftpd.Vfs.IndexedLaws.{IsIndexed, update-IsIndexed}
use weave_ftpd.Vfs.Write.{
  add_file, update_file_verification, update_file_transfer_size, chmod, add_symlink,
}
use weave_ftpd.Vfs.Slaves.{mark_all_unseen}
use weave_ftpd.Vfs.StoreLaws.{add_file-IsIndexed, dirty-IsIndexed}
use weave_ftpd.Vfs.UpdateLaws.{
  update_file_verification-IsIndexed, update_file_transfer_size-IsIndexed, chmod-IsIndexed,
  reset_protected_dir-IsIndexed, add_symlink-IsIndexed,
}
use weave_ftpd.Vfs.Delete.{delete_file}
use weave_ftpd.Vfs.Purge.{
  mark_subtree_unseen, purge_unseen, purge_unseen_subtree, purge_missing_children,
}
use weave_ftpd.Vfs.DroppingLaws.{delete_path-IsIndexed, delete_file-IsIndexed}
use weave_ftpd.Vfs.StableLaws.{
  IsStable, purge_unseen-IsStable, mark_subtree_unseen-IsStable, purge_unseen_subtree-IsStable,
  purge_missing_children-IsStable,
}
use weave_ftpd.Vfs.Clear.{is_owned, clear_slave}
use weave_ftpd.Vfs.ClearLaws.{clean_paths, clear_slave-IsFree}
use weave_ftpd.Vfs.ClearIndexLaws.{mark_all_unseen-IsIndexed, clear_slave-IsIndexed}

IsIndexed-IsStable : IsStable IsIndexed
IsIndexed-IsStable = record {
  deletes = delete_path-IsIndexed;
  resets = reset_protected_dir-IsIndexed;
  marks = λ p f v e. update-IsIndexed p f (record f { seen = false }) v e refl;
  unlists = unlisted-IsIndexed;
  dirties = dirty-IsIndexed;
}

-- The states that the operations reach from a file system configured with any protected, hidden and
-- excluded paths, where entries are added and links made under tidy paths, and the names of slaves have no white space at their ends.
pub data Reached : Vfs → Type 0 where
  start :
      (protected hidden excluded : List Text) → Reached (configured_vfs protected hidden excluded)
  adds :
      (now : ℤ) (x : Text) (up : List Text) (f : VfsFile) (v : Vfs)
      → IsTidy x
      → All IsTidy up
      → trim_space f.slave_name ≡ f.slave_name
      → Reached v
      → Reached (add_file now (path_to (x ∷ up)) f v)
  links :
      (now : ℤ) (x : Text) (up : List Text) (target : Text) (v : Vfs)
      → IsTidy x
      → All IsTidy up
      → Reached v
      → Reached (add_symlink now (path_to (x ∷ up)) target v)
  verifies :
      (path : Text) (checksum : ℕ) (v : Vfs)
      → Reached v
      → Reached (update_file_verification path checksum v).0
  grows :
      (path : Text) (size_bytes : ℤ) (v : Vfs)
      → Reached v
      → Reached (update_file_transfer_size path size_bytes v).0
  chmods :
      (now : ℤ) (path : Text) (mode : ℕ) (v : Vfs) → Reached v → Reached (chmod now path mode v)
  deletes : (now : ℤ) (path : Text) (v : Vfs) → Reached v → Reached (delete_file now path v)
  marks : (s : Text) (v : Vfs) → Reached v → Reached (mark_all_unseen s v)
  marks_below : (s root : Text) (v : Vfs) → Reached v → Reached (mark_subtree_unseen s root v)
  purges : (now : ℤ) (s : Text) (v : Vfs) → Reached v → Reached (purge_unseen now s v)
  purges_below :
      (now : ℤ) (s root : Text) (v : Vfs) → Reached v → Reached (purge_unseen_subtree now s root v)
  purges_children :
      (now : ℤ) (s dir : Text) (present : TextSet) (tops : List Text) (v : Vfs)
      → Reached v
      → Reached (purge_missing_children now s dir present tops v)
  clears : (s : Text) (v : Vfs) → trim_space s ≡ s → Reached v → Reached (clear_slave s v)

-- In every state that these operations reach, in any order, each entry stands under a tidy path and
-- is listed in the index of its slave, if it has one, and the index lists clean paths only.
pub Reached-IsIndexed : (v : Vfs) → Reached v → IsIndexed v
Reached-IsIndexed v (start protected hidden excluded) =
    configured_vfs-IsIndexed protected hidden excluded
Reached-IsIndexed v (adds now x up f v' t ts name r) =
    add_file-IsIndexed x up t ts now f v' name (Reached-IsIndexed v' r)
Reached-IsIndexed v (links now x up target v' t ts r) =
    add_symlink-IsIndexed x up t ts now target v' (Reached-IsIndexed v' r)
Reached-IsIndexed v (verifies path checksum v' r) =
    update_file_verification-IsIndexed path checksum v' (Reached-IsIndexed v' r)
Reached-IsIndexed v (grows path size_bytes v' r) =
    update_file_transfer_size-IsIndexed path size_bytes v' (Reached-IsIndexed v' r)
Reached-IsIndexed v (chmods now path mode v' r) =
    chmod-IsIndexed now path mode v' (Reached-IsIndexed v' r)
Reached-IsIndexed v (marks s v' r) = mark_all_unseen-IsIndexed s v' (Reached-IsIndexed v' r)
Reached-IsIndexed v (deletes now path v' r) =
    delete_file-IsIndexed now path v' (Reached-IsIndexed v' r)
Reached-IsIndexed v (marks_below s root v' r) =
    mark_subtree_unseen-IsStable IsIndexed IsIndexed-IsStable s root v' (Reached-IsIndexed v' r)
Reached-IsIndexed v (purges now s v' r) =
    let h = Reached-IsIndexed v' r in
    purge_unseen-IsStable IsIndexed IsIndexed-IsStable now s v' (clean_paths s v' h) h
Reached-IsIndexed v (purges_below now s root v' r) =
    purge_unseen_subtree-IsStable IsIndexed IsIndexed-IsStable now s root v'
      (Reached-IsIndexed v' r)
Reached-IsIndexed v (purges_children now s dir present tops v' r) =
    purge_missing_children-IsStable IsIndexed IsIndexed-IsStable now s present tops dir v'
      (Reached-IsIndexed v' r)
Reached-IsIndexed v (clears s v' name r) = clear_slave-IsIndexed s v' name (Reached-IsIndexed v' r)

-- In every state that these operations reach, ClearSlave with a name that is not blank leaves no
-- entry of that slave, under whatever path.
pub clear_slave-IsFree_anywhere :
    (s q : Text) (v : Vfs)
    → text_eq (trim_space s) [] ≡ false
    → Reached v
    → is_owned s (lookup q (clear_slave s v).files) ≡ false
clear_slave-IsFree_anywhere s q v named r = clear_slave-IsFree s v named (Reached-IsIndexed v r) q
