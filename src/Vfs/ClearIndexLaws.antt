-- ===== src/Vfs/ClearIndexLaws.antt =====
-- The slave index under ClearSlave and MarkAllUnseen, and in the empty file system.
use weave_ftpd.Base.{
  either_way, ◌≡◌, inl, inr, refl, sym, ap, ◌∙◌, List, [], ◌∷◌, map, false, Dict, Text, trim_space,
  lookup, insert, delete, Bool-cases, Option-cases, All,
}
use weave_ftpd.Vfs.Paths.{clean_vfs_path}
use weave_ftpd.Vfs.DroppedLaws.{
  deleted-IsIndexed, foreign-IsIndexed, trimmed_there, unlisted-IsIndexed,
}
use weave_ftpd.Vfs.State.{TextSet, Vfs}
use weave_ftpd.Vfs.Index.{remove_slave_path, delete_file_entry_only, paths_for_slave}
use weave_ftpd.Vfs.IndexedLaws.{IsIndexed, IsIndexed-of_same, tidy_there}
use weave_ftpd.Vfs.Tree.{child_set}
use weave_ftpd.Vfs.Slaves.{mark_all_unseen}
use weave_ftpd.Vfs.StoreLaws.{dirty-IsIndexed, ensure_parent_dirs-IsIndexed_tidy}
use weave_ftpd.Vfs.UpdateLaws.{mark_paths_unseen-IsIndexed}
use weave_ftpd.Vfs.Clear.{
  is_owned, drop_child, clear_entry, Clearing, clear_path, clear_paths, restore_child,
  restore_children, restore_dir, restore_dirs, clear_slave, forget_children,
}
use weave_ftpd.Vfs.ClearLaws.{clean_paths, drop_child-Keeps, drop_child-slave_paths}

clear_entry-IsIndexed :
    (p : Text) (v : Vfs) → clean_vfs_path p ≡ p → IsIndexed v → IsIndexed (clear_entry p v)
unfolding clear_entry
clear_entry-IsIndexed p v clean h =
    let w = delete_file_entry_only p v in
    let w' : Vfs = record w { dir_meta = delete p w.dir_meta } in
    IsIndexed-of_same w' (drop_child p w') (λ q. drop_child-Keeps q p w')
      (drop_child-slave_paths p w')
      (IsIndexed-of_same w w'
        (λ q. record { entry = refl; hidden = refl; exclude = refl; protected = refl }) refl
        (deleted-IsIndexed p v clean h))

module _ (s : Text) (name : trim_space s ≡ s) where
  skip-IsIndexed :
      (p : Text) (v : Vfs)
      → clean_vfs_path p ≡ p
      → is_owned s (lookup p v.files) ≡ false
      → IsIndexed v
      → IsIndexed (remove_slave_path s p v)
  unfolding is_owned
  skip-IsIndexed p v clean foreign h = elim (Option-cases (lookup p v.files)) [
    | inl e ↦ unlisted-IsIndexed s p v clean e h
    | inr (f, e) ↦ foreign-IsIndexed s p f v clean name (ap (is_owned s) (sym e) ∙ foreign) e h
  ]

  clear_path-IsIndexed :
      (p : Text) (c : Clearing)
      → clean_vfs_path p ≡ p
      → IsIndexed c.vfs
      → IsIndexed (clear_path s p c).vfs
  unfolding clear_path
  clear_path-IsIndexed p c clean h = elim (Bool-cases (is_owned s (lookup p c.vfs.files))) [
    | inl own ↦ rw own (clear_entry-IsIndexed p c.vfs clean h)
    | inr foreign ↦ rw foreign (skip-IsIndexed p c.vfs clean foreign h)
  ]

  clear_paths-IsIndexed :
      (ps : List Text) (c : Clearing)
      → All (λ p. clean_vfs_path p ≡ p) ps
      → IsIndexed c.vfs
      → IsIndexed (clear_paths s ps c).vfs
  unfolding clear_paths
  clear_paths-IsIndexed [] c t h = h
  clear_paths-IsIndexed (p ∷ rest) c (t, ts) h =
      clear_paths-IsIndexed rest (clear_path s p c) ts (clear_path-IsIndexed p c t h)

children_only : (v : Vfs) (m : Dict TextSet) → IsIndexed v → IsIndexed (record v { children = m })
children_only v m =
    IsIndexed-of_same v (record v { children = m })
      (λ q. record { entry = refl; hidden = refl; exclude = refl; protected = refl }) refl

restore_child-IsIndexed :
    (d child : Text) (v : Vfs) → IsIndexed v → IsIndexed (restore_child d child v)
unfolding restore_child
restore_child-IsIndexed d child v h = elim (Option-cases (lookup child v.files)) [
  | inl e ↦
      rw (e, restore_child) (children_only v (insert d (delete child (child_set d v)) v.children) h)
  | inr (f, e) ↦
      rw (e, restore_child)
        (ensure_parent_dirs-IsIndexed_tidy child f.slave_name v (tidy_there child f v e h)
          (trimmed_there child f v e h) h)
]

restore_children-IsIndexed :
    (d : Text) (cs : List Text) (v : Vfs) → IsIndexed v → IsIndexed (restore_children d cs v)
unfolding restore_children
restore_children-IsIndexed d [] v h = h
restore_children-IsIndexed d (c ∷ cs) v h =
    restore_children-IsIndexed d cs (restore_child d c v) (restore_child-IsIndexed d c v h)

restore_dir-IsIndexed : (d : Text) (v : Vfs) → IsIndexed v → IsIndexed (restore_dir d v)
unfolding restore_dir
restore_dir-IsIndexed d v h =
    let w = restore_children d (map (λ e. e.0) (child_set d v)) v in
    let restored = restore_children-IsIndexed d (map (λ e. e.0) (child_set d v)) v h in
    either_way _ IsIndexed (forget_children d v) _ (children_only v (delete d v.children) h) (
      either_way _ IsIndexed (forget_children d w) w
        (children_only w (delete d w.children) restored) restored)

restore_dirs-IsIndexed : (ds : List Text) (v : Vfs) → IsIndexed v → IsIndexed (restore_dirs ds v)
unfolding restore_dirs
restore_dirs-IsIndexed [] v h = h
restore_dirs-IsIndexed (d ∷ ds) v h =
    restore_dirs-IsIndexed ds (restore_dir d v) (restore_dir-IsIndexed d v h)

pub clear_slave-IsIndexed :
    (s : Text) (v : Vfs) → trim_space s ≡ s → IsIndexed v → IsIndexed (clear_slave s v)
unfolding clear_slave
clear_slave-IsIndexed s v name h =
    let start : Clearing = record { vfs = v; deleted_dirs = []; changed = false } in
    let c = clear_paths s (paths_for_slave s v) start in
    let cleared = clear_paths-IsIndexed s name (paths_for_slave s v) start (clean_paths s v h) h in
    either_way c.changed IsIndexed _ _
      (dirty-IsIndexed (restore_dirs c.deleted_dirs c.vfs)
        (restore_dirs-IsIndexed c.deleted_dirs c.vfs cleared))
      cleared

pub mark_all_unseen-IsIndexed : (s : Text) (v : Vfs) → IsIndexed v → IsIndexed (mark_all_unseen s v)
unfolding mark_all_unseen
mark_all_unseen-IsIndexed s v h =
    mark_paths_unseen-IsIndexed s (paths_for_slave s v) v (clean_paths s v h) h
