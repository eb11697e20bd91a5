-- ===== src/Vfs/FreeLaws.antt =====
-- The second loop of ClearSlave and the entries of the slave.
use weave_ftpd.Base.{
  either_way, ◌≡◌, inl, inr, sym, ap, ◌∙◌, List, [], ◌∷◌, map, false, some, Text, text_eq, lookup,
  insert, lookup-insert, Bool-cases, Option-cases,
}
use weave_ftpd.GoPath.Clean.{slash}
use weave_ftpd.Vfs.Paths.{clean_vfs_path, parent, ancestors}
use weave_ftpd.Vfs.State.{Vfs, VfsFile, made_dir, has_key}
use weave_ftpd.Vfs.Tree.{
  child_set, ensure_children_bucket, link_child, ensure_dir, ensure_linked_dir, ensure_dirs,
  ensure_root, ensure_parent_dirs,
}
use weave_ftpd.Vfs.TreeLaws.{
  Keeps, add_slave_path-Keeps, ensure_children_bucket-Keeps, link_child-Keeps,
}
use weave_ftpd.Vfs.Clear.{
  is_owned, restore_child, restore_children, restore_dir, restore_dirs, forget_children,
}

-- The slave has no entry.
abbrev pub IsFree : Text → Vfs → Type 0
IsFree s v = (q : Text) → is_owned s (lookup q v.files) ≡ false

module _ (s : Text) where
  insert-IsFree :
      (p : Text) (f : VfsFile) (v : Vfs)
      → text_eq f.slave_name s ≡ false
      → IsFree s v
      → IsFree s (record v { files = insert p f v.files })
  unfolding is_owned
  insert-IsFree p f v foreign h q = elim (Bool-cases (text_eq p q)) [
    | inl same ↦ rw (lookup-insert p q f v.files, same, is_owned) foreign
    | inr other ↦ rw (lookup-insert p q f v.files, other) (h q)
  ]

  IsFree-of_Keeps : (v w : Vfs) → ((q : Text) → Keeps q v w) → IsFree s v → IsFree s w
  IsFree-of_Keeps v w k h q = ap (is_owned s) (k q).entry ∙ h q

  foreign_there :
      (p : Text) (f : VfsFile) (v : Vfs)
      → lookup p v.files ≡ some f
      → IsFree s v
      → text_eq f.slave_name s ≡ false
  unfolding is_owned
  foreign_there p f v e h = ap (is_owned s) (sym e) ∙ h p

  ensure_root-IsFree : (v : Vfs) → text_eq [] s ≡ false → IsFree s v → IsFree s (ensure_root v)
  unfolding ensure_root
  ensure_root-IsFree v named h =
      either_way (has_key slash v.files) (IsFree s) v
        (record v { files = insert slash (made_dir slash []) v.files }) h
        (insert-IsFree slash (made_dir slash []) v named h)

  module _ (n : Text) (foreign : text_eq n s ≡ false) where
    ensure_dir-IsFree : (d : Text) (v : Vfs) → IsFree s v → IsFree s (ensure_dir n d v)
    unfolding ensure_dir
    ensure_dir-IsFree d v h = elim (Option-cases (lookup d v.files)) [
      | inl e ↦
          rw (e, ensure_dir)
            (IsFree-of_Keeps _ _ (λ q. add_slave_path-Keeps q n d _)
              (insert-IsFree d (made_dir d n) v foreign h))
      | inr (f, e) ↦ rw (e, ensure_dir) (insert-IsFree d _ v (foreign_there d f v e h) h)
    ]

    ensure_linked_dir-IsFree :
        (d : Text) (v : Vfs) → IsFree s v → IsFree s (ensure_linked_dir n d v)
    unfolding ensure_linked_dir
    ensure_linked_dir-IsFree d v h =
        let w = ensure_children_bucket d (ensure_dir n d v) in
        let made =
          IsFree-of_Keeps (ensure_dir n d v) w
            (λ q. ensure_children_bucket-Keeps q d (ensure_dir n d v)) (ensure_dir-IsFree d v h) in
        either_way (text_eq d slash) (IsFree s) _ _ made (
          IsFree-of_Keeps w (link_child (parent d) d w) (λ q. link_child-Keeps q (parent d) d w)
            made)

    ensure_dirs-IsFree : (ds : List Text) (v : Vfs) → IsFree s v → IsFree s (ensure_dirs n ds v)
    unfolding ensure_dirs
    ensure_dirs-IsFree [] v h = h
    ensure_dirs-IsFree (d ∷ ds) v h =
        ensure_dirs-IsFree ds (ensure_linked_dir n d v) (ensure_linked_dir-IsFree d v h)

    ensure_parent_dirs-IsFree :
        (p : Text) (v : Vfs)
        → text_eq [] s ≡ false
        → IsFree s v
        → IsFree s (ensure_parent_dirs p n v)
    unfolding ensure_parent_dirs
    ensure_parent_dirs-IsFree p v named h =
        let w = ensure_children_bucket slash (ensure_root v) in
        ensure_dirs-IsFree (ancestors (parent (clean_vfs_path p))) w (
          IsFree-of_Keeps (ensure_root v) w
            (λ q. ensure_children_bucket-Keeps q slash (ensure_root v))
            (ensure_root-IsFree v named h))

  module _ (named : text_eq [] s ≡ false) where
    restore_child-IsFree :
        (d child : Text) (v : Vfs) → IsFree s v → IsFree s (restore_child d child v)
    unfolding restore_child
    restore_child-IsFree d child v h = elim (Option-cases (lookup child v.files)) [
      | inl e ↦ rw (e, restore_child) h
      | inr (f, e) ↦
          rw (e, restore_child)
            (ensure_parent_dirs-IsFree f.slave_name (foreign_there child f v e h) child v named h)
    ]

    restore_children-IsFree :
        (d : Text) (cs : List Text) (v : Vfs) → IsFree s v → IsFree s (restore_children d cs v)
    unfolding restore_children
    restore_children-IsFree d [] v h = h
    restore_children-IsFree d (c ∷ cs) v h =
        restore_children-IsFree d cs (restore_child d c v) (restore_child-IsFree d c v h)

    restore_dir-IsFree : (d : Text) (v : Vfs) → IsFree s v → IsFree s (restore_dir d v)
    unfolding restore_dir
    restore_dir-IsFree d v h =
        let w = restore_children d (map (λ e. e.0) (child_set d v)) v in
        let restored = restore_children-IsFree d (map (λ e. e.0) (child_set d v)) v h in
        either_way _ (IsFree s) (forget_children d v) _ h
          (either_way _ (IsFree s) (forget_children d w) w restored restored)

    pub restore_dirs-IsFree : (ds : List Text) (v : Vfs) → IsFree s v → IsFree s (restore_dirs ds v)
    unfolding restore_dirs
    restore_dirs-IsFree [] v h = h
    restore_dirs-IsFree (d ∷ ds) v h =
        restore_dirs-IsFree ds (restore_dir d v) (restore_dir-IsFree d v h)
