-- ===== src/Vfs/TreeLaws.antt =====
-- The laws of the tree: what the walks over the ancestors of a path leave as it was, and what they
-- make.
use weave_ftpd.Base.{
  ◌≡◌, ◌≢◌, refl, ◌∙◌, List, [], ◌∷◌, ◌&&◌, Text, text_eq, text_eq_of_ne, trim_space, lookup,
  insert, lookup-insert, Bool-cases, Option-cases, inl, inr, All,
}
use weave_ftpd.Base.Int.{ℤ, ltb_ℤ}
use weave_ftpd.GoPath.Clean.{slash}
use weave_ftpd.Vfs.Paths.{clean_vfs_path, parent}
use weave_ftpd.Vfs.State.{Vfs, VfsFile, has_key}
use weave_ftpd.Vfs.Index.{add_slave_path, remove_slave_path, reindex_slave_path}
use weave_ftpd.Vfs.Tree.{
  ensure_children_bucket, link_child, ensure_dir, ensure_linked_dir, ensure_dirs, touch_dir,
  touch_dirs,
}

-- The entry of `q` and the settings of what is hidden and protected stay as they are.
pub record Keeps (q : Text) (v w : Vfs) : Type 0 where
  pub entry : lookup q w.files ≡ lookup q v.files
  pub hidden : w.hidden_paths ≡ v.hidden_paths
  pub exclude : w.exclude_paths ≡ v.exclude_paths
  pub protected : w.protected_dirs ≡ v.protected_dirs

module _ (q : Text) where
  pub Keeps-refl : (v : Vfs) → Keeps q v v
  Keeps-refl v = record { entry = refl; hidden = refl; exclude = refl; protected = refl }

  pub Keeps-trans : (u v w : Vfs) → Keeps q u v → Keeps q v w → Keeps q u w
  Keeps-trans u v w h k = record {
    entry = k.entry ∙ h.entry;
    hidden = k.hidden ∙ h.hidden;
    exclude = k.exclude ∙ h.exclude;
    protected = k.protected ∙ h.protected;
  }

  pub insert-Keeps :
      (d : Text) (f : VfsFile) (v : Vfs)
      → d ≢ q
      → Keeps q v (record v { files = insert d f v.files })
  insert-Keeps d f v h = record {
    entry = lookup-insert d q f v.files ∙ rw (text_eq_of_ne d q h) refl;
    hidden = refl;
    exclude = refl;
    protected = refl;
  }

  pub add_slave_path-Keeps : (s d : Text) (v : Vfs) → Keeps q v (add_slave_path s d v)
  unfolding add_slave_path
  add_slave_path-Keeps s d v = elim (Bool-cases (text_eq (trim_space s) [])) [
    | inl e ↦ rw e (Keeps-refl v)
    | inr e ↦ rw e (record { entry = refl; hidden = refl; exclude = refl; protected = refl })
  ]

  pub remove_slave_path-Keeps : (s d : Text) (v : Vfs) → Keeps q v (remove_slave_path s d v)
  unfolding remove_slave_path
  remove_slave_path-Keeps s d v = elim (Bool-cases (text_eq (trim_space s) [])) [
    | inl e ↦ rw e (Keeps-refl v)
    | inr e ↦ elim (Option-cases (lookup (trim_space s) v.slave_paths)) [
      | inl k ↦ rw (e, k) (Keeps-refl v)
      | inr (paths, k) ↦
          rw (e, k) (record { entry = refl; hidden = refl; exclude = refl; protected = refl })
    ]
  ]

  pub reindex_slave_path-Keeps :
      (d old new : Text) (v : Vfs) → Keeps q v (reindex_slave_path d old new v)
  unfolding reindex_slave_path
  reindex_slave_path-Keeps d old new v =
      elim (Bool-cases (text_eq (trim_space old) (trim_space new))) [
        | inl e ↦ rw e (add_slave_path-Keeps new d v)
        | inr e ↦ rw e (
            Keeps-trans v (remove_slave_path old d v) _ (remove_slave_path-Keeps old d v)
              (add_slave_path-Keeps new d (remove_slave_path old d v)))
      ]

  pub ensure_children_bucket-Keeps : (d : Text) (v : Vfs) → Keeps q v (ensure_children_bucket d v)
  unfolding ensure_children_bucket
  ensure_children_bucket-Keeps d v = elim (Bool-cases (has_key (clean_vfs_path d) v.children)) [
    | inl e ↦ rw e (Keeps-refl v)
    | inr e ↦ rw e (record { entry = refl; hidden = refl; exclude = refl; protected = refl })
  ]

  pub link_child-Keeps : (d c : Text) (v : Vfs) → Keeps q v (link_child d c v)
  unfolding link_child
  link_child-Keeps d c v =
      let k = ensure_children_bucket-Keeps (clean_vfs_path d) v in
      record { entry = k.entry; hidden = k.hidden; exclude = k.exclude; protected = k.protected }

  pub ensure_dir-Keeps : (s d : Text) (v : Vfs) → d ≢ q → Keeps q v (ensure_dir s d v)
  unfolding ensure_dir
  ensure_dir-Keeps s d v h = elim (Option-cases (lookup d v.files)) [
    | inl e ↦
        rw (e, ensure_dir) (Keeps-trans v _ _ (insert-Keeps d _ v h) (add_slave_path-Keeps s d _))
    | inr (f, e) ↦ rw (e, ensure_dir) (insert-Keeps d _ v h)
  ]

  pub ensure_linked_dir-Keeps : (s d : Text) (v : Vfs) → d ≢ q → Keeps q v (ensure_linked_dir s d v)
  unfolding ensure_linked_dir
  ensure_linked_dir-Keeps s d v h =
      let w = ensure_dir s d v in
      let k = Keeps-trans v w _ (ensure_dir-Keeps s d v h) (ensure_children_bucket-Keeps d w) in
      elim (Bool-cases (text_eq d slash)) [
        | inl e ↦ rw e k
        | inr e ↦ rw e (Keeps-trans v _ _ k (link_child-Keeps (parent d) d _))
      ]

  pub ensure_dirs-Keeps :
      (s : Text) (ds : List Text) (v : Vfs) → All (λ d. d ≢ q) ds → Keeps q v (ensure_dirs s ds v)
  unfolding ensure_dirs
  ensure_dirs-Keeps s [] v h = Keeps-refl v
  ensure_dirs-Keeps s (d ∷ ds) v (p, h) =
      Keeps-trans v _ _ (ensure_linked_dir-Keeps s d v p) (ensure_dirs-Keeps s ds _ h)

  pub touch_dir-Keeps : (ts : ℤ) (d : Text) (v : Vfs) → d ≢ q → Keeps q v (touch_dir ts d v)
  unfolding touch_dir
  touch_dir-Keeps ts d v h = elim (Option-cases (lookup d v.files)) [
    | inl e ↦ rw (e, touch_dir) (Keeps-refl v)
    | inr (f, e) ↦ elim (Bool-cases (f.is_dir && ltb_ℤ f.last_modified ts)) [
      | inl t ↦ rw (e, touch_dir, t) (insert-Keeps d _ v h)
      | inr t ↦ rw (e, touch_dir, t) (Keeps-refl v)
    ]
  ]

  pub touch_dirs-Keeps :
      (ts : ℤ) (ds : List Text) (v : Vfs) → All (λ d. d ≢ q) ds → Keeps q v (touch_dirs ts ds v)
  unfolding touch_dirs
  touch_dirs-Keeps ts [] v h = Keeps-refl v
  touch_dirs-Keeps ts (d ∷ ds) v (p, h) =
      Keeps-trans v _ _ (touch_dir-Keeps ts d v p) (touch_dirs-Keeps ts ds _ h)
