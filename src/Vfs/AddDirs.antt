-- ===== src/Vfs/AddDirs.antt =====
-- The directories that AddFile makes above what it stores.
use weave_ftpd.Base.{
  ◌≡◌, refl, sym, subst, List, [], ◌∷◌, Text, lookup, insert, Bool-cases, inl, inr, All,
}
use weave_ftpd.Base.Int.{ℤ}
use weave_ftpd.GoPath.Clean.{slash}
use weave_ftpd.Vfs.Paths.{clean_vfs_path, parent, ancestors}
use weave_ftpd.Vfs.PathLaws.{
  IsTidy, path_to, paths_above, clean_vfs_path-path_to, parent-path_to, ancestors-path_to,
}
use weave_ftpd.Vfs.State.{Vfs, VfsFile}
use weave_ftpd.Vfs.Index.{reindex_slave_path, mark_persist_dirty}
use weave_ftpd.Vfs.Tree.{
  ensure_children_bucket, link_child, ensure_root, ensure_dirs, ensure_parent_dirs, touch_dirs,
  touch_ancestors,
}
use weave_ftpd.Vfs.Merge.{stored_file}
use weave_ftpd.Vfs.Write.{place_file, store_file, add_file, slave_there}
use weave_ftpd.Vfs.TreeLaws.{Keeps, ensure_children_bucket-Keeps, link_child-Keeps}
use weave_ftpd.Vfs.DirLaws.{IsDir, IsDir-of_Keeps, ensure_dirs-IsDir, touch_dirs-IsDir_kept}
use weave_ftpd.Vfs.WriteLaws.{IsShown, touch_time}

-- An operation that keeps every directory keeps these.
unfoldable pub AreDirs : List Text → Vfs → Type 0
AreDirs ds v = All (λ d. IsDir d v) ds

AreDirs-of_kept :
    (ds : List Text) (v w : Vfs)
    → ((d : Text) → IsDir d v → IsDir d w)
    → AreDirs ds v
    → AreDirs ds w
unfolding AreDirs
AreDirs-of_kept [] v w k h = tt
AreDirs-of_kept (d ∷ ds) v w k (p, h) = (k d p, AreDirs-of_kept ds v w k h)

mark_persist_dirty-Keeps : (q : Text) (v : Vfs) → Keeps q v (mark_persist_dirty v)
unfolding mark_persist_dirty
mark_persist_dirty-Keeps q v = record {
  entry = refl;
  hidden = refl;
  exclude = refl;
  protected = refl;
}

module _ (x : Text) (up : List Text) (t : IsTidy x) (ts : All IsTidy up) where
  ensure_parent_dirs_lem :
      (s : Text) (v : Vfs)
      → ensure_parent_dirs (path_to (x ∷ up)) s v
        ≡ ensure_dirs s (paths_above (x ∷ up)) (ensure_children_bucket slash (ensure_root v))
  unfolding ensure_parent_dirs
  ensure_parent_dirs_lem s v =
      rw
        (clean_vfs_path-path_to (x ∷ up) (t, ts), parent-path_to x up t ts, ancestors-path_to up ts)
        refl

  pub ensure_parent_dirs-IsDir :
      (s : Text) (v : Vfs)
      → AreDirs (paths_above (x ∷ up)) (ensure_parent_dirs (path_to (x ∷ up)) s v)
  unfolding AreDirs
  ensure_parent_dirs-IsDir s v =
      subst (AreDirs (paths_above (x ∷ up))) (sym (ensure_parent_dirs_lem s v))
        (ensure_dirs-IsDir s (paths_above (x ∷ up)) (ensure_children_bucket slash (ensure_root v)))

  place_file-IsDir :
      (old : Text) (f : VfsFile) (v : Vfs)
      → AreDirs (paths_above (x ∷ up)) (place_file (path_to (x ∷ up)) old f v)
  unfolding place_file
  place_file-IsDir old f v =
      let p = path_to (x ∷ up) in
      let v₃ = ensure_parent_dirs p f.slave_name (reindex_slave_path p old f.slave_name v) in
      let v₄ = link_child (parent p) p v₃ in
      let made =
        AreDirs-of_kept (paths_above (x ∷ up)) v₃ v₄
          (λ d. IsDir-of_Keeps d v₃ v₄ (link_child-Keeps d (parent p) p v₃))
          (ensure_parent_dirs-IsDir f.slave_name _) in
      elim (Bool-cases f.is_dir) [
        | inl e ↦ rw e (
            AreDirs-of_kept (paths_above (x ∷ up)) v₄ _
              (λ d. IsDir-of_Keeps d v₄ _ (ensure_children_bucket-Keeps d p v₄)) made)
        | inr e ↦ rw e made
      ]

  store_file-IsDir :
      (now : ℤ) (f : VfsFile) (v : Vfs)
      → AreDirs (paths_above (x ∷ up)) (store_file now (path_to (x ∷ up)) f v)
  unfolding store_file touch_ancestors
  store_file-IsDir now f v =
      let p = path_to (x ∷ up) in
      let old = slave_there (lookup p v.files) in
      let v₁ : Vfs = record v { files = insert p f v.files } in
      let n = touch_time now f.last_modified in
      let v₄ = place_file p old f v₁ in
      let v₅ = touch_dirs n (ancestors (clean_vfs_path p)) v₄ in
      AreDirs-of_kept (paths_above (x ∷ up)) v₄ (mark_persist_dirty v₅)
        (λ d h.
          IsDir-of_Keeps d v₅ (mark_persist_dirty v₅) (mark_persist_dirty-Keeps d v₅)
            (touch_dirs-IsDir_kept d n (ancestors (clean_vfs_path p)) v₄ h))
        (place_file-IsDir old f v₁)

  add_file_lem :
      (now : ℤ) (f : VfsFile) (v : Vfs)
      → IsShown (path_to (x ∷ up)) v
      → add_file now (path_to (x ∷ up)) f v
        ≡ store_file now (path_to (x ∷ up)) (stored_file v (path_to (x ∷ up)) f) v
  unfolding add_file
  add_file_lem now f v shown = rw (clean_vfs_path-path_to (x ∷ up) (t, ts), shown) refl

  -- After AddFile under a tidy path that is neither hidden nor excluded, every path above that one, up
  -- to the root, has an entry, and the entry is a directory.
  pub add_file-IsDir_above :
      (now : ℤ) (f : VfsFile) (v : Vfs)
      → IsShown (path_to (x ∷ up)) v
      → All (λ d. IsDir d (add_file now (path_to (x ∷ up)) f v)) (paths_above (x ∷ up))
  unfolding AreDirs
  add_file-IsDir_above now f v shown =
      let p = path_to (x ∷ up) in
      subst (AreDirs (paths_above (x ∷ up))) (sym (add_file_lem now f v shown))
        (store_file-IsDir now (stored_file v p f) v)
