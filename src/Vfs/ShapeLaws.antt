-- ===== src/Vfs/ShapeLaws.antt =====
-- The shape of the tree under AddFile and AddSymlink.
use weave_ftpd.Base.{
  either_way, ◌≡◌, inl, inr, refl, ap, ◌∙◌, [], ◌∷◌, List, ◌++◌, true, ◌&&◌, Text, text_eq,
  text_eq_iff, trim_space, lookup, insert, Bool-cases, Option-cases, arith, length, AnyOf, All,
}
use weave_ftpd.Base.Int.{ℤ, ltb_ℤ}
use weave_ftpd.GoPath.Clean.{slash}
use weave_ftpd.Vfs.Paths.{clean_vfs_path, parent, ancestors}
use weave_ftpd.Vfs.PathLaws.{
  IsTidy, path_to, paths_above, clean_vfs_path-path_to, parent-path_to, ancestors-path_to,
  longer_below, below_root,
}
use weave_ftpd.Vfs.State.{Vfs, VfsFile, made_dir, has_key}
use weave_ftpd.Vfs.Index.{add_slave_path, remove_slave_path, reindex_slave_path, mark_persist_dirty}
use weave_ftpd.Vfs.Tree.{
  ensure_children_bucket, link_child, ensure_dir, ensure_linked_dir, ensure_dirs, ensure_root,
  ensure_parent_dirs, touch_dir, touch_dirs, touch_ancestors,
}
use weave_ftpd.Vfs.TreeLaws.{
  ensure_children_bucket-Keeps, add_slave_path-Keeps, reindex_slave_path-Keeps,
}
use weave_ftpd.Vfs.LinkLaws.{is_child-bucket, is_child_of_same, Hangs, IsTreeBut, IsTree}
use weave_ftpd.Vfs.HangLaws.{
  IsTreeBut-kept, IsTreeBut-stored, IsTreeBut-updated, IsTreeBut-loose, IsTreeBut-more,
  IsTreeBut-root, IsTreeBut-linked,
}
use weave_ftpd.Vfs.DirLaws.{IsDir}
use weave_ftpd.Vfs.AddDirs.{AreDirs, ensure_parent_dirs-IsDir}
use weave_ftpd.Vfs.Write.{place_file, store_file, slave_there}

-- The index has no part in the links.
add-children : (n p : Text) (v : Vfs) → (add_slave_path n p v).children ≡ v.children
unfolding add_slave_path
add-children n p v = elim (Bool-cases (text_eq (trim_space n) [])) [
  | inl blank ↦ rw blank refl
  | inr named ↦ rw named refl
]

pub remove-children : (n p : Text) (v : Vfs) → (remove_slave_path n p v).children ≡ v.children
unfolding remove_slave_path
remove-children n p v = elim (Bool-cases (text_eq (trim_space n) [])) [
  | inl blank ↦ rw blank refl
  | inr named ↦ elim (Option-cases (lookup (trim_space n) v.slave_paths)) [
    | inl unknown ↦ rw (named, unknown) refl
    | inr (paths, e) ↦ rw (named, e) refl
  ]
]

pub reindex-children :
    (p old new : Text) (v : Vfs) → (reindex_slave_path p old new v).children ≡ v.children
unfolding reindex_slave_path
reindex-children p old new v = elim (Bool-cases (text_eq (trim_space old) (trim_space new))) [
  | inl same ↦ rw same (add-children new p v)
  | inr other ↦ rw other (add-children new p (remove_slave_path old p v) ∙ remove-children old p v)
]

pub IsTreeBut-reindexed :
    (ds : List Text) (p old new : Text) (v : Vfs)
    → IsTreeBut ds v
    → IsTreeBut ds (reindex_slave_path p old new v)
IsTreeBut-reindexed ds p old new v =
    IsTreeBut-kept ds v (reindex_slave_path p old new v)
      (λ d c.
        is_child_of_same d c v (reindex_slave_path p old new v) (reindex-children p old new v))
      (λ q. (reindex_slave_path-Keeps q p old new v).entry)

pub IsTreeBut-bucket :
    (ds : List Text) (b : Text) (v : Vfs)
    → IsTreeBut ds v
    → IsTreeBut ds (ensure_children_bucket b v)
IsTreeBut-bucket ds b v =
    IsTreeBut-kept ds v (ensure_children_bucket b v) (λ d c. is_child-bucket d c b v)
      (λ q. (ensure_children_bucket-Keeps q b v).entry)

pub IsTreeBut-dirty :
    (ds : List Text) (v : Vfs) → IsTreeBut ds v → IsTreeBut ds (mark_persist_dirty v)
unfolding mark_persist_dirty
IsTreeBut-dirty ds v =
    IsTreeBut-kept ds v (mark_persist_dirty v)
      (λ d c. is_child_of_same d c v (mark_persist_dirty v) refl) (λ q. refl)

ensure_dir-IsTreeBut :
    (ds : List Text) (s d : Text) (v : Vfs)
    → IsTreeBut (d ∷ ds) v
    → IsTreeBut (d ∷ ds) (ensure_dir s d v)
unfolding ensure_dir
ensure_dir-IsTreeBut ds s d v h = elim (Option-cases (lookup d v.files)) [
  | inl e ↦
      let w : Vfs = record v { files = insert d (made_dir d s) v.files } in
      rw (e, ensure_dir)
        (IsTreeBut-kept (d ∷ ds) w (add_slave_path s d w)
          (λ a c. is_child_of_same a c w (add_slave_path s d w) (add-children s d w))
          (λ q. (add_slave_path-Keeps q s d w).entry)
          (IsTreeBut-stored (d ∷ ds) d (made_dir d s) v (inr (inr (inl refl))) h))
  | inr (f, e) ↦ rw (e, ensure_dir) (IsTreeBut-updated (d ∷ ds) d f _ v e h)
]

root_is_root : text_eq slash slash ≡ true
root_is_root = (text_eq_iff slash slash).1 refl

ensure_linked_root :
    (ds : List Text) (s : Text) (v : Vfs)
    → IsTreeBut (slash ∷ ds) v
    → IsTreeBut ds (ensure_linked_dir s slash v)
unfolding ensure_linked_dir
ensure_linked_root ds s v h = rw root_is_root (
    IsTreeBut-root ds _ (
      IsTreeBut-bucket (slash ∷ ds) slash (ensure_dir s slash v)
        (ensure_dir-IsTreeBut ds s slash v h)))

ensure_linked_dir-IsTreeBut :
    (ds : List Text) (s x : Text) (up : List Text) (v : Vfs)
    → IsTidy x
    → All IsTidy up
    → AnyOf (λ r. r ≡ path_to up) ds
    → IsTreeBut (path_to (x ∷ up) ∷ ds) v
    → IsTreeBut ds (ensure_linked_dir s (path_to (x ∷ up)) v)
unfolding ensure_linked_dir
ensure_linked_dir-IsTreeBut ds s x up v t ts next h =
    let p = path_to (x ∷ up) in
    let w = ensure_children_bucket p (ensure_dir s p v) in
    rw (below_root x up t) (
      IsTreeBut-linked x up t ts ds w (inr (inr next))
        (IsTreeBut-bucket (p ∷ ds) p (ensure_dir s p v) (ensure_dir-IsTreeBut ds s p v h)))

-- The walk up from a directory links it and all above it.
pub ensure_dirs-IsTreeBut :
    (ds : List Text) (s : Text) (up : List Text) (v : Vfs)
    → All IsTidy up
    → IsTreeBut ((path_to up ∷ paths_above up) ++ ds) v
    → IsTreeBut ds (ensure_dirs s (path_to up ∷ paths_above up) v)
unfolding ensure_dirs
ensure_dirs-IsTreeBut ds s [] v ts h = ensure_linked_root ds s v h
ensure_dirs-IsTreeBut ds s (x ∷ up) v (t, ts) h =
    ensure_dirs-IsTreeBut ds s up (ensure_linked_dir s (path_to (x ∷ up)) v) ts
      (ensure_linked_dir-IsTreeBut ((path_to up ∷ paths_above up) ++ ds) s x up v t ts (inl refl) h)

ensure_root-IsTreeBut : (ds : List Text) (v : Vfs) → IsTreeBut ds v → IsTreeBut ds (ensure_root v)
unfolding ensure_root
ensure_root-IsTreeBut ds v h =
    either_way (has_key slash v.files) (IsTreeBut ds) v _ h
      (IsTreeBut-stored ds slash (made_dir slash []) v (inl refl) h)

touch_dir-IsTreeBut :
    (ds : List Text) (ts : ℤ) (d : Text) (v : Vfs)
    → IsTreeBut ds v
    → IsTreeBut ds (touch_dir ts d v)
unfolding touch_dir
touch_dir-IsTreeBut ds ts d v h = elim (Option-cases (lookup d v.files)) [
  | inl e ↦ rw (e, touch_dir) h
  | inr (f, e) ↦ elim (Bool-cases (f.is_dir && ltb_ℤ f.last_modified ts)) [
    | inl t ↦ rw (e, touch_dir, t) (IsTreeBut-updated ds d f _ v e h)
    | inr t ↦ rw (e, touch_dir, t) h
  ]
]

more_right : (a ds : List Text) (p : Text) → AnyOf (λ r. r ≡ p) ds → AnyOf (λ r. r ≡ p) (a ++ ds)
more_right [] ds p h = h
more_right (x ∷ a) ds p h = inr (more_right a ds p h)

pub touch_dirs-IsTreeBut :
    (ds : List Text) (ts : ℤ) (ps : List Text) (v : Vfs)
    → IsTreeBut ds v
    → IsTreeBut ds (touch_dirs ts ps v)
unfolding touch_dirs
touch_dirs-IsTreeBut ds ts [] v h = h
touch_dirs-IsTreeBut ds ts (p ∷ ps) v h =
    touch_dirs-IsTreeBut ds ts ps (touch_dir ts p v) (touch_dir-IsTreeBut ds ts p v h)

pub touch_ancestors-IsTree :
    (now : ℤ) (p : Text) (ts : ℤ) (v : Vfs) → IsTree v → IsTree (touch_ancestors now p ts v)
unfolding touch_ancestors
touch_ancestors-IsTree now p ts v h = touch_dirs-IsTreeBut [] _ (ancestors (clean_vfs_path p)) v h

module _ (x : Text) (up : List Text) (t : IsTidy x) (ts : All IsTidy up) where
  ensure_parent_dirs-IsTreeBut :
      (ds : List Text) (s : Text) (v : Vfs)
      → IsTreeBut ds v
      → IsTreeBut ds (ensure_parent_dirs (path_to (x ∷ up)) s v)
  unfolding ensure_parent_dirs
  ensure_parent_dirs-IsTreeBut ds s v h =
      let w = ensure_children_bucket slash (ensure_root v) in
      rw
        (clean_vfs_path-path_to (x ∷ up) (t, ts), parent-path_to x up t ts, ancestors-path_to up ts)
        (ensure_dirs-IsTreeBut ds s up w ts (
          IsTreeBut-more ds ((path_to up ∷ paths_above up) ++ ds) w
            (more_right (path_to up ∷ paths_above up) ds)
            (IsTreeBut-bucket ds slash (ensure_root v) (ensure_root-IsTreeBut ds v h))))

  -- The parent of a path hangs where it has an entry.
  parent-Hangs :
      (v : Vfs)
      → IsDir (path_to up) v
      → IsTreeBut (path_to (x ∷ up) ∷ []) v
      → Hangs [] (path_to up) v
  unfolding IsDir
  parent-Hangs v (f, e, d) h = elim (h.entries (path_to up) f e) [
    | inl root ↦ inl root
    | inr (inl linked) ↦ inr (inl linked)
    | inr (inr (inl same)) ↦ absurd (omega (arith, longer_below x up t, ap length same))
    | inr (inr (inr impossible)) ↦ absurd impossible
  ]

  -- An entry is stored, the directories above it are made, and it is linked.
  pub placed-IsTree :
      (s : Text) (v : Vfs)
      → IsTreeBut (path_to (x ∷ up) ∷ []) v
      → IsTree (
          link_child
            (parent (path_to (x ∷ up)))
            (path_to (x ∷ up))
            (ensure_parent_dirs (path_to (x ∷ up)) s v))
  unfolding AreDirs
  placed-IsTree s v h =
      let p = path_to (x ∷ up) in
      let w = ensure_parent_dirs p s v in
      let k = ensure_parent_dirs-IsTreeBut (p ∷ []) s v h in
      IsTreeBut-linked x up t ts [] w (parent-Hangs w (ensure_parent_dirs-IsDir x up t ts s v).0 k)
        k

  pub store_file-IsTree :
      (now : ℤ) (f : VfsFile) (v : Vfs) → IsTree v → IsTree (store_file now (path_to (x ∷ up)) f v)
  unfolding store_file place_file
  store_file-IsTree now f v h =
      let p = path_to (x ∷ up) in
      let old = slave_there (lookup p v.files) in
      let v₁ : Vfs = record v { files = insert p f v.files } in
      let v₂ = reindex_slave_path p old f.slave_name v₁ in
      let v₃ = link_child (parent p) p (ensure_parent_dirs p f.slave_name v₂) in
      let placed =
        placed-IsTree f.slave_name v₂
          (IsTreeBut-reindexed (p ∷ []) p old f.slave_name v₁ (IsTreeBut-loose [] p f v h)) in
      IsTreeBut-dirty [] _ (
        touch_ancestors-IsTree now p f.last_modified _ (
          either_way f.is_dir IsTree (ensure_children_bucket p v₃) v₃
            (IsTreeBut-bucket [] p v₃ placed) placed))
