-- ===== src/Vfs/StoreLaws.antt =====
-- The slave index under AddFile and the walks over ancestors.
use weave_ftpd.Base.{
  either_way, ◌≡◌, inl, inr, refl, sym, ap, ◌∙◌, subst, List, [], ◌∷◌, Bool, true, false, ◌&&◌,
  ◌||◌, Option, none, some, Text, text_eq, trim_space, lookup, insert, Bool-cases, Option-cases,
  All, if◌then◌else◌,
}
use weave_ftpd.Base.Int.{ℤ, ltb_ℤ}
use weave_ftpd.GoPath.Clean.{slash, clean, dir}
use weave_ftpd.Vfs.Paths.{clean_vfs_path, parent, ancestors, walk_up, is_covered_by}
use weave_ftpd.Vfs.PathLaws.{
  IsTidy, IsTidyPath, path_to, paths_above, clean_vfs_path-path_to, parent-path_to,
  ancestors-path_to,
}
use weave_ftpd.Vfs.DroppedLaws.{deleted-IsIndexed}
use weave_ftpd.Vfs.State.{Vfs, VfsFile, made_dir, has_key}
use weave_ftpd.Vfs.Index.{reindex_slave_path, mark_persist_dirty}
use weave_ftpd.Vfs.IndexedLaws.{
  IsIndexed, IsIndexed-of_same, update-IsIndexed, blank-IsIndexed, reindexed-IsIndexed,
  made_dir-IsIndexed,
}
use weave_ftpd.Vfs.Tree.{
  ensure_children_bucket, link_child, ensure_dir, ensure_linked_dir, ensure_dirs, ensure_root,
  ensure_parent_dirs, touch_dir, touch_dirs, touch_ancestors,
}
use weave_ftpd.Vfs.TreeLaws.{ensure_children_bucket-Keeps, link_child-Keeps}
use weave_ftpd.Vfs.Merge.{stored_file, merge_existing, as_protected, as_link, keep_transfer}
use weave_ftpd.Vfs.Write.{place_file, store_file, add_file, slave_there}

abbrev pub AreTidy : List Text → Type 0
AreTidy ds = All IsTidyPath ds

pub paths_above-AreTidy : (up : List Text) → All IsTidy up → AreTidy (paths_above up)
paths_above-AreTidy [] h = tt
paths_above-AreTidy (x ∷ up) (t, h) = ((up, h, refl), paths_above-AreTidy up h)

bucket-slave_paths : (d : Text) (v : Vfs) → (ensure_children_bucket d v).slave_paths ≡ v.slave_paths
unfolding ensure_children_bucket
bucket-slave_paths d v = elim (Bool-cases (has_key (clean_vfs_path d) v.children)) [
  | inl e ↦ rw e refl
  | inr e ↦ rw e refl
]

pub bucket-IsIndexed : (d : Text) (v : Vfs) → IsIndexed v → IsIndexed (ensure_children_bucket d v)
bucket-IsIndexed d v =
    IsIndexed-of_same v (ensure_children_bucket d v) (λ q. ensure_children_bucket-Keeps q d v)
      (bucket-slave_paths d v)

link-slave_paths : (d c : Text) (v : Vfs) → (link_child d c v).slave_paths ≡ v.slave_paths
unfolding link_child
link-slave_paths d c v = bucket-slave_paths (clean_vfs_path d) v

pub link_child-IsIndexed : (d c : Text) (v : Vfs) → IsIndexed v → IsIndexed (link_child d c v)
link_child-IsIndexed d c v =
    IsIndexed-of_same v (link_child d c v) (λ q. link_child-Keeps q d c v) (link-slave_paths d c v)

pub dirty-IsIndexed : (v : Vfs) → IsIndexed v → IsIndexed (mark_persist_dirty v)
unfolding mark_persist_dirty
dirty-IsIndexed v =
    IsIndexed-of_same v (mark_persist_dirty v)
      (λ q. record { entry = refl; hidden = refl; exclude = refl; protected = refl }) refl

ensure_dir-IsIndexed :
    (s d : Text) (v : Vfs)
    → IsTidyPath d
    → trim_space s ≡ s
    → IsIndexed v
    → IsIndexed (ensure_dir s d v)
unfolding ensure_dir
ensure_dir-IsIndexed s d v tidy name h = elim (Option-cases (lookup d v.files)) [
  | inl e ↦ rw (e, ensure_dir) (made_dir-IsIndexed s d v tidy name h)
  | inr (f, e) ↦ rw (e, ensure_dir) (update-IsIndexed d f _ v e refl h)
]

ensure_linked_dir-IsIndexed :
    (s d : Text) (v : Vfs)
    → IsTidyPath d
    → trim_space s ≡ s
    → IsIndexed v
    → IsIndexed (ensure_linked_dir s d v)
unfolding ensure_linked_dir
ensure_linked_dir-IsIndexed s d v tidy name h =
    let made = bucket-IsIndexed d (ensure_dir s d v) (ensure_dir-IsIndexed s d v tidy name h) in
    elim (Bool-cases (text_eq d slash)) [
      | inl e ↦ rw e made
      | inr e ↦ rw e (link_child-IsIndexed (parent d) d _ made)
    ]

pub ensure_dirs-IsIndexed :
    (s : Text) (ds : List Text) (v : Vfs)
    → AreTidy ds
    → trim_space s ≡ s
    → IsIndexed v
    → IsIndexed (ensure_dirs s ds v)
unfolding ensure_dirs
ensure_dirs-IsIndexed s [] v c name h = h
ensure_dirs-IsIndexed s (d ∷ ds) v (c, cs) name h =
    ensure_dirs-IsIndexed s ds (ensure_linked_dir s d v) cs name
      (ensure_linked_dir-IsIndexed s d v c name h)

slash_is_tidy : IsTidyPath slash
slash_is_tidy = ([], tt, refl)

pub ensure_root-IsIndexed : (v : Vfs) → IsIndexed v → IsIndexed (ensure_root v)
unfolding ensure_root
ensure_root-IsIndexed v h = elim (Bool-cases (has_key slash v.files)) [
  | inl e ↦ rw e h
  | inr e ↦ rw e (blank-IsIndexed slash (made_dir slash []) v slash_is_tidy refl h)
]

touch_dir-IsIndexed : (ts : ℤ) (d : Text) (v : Vfs) → IsIndexed v → IsIndexed (touch_dir ts d v)
unfolding touch_dir
touch_dir-IsIndexed ts d v h = elim (Option-cases (lookup d v.files)) [
  | inl e ↦ rw (e, touch_dir) h
  | inr (f, e) ↦ elim (Bool-cases (f.is_dir && ltb_ℤ f.last_modified ts)) [
    | inl t ↦ rw (e, touch_dir, t) (update-IsIndexed d f _ v e refl h)
    | inr t ↦ rw (e, touch_dir, t) h
  ]
]

pub touch_dirs-IsIndexed :
    (ts : ℤ) (ds : List Text) (v : Vfs) → IsIndexed v → IsIndexed (touch_dirs ts ds v)
unfolding touch_dirs
touch_dirs-IsIndexed ts [] v h = h
touch_dirs-IsIndexed ts (d ∷ ds) v h =
    touch_dirs-IsIndexed ts ds (touch_dir ts d v) (touch_dir-IsIndexed ts d v h)

pub touch_ancestors-IsIndexed :
    (now : ℤ) (p : Text) (ts : ℤ) (v : Vfs) → IsIndexed v → IsIndexed (touch_ancestors now p ts v)
unfolding touch_ancestors
touch_ancestors-IsIndexed now p ts v h = touch_dirs-IsIndexed _ (ancestors (clean_vfs_path p)) v h

abbrev BySlave : Text → VfsFile → Type 0
BySlave n f = f.slave_name ≡ n

merge_existing-slave_name :
    (o : Option VfsFile) (f : VfsFile) → BySlave f.slave_name (merge_existing o f)
unfolding merge_existing keep_transfer
merge_existing-slave_name none f = refl
merge_existing-slave_name (some old) f = either_way _ (BySlave f.slave_name) _ _ refl refl

as_link-slave_name : (v : Vfs) (p : Text) (f : VfsFile) → BySlave f.slave_name (as_link v p f)
unfolding as_link
as_link-slave_name v p f = either_way _ (BySlave f.slave_name) _ _ refl refl

as_protected-trimmed :
    (b : Bool) (f : VfsFile)
    → trim_space f.slave_name ≡ f.slave_name
    → trim_space (as_protected b f).slave_name ≡ (as_protected b f).slave_name
unfolding as_protected trim_space
as_protected-trimmed false f h = h
as_protected-trimmed true f h = refl

-- The merge keeps the slave of the new entry, unless the path is protected and has none.
stored_file-trimmed :
    (v : Vfs) (p : Text) (f : VfsFile)
    → trim_space f.slave_name ≡ f.slave_name
    → trim_space (stored_file v p f).slave_name ≡ (stored_file v p f).slave_name
unfolding stored_file
stored_file-trimmed v p f name =
    let g : VfsFile = record f {
      path = p;
      link_target = if text_eq f.link_target [] then [] else clean_vfs_path f.link_target;
    } in
    let h = as_protected (has_key p v.protected_dirs) g in
    let same =
      merge_existing-slave_name (lookup p v.files) (as_link v p h) ∙ as_link-slave_name v p h in
    ap trim_space same ∙ (as_protected-trimmed (has_key p v.protected_dirs) g name ∙ sym same)

module _ (x : Text) (up : List Text) (t : IsTidy x) (ts : All IsTidy up) where
  pub ensure_parent_dirs-IsIndexed :
      (s : Text) (v : Vfs)
      → trim_space s ≡ s
      → IsIndexed v
      → IsIndexed (ensure_parent_dirs (path_to (x ∷ up)) s v)
  unfolding ensure_parent_dirs
  ensure_parent_dirs-IsIndexed s v name h =
      rw
        (clean_vfs_path-path_to (x ∷ up) (t, ts), parent-path_to x up t ts, ancestors-path_to up ts)
        (ensure_dirs-IsIndexed s (paths_above (x ∷ up)) _ (paths_above-AreTidy (x ∷ up) (t, ts))
          name (bucket-IsIndexed slash (ensure_root v) (ensure_root-IsIndexed v h)))

  store_file-IsIndexed :
      (now : ℤ) (f : VfsFile) (v : Vfs)
      → trim_space f.slave_name ≡ f.slave_name
      → IsIndexed v
      → IsIndexed (store_file now (path_to (x ∷ up)) f v)
  unfolding store_file place_file
  store_file-IsIndexed now f v name h =
      let p = path_to (x ∷ up) in
      let old = slave_there (lookup p v.files) in
      let v₂ = reindex_slave_path p old f.slave_name (record v { files = insert p f v.files }) in
      let v₃ = ensure_parent_dirs p f.slave_name v₂ in
      let linked = link_child-IsIndexed (parent p) p v₃ (
        ensure_parent_dirs-IsIndexed f.slave_name v₂ name
          (reindexed-IsIndexed p old f v (x ∷ up, (t, ts), refl) name h)) in
      dirty-IsIndexed _ (
        touch_ancestors-IsIndexed now p f.last_modified _ (
          either_way f.is_dir IsIndexed _ _ (bucket-IsIndexed p (link_child (parent p) p v₃) linked)
            linked))

  pub add_file-IsIndexed :
      (now : ℤ) (f : VfsFile) (v : Vfs)
      → trim_space f.slave_name ≡ f.slave_name
      → IsIndexed v
      → IsIndexed (add_file now (path_to (x ∷ up)) f v)
  unfolding add_file
  add_file-IsIndexed now f v name h =
      let p = path_to (x ∷ up) in
      let tidy = clean_vfs_path-path_to (x ∷ up) (t, ts) in
      elim (Bool-cases (is_covered_by v.exclude_paths p || is_covered_by v.hidden_paths p)) [
        | inl covered ↦ rw (tidy, covered) (deleted-IsIndexed p v tidy h)
        | inr shown ↦
            rw (tidy, shown)
              (store_file-IsIndexed now (stored_file v p f) v (stored_file-trimmed v p f name) h)
      ]

above_root : ancestors (parent slash) ≡ slash ∷ []
unfolding parent ancestors clean_vfs_path text_eq walk_up clean trim_space dir
above_root = refl

slash_parents :
    (s : Text) (v : Vfs)
    → ensure_parent_dirs slash s v
      ≡ ensure_dirs s (slash ∷ []) (ensure_children_bucket slash (ensure_root v))
unfolding ensure_parent_dirs
slash_parents s v =
    ap (λ ds. ensure_dirs s ds (ensure_children_bucket slash (ensure_root v)))
      (ap (λ c. ancestors (parent c)) (clean_vfs_path-path_to [] tt) ∙ above_root)

-- The directories above an entry are made again.
pub ensure_parent_dirs-IsIndexed_tidy :
    (q s : Text) (v : Vfs)
    → IsTidyPath q
    → trim_space s ≡ s
    → IsIndexed v
    → IsIndexed (ensure_parent_dirs q s v)
ensure_parent_dirs-IsIndexed_tidy q s v ([], h, e) name k =
    subst (λ x. IsIndexed (ensure_parent_dirs x s v)) e
      (subst IsIndexed (sym (slash_parents s v)) (
        ensure_dirs-IsIndexed s (slash ∷ []) _ (slash_is_tidy, tt) name
          (bucket-IsIndexed slash (ensure_root v) (ensure_root-IsIndexed v k))))
ensure_parent_dirs-IsIndexed_tidy q s v (x ∷ up, (t, ts), e) name k =
    subst (λ y. IsIndexed (ensure_parent_dirs y s v)) e
      (ensure_parent_dirs-IsIndexed x up t ts s v name k)
