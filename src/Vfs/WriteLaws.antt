-- ===== src/Vfs/WriteLaws.antt =====
-- The laws of AddFile: what it stores, what it leaves alone, and the directories it makes.
use weave_ftpd.Base.{
  ◌≤◌, ◌≡◌, ◌≢◌, refl, ap, ◌∙◌, List, [], ◌∷◌, false, ◌||◌, some, if◌then◌else◌, Text, lookup,
  insert, lookup-delete, lookup-insert_self, Bool-cases, Option-cases, inl, inr, All, length, arith,
  text_eq_of_ne,
}
use weave_ftpd.Base.Int.{ℤ, pos, leb_ℤ}
use weave_ftpd.GoPath.Clean.{slash}
use weave_ftpd.Vfs.Paths.{clean_vfs_path, parent, is_covered_by}
use weave_ftpd.Vfs.PathLaws.{
  IsTidy, path_to, paths_above, clean_vfs_path-path_to, parent-path_to, ancestors-path_to,
  longer_below,
}
use weave_ftpd.Vfs.State.{Vfs, VfsFile, has_key, made_dir}
use weave_ftpd.Vfs.Index.{
  delete_file_entry_only, reindex_slave_path, remove_slave_path, mark_persist_dirty,
}
use weave_ftpd.Vfs.Tree.{
  link_child, ensure_root, ensure_parent_dirs, touch_dir, touch_dirs, touch_ancestors,
}
use weave_ftpd.Vfs.Merge.{stored_file}
use weave_ftpd.Vfs.Write.{place_file, store_file, add_file, slave_there}
use weave_ftpd.Vfs.Read.{get_file}
use weave_ftpd.Vfs.TreeLaws.{
  Keeps, Keeps-refl, Keeps-trans, insert-Keeps, reindex_slave_path-Keeps, remove_slave_path-Keeps,
  ensure_children_bucket-Keeps, link_child-Keeps, ensure_dirs-Keeps, touch_dir-Keeps,
  touch_dirs-Keeps,
}

-- `q` is none of these paths.
abbrev pub Avoids : Text → List Text → Type 0
Avoids q ds = All (λ d. d ≢ q) ds

abbrev pub touch_time : ℤ → ℤ → ℤ
touch_time now n = if leb_ℤ n (pos 0) then now else n

Avoids-root : (q x : Text) (up : List Text) → Avoids q (paths_above (x ∷ up)) → slash ≢ q
Avoids-root q x [] (h, k) = h
Avoids-root q x (y ∷ up) (h, k) = Avoids-root q y up k

module _ (q : Text) where
  ensure_root-Keeps : (v : Vfs) → slash ≢ q → Keeps q v (ensure_root v)
  unfolding ensure_root
  ensure_root-Keeps v h = elim (Bool-cases (has_key slash v.files)) [
    | inl e ↦ rw e (Keeps-refl q v)
    | inr e ↦ rw e (insert-Keeps q slash (made_dir slash []) v h)
  ]

  module _ (x : Text) (up : List Text) (t : IsTidy x) (ts : All IsTidy up) where
    ensure_parent_dirs-Keeps :
        (s : Text) (v : Vfs)
        → Avoids q (paths_above (x ∷ up))
        → Keeps q v (ensure_parent_dirs (path_to (x ∷ up)) s v)
    unfolding ensure_parent_dirs
    ensure_parent_dirs-Keeps s v h =
        rw
          (
            clean_vfs_path-path_to (x ∷ up) (t, ts),
            parent-path_to x up t ts,
            ancestors-path_to up ts,
          )
          (Keeps-trans q v _ _
            (Keeps-trans q v (ensure_root v) _ (ensure_root-Keeps v (Avoids-root q x up h))
              (ensure_children_bucket-Keeps q slash (ensure_root v)))
            (ensure_dirs-Keeps q s (paths_above (x ∷ up)) _ h))

    place_file-Keeps :
        (old : Text) (f : VfsFile) (v : Vfs)
        → Avoids q (paths_above (x ∷ up))
        → Keeps q v (place_file (path_to (x ∷ up)) old f v)
    unfolding place_file
    place_file-Keeps old f v h =
        let p = path_to (x ∷ up) in
        let v₂ = reindex_slave_path p old f.slave_name v in
        let v₃ = ensure_parent_dirs p f.slave_name v₂ in
        let k =
          Keeps-trans q v v₃ _
            (Keeps-trans q v v₂ v₃ (reindex_slave_path-Keeps q p old f.slave_name v)
              (ensure_parent_dirs-Keeps f.slave_name v₂ h))
            (link_child-Keeps q (parent p) p v₃) in
        elim (Bool-cases f.is_dir) [
          | inl e ↦ rw e (
              Keeps-trans q v _ _ k (ensure_children_bucket-Keeps q p (link_child (parent p) p v₃)))
          | inr e ↦ rw e k
        ]

    touch_ancestors-Keeps :
        (now n : ℤ) (v : Vfs)
        → Keeps q v (touch_dir (touch_time now n) (path_to (x ∷ up)) v)
        → Avoids q (paths_above (x ∷ up))
        → Keeps q v (touch_ancestors now (path_to (x ∷ up)) n v)
    unfolding touch_ancestors touch_dirs
    touch_ancestors-Keeps now n v k h =
        rw (clean_vfs_path-path_to (x ∷ up) (t, ts), ancestors-path_to (x ∷ up) (t, ts))
          (Keeps-trans q v _ _ k (touch_dirs-Keeps q _ (paths_above (x ∷ up)) _ h))

    store_file-Keeps :
        (now : ℤ) (f : VfsFile) (v : Vfs)
        → Avoids q (paths_above (x ∷ up))
        → ((w : Vfs)
            → Keeps q (record v { files = insert (path_to (x ∷ up)) f v.files }) w
            → Keeps q w (touch_dir (touch_time now f.last_modified) (path_to (x ∷ up)) w))
        → Keeps q
            (record v { files = insert (path_to (x ∷ up)) f v.files })
            (store_file now (path_to (x ∷ up)) f v)
    unfolding store_file mark_persist_dirty
    store_file-Keeps now f v h touch =
        let p = path_to (x ∷ up) in
        let v₁ : Vfs = record v { files = insert p f v.files } in
        let old = slave_there (lookup p v.files) in
        let placed = place_file-Keeps old f v₁ h in
        let v₄ = place_file p old f v₁ in
        let k =
          Keeps-trans q v₁ v₄ _ placed
            (touch_ancestors-Keeps now f.last_modified v₄ (touch v₄ placed) h) in
        record { entry = k.entry; hidden = k.hidden; exclude = k.exclude; protected = k.protected }

get_file_of_Keeps :
    (r : Text) (v w : Vfs) → Keeps (clean_vfs_path r) v w → get_file r w ≡ get_file r v
unfolding get_file
get_file_of_Keeps r v w k = rw (k.exclude, k.hidden, k.entry) refl

touch_dir_of_file :
    (ts : ℤ) (d : Text) (f : VfsFile) (v : Vfs)
    → lookup d v.files ≡ some f
    → f.is_dir ≡ false
    → touch_dir ts d v ≡ v
unfolding touch_dir
touch_dir_of_file ts d f v e h = rw (touch_dir, e, h) refl

above_shorter :
    (p : Text) (up : List Text)
    → All IsTidy up
    → length (path_to up) ≤ length p
    → Avoids p (paths_above up)
above_shorter p [] h k = tt
above_shorter p (x ∷ up) (t, h) k =
    let shorter = longer_below x up t in
    (λ e. absurd (omega (arith, ap length e)), above_shorter p up h (omega arith))

pub delete_file_entry_only-Keeps :
    (p q : Text) (v : Vfs) → clean_vfs_path p ≢ q → Keeps q v (delete_file_entry_only p v)
unfolding delete_file_entry_only
delete_file_entry_only-Keeps p q v h =
    let c = clean_vfs_path p in
    elim (Option-cases (lookup c v.files)) [
      | inl e ↦ rw e (record {
        entry = lookup-delete c q v.files ∙ rw (text_eq_of_ne c q h) refl;
        hidden = refl;
        exclude = refl;
        protected = refl;
      })
      | inr (f, e) ↦
          let k = remove_slave_path-Keeps q f.slave_name c v in
          rw e (record {
            entry =
                lookup-delete c q (remove_slave_path f.slave_name c v).files
                ∙ rw (text_eq_of_ne c q h) k.entry;
            hidden = k.hidden;
            exclude = k.exclude;
            protected = k.protected;
          })
    ]

-- Which paths may be stored under.
abbrev pub IsShown : Text → Vfs → Type 0
IsShown p v = (is_covered_by v.exclude_paths p || is_covered_by v.hidden_paths p) ≡ false

module _ (x : Text) (up : List Text) (t : IsTidy x) (ts : All IsTidy up) where
  store_file-stored :
      (now : ℤ) (f : VfsFile) (v : Vfs)
      → f.is_dir ≡ false
      → Keeps
          (path_to (x ∷ up))
          (record v { files = insert (path_to (x ∷ up)) f v.files })
          (store_file now (path_to (x ∷ up)) f v)
  store_file-stored now f v h =
      let p = path_to (x ∷ up) in
      store_file-Keeps p x up t ts now f v (above_shorter p (x ∷ up) (t, ts) (omega arith)) (λ w k.
        rw
          (touch_dir_of_file (touch_time now f.last_modified) p f w
            (k.entry ∙ lookup-insert_self p f v.files) h)
          (Keeps-refl p w))

  -- After AddFile of an entry that is no directory, under a tidy path that is neither hidden nor
  -- excluded, GetFile returns for that path what the merge with the entry before it made of it.
  pub add_file-get_file :
      (now : ℤ) (f : VfsFile) (v : Vfs)
      → IsShown (path_to (x ∷ up)) v
      → (stored_file v (path_to (x ∷ up)) f).is_dir ≡ false
      → get_file (path_to (x ∷ up)) (add_file now (path_to (x ∷ up)) f v)
        ≡ some (stored_file v (path_to (x ∷ up)) f)
  unfolding add_file get_file
  add_file-get_file now f v shown h =
      let p = path_to (x ∷ up) in
      let g = stored_file v p f in
      let k = store_file-stored now g v h in
      rw (clean_vfs_path-path_to (x ∷ up) (t, ts), shown, k.exclude, k.hidden, shown, k.entry)
        (lookup-insert_self p g v.files)

  -- AddFile under a tidy path, whether it stores the entry or drops a hidden one, changes what GetFile
  -- returns for no path but that one and the directories above it.
  pub add_file-get_file_other :
      (r : Text) (now : ℤ) (f : VfsFile) (v : Vfs)
      → path_to (x ∷ up) ≢ clean_vfs_path r
      → Avoids (clean_vfs_path r) (paths_above (x ∷ up))
      → get_file r (add_file now (path_to (x ∷ up)) f v) ≡ get_file r v
  unfolding add_file
  add_file-get_file_other r now f v h above =
      let p = path_to (x ∷ up) in
      let q = clean_vfs_path r in
      let g = stored_file v p f in
      rw (clean_vfs_path-path_to (x ∷ up) (t, ts))
        (elim (Bool-cases (is_covered_by v.exclude_paths p || is_covered_by v.hidden_paths p)) [
          | inl e ↦ rw e (
              get_file_of_Keeps r v _ (
                delete_file_entry_only-Keeps p q v
                  (rw (clean_vfs_path-path_to (x ∷ up) (t, ts)) h)))
          | inr e ↦ rw e (
              get_file_of_Keeps r v _ (
                Keeps-trans q v _ _ (insert-Keeps q p g v h) (
                  store_file-Keeps q x up t ts now g v above
                    (λ w k. touch_dir-Keeps q (touch_time now g.last_modified) p w h))))
        ])
