-- ===== src/Vfs/BuiltLaws.antt =====
-- The shape of the tree under AddFile, AddSymlink and the operations on single entries.
use weave_ftpd.Base.{
  either_way, ◌≡◌, ◌⊎◌, inl, inr, refl, sym, ◌∙◌, subst, [], ◌∷◌, List, if◌then◌else◌, Bool, true,
  false, ◌||◌, none, some, Text, text_eq, text_eq_iff, text_ne, lookup, insert, Bool-cases,
  Option-cases, All, ℕ,
}
use weave_ftpd.Base.Int.{ℤ, pos, leb_ℤ}
use weave_ftpd.Vfs.Paths.{clean_vfs_path, parent, is_covered_by}
use weave_ftpd.Vfs.PathLaws.{IsTidy, path_to, clean_vfs_path-path_to}
use weave_ftpd.Vfs.State.{Vfs, VfsFile, has_key}
use weave_ftpd.Vfs.Tree.{ensure_children_bucket, link_child, ensure_parent_dirs, touch_ancestors}
use weave_ftpd.Vfs.LinkLaws.{is_child_of_same, IsTree, IsTreeBut-of}
use weave_ftpd.Vfs.HangLaws.{IsTreeBut-kept, IsTreeBut-updated, IsTreeBut-loose}
use weave_ftpd.Vfs.Index.{
  remove_slave_path, reindex_slave_path, mark_persist_dirty, delete_file_entry_only,
}
use weave_ftpd.Vfs.TreeLaws.{remove_slave_path-Keeps, reindex_slave_path-Keeps}
use weave_ftpd.Vfs.Write.{
  add_file, add_symlink, new_link, same_link, refreshed_link, dir_of_target,
  update_file_verification, may_grow, update_file_transfer_size, chmod,
}
use weave_ftpd.Vfs.Merge.{stored_file}
use weave_ftpd.Vfs.Slaves.{reset_protected_dir, mark_unseen, mark_paths_unseen}
use weave_ftpd.Vfs.WriteLaws.{delete_file_entry_only-Keeps}
use weave_ftpd.Vfs.DroppedLaws.{entry_gone}
use weave_ftpd.Vfs.ShapeLaws.{
  remove-children, IsTreeBut-reindexed, IsTreeBut-bucket, IsTreeBut-dirty, touch_ancestors-IsTree,
  placed-IsTree, store_file-IsTree,
}

-- Dropping an entry keeps the links.
pub deleted-children : (p : Text) (v : Vfs) → (delete_file_entry_only p v).children ≡ v.children
unfolding delete_file_entry_only
deleted-children p v = elim (Option-cases (lookup (clean_vfs_path p) v.files)) [
  | inl e ↦ rw (e, delete_file_entry_only) refl
  | inr (f, e) ↦ rw (e, delete_file_entry_only) (remove-children f.slave_name (clean_vfs_path p) v)
]

-- An entry that is there afterwards was there before.
pub deleted-entries :
    (p q : Text) (v : Vfs)
    → (lookup q (delete_file_entry_only p v).files ≡ none)
      ⊎ ((lookup q (delete_file_entry_only p v).files ≡ lookup q v.files)
          × (text_eq (clean_vfs_path p) q ≡ false))
deleted-entries p q v = elim (Bool-cases (text_eq (clean_vfs_path p) q)) [
  | inl same ↦ inl (
      subst (λ x. lookup x (delete_file_entry_only p v).files ≡ none)
        ((text_eq_iff (clean_vfs_path p) q).0 same) (entry_gone p v))
  | inr other ↦
      inr ((delete_file_entry_only-Keeps p q v (text_ne (clean_vfs_path p) q other)).entry, other)
]

deleted-IsTree : (p : Text) (v : Vfs) → IsTree v → IsTree (delete_file_entry_only p v)
deleted-IsTree p v =
    let w = delete_file_entry_only p v in
    IsTreeBut-of [] [] v w (λ d c. is_child_of_same d c v w (deleted-children p v))
      (λ r i. absurd i)
      (λ q f e. elim (deleted-entries p q v) [
        | inl gone ↦ cc (gone, e)
        | inr (kept, other) ↦ inl (λ k. cc (kept, e, k))
      ])

module _ (x : Text) (up : List Text) (t : IsTidy x) (ts : All IsTidy up) where
  pub add_file-IsTree :
      (now : ℤ) (f : VfsFile) (v : Vfs) → IsTree v → IsTree (add_file now (path_to (x ∷ up)) f v)
  unfolding add_file
  add_file-IsTree now f v h =
      let p = path_to (x ∷ up) in
      let tidy = clean_vfs_path-path_to (x ∷ up) (t, ts) in
      elim (Bool-cases (is_covered_by v.exclude_paths p || is_covered_by v.hidden_paths p)) [
        | inl covered ↦ rw (tidy, covered) (deleted-IsTree p v h)
        | inr shown ↦ rw (tidy, shown) (store_file-IsTree x up t ts now (stored_file v p f) v h)
      ]

  refreshed-IsTree :
      (target : Text) (b : Bool) (fresh : VfsFile) (v : Vfs)
      → same_link target (lookup (path_to (x ∷ up)) v.files) ≡ true
      → IsTree v
      → IsTree (record v {
        files =
            insert
              (path_to (x ∷ up))
              (refreshed_link b (lookup (path_to (x ∷ up)) v.files) fresh)
              v.files;
      })
  unfolding same_link
  refreshed-IsTree target b fresh v same h =
      let p = path_to (x ∷ up) in
      elim (Option-cases (lookup p v.files)) [
        | inl e ↦ cc (rw (e, same_link) at same)
        | inr (g, e) ↦ IsTreeBut-updated [] p g _ v e h
      ]

  pub add_symlink-IsTree :
      (now : ℤ) (target : Text) (v : Vfs)
      → IsTree v
      → IsTree (add_symlink now (path_to (x ∷ up)) target v)
  unfolding add_symlink
  add_symlink-IsTree now target v h =
      let p = path_to (x ∷ up) in
      let goal = clean_vfs_path target in
      let is_dir = dir_of_target (lookup goal v.files) in
      let fresh = new_link now p goal is_dir in
      let v₁ = ensure_parent_dirs p [] (record v { files = insert p fresh v.files }) in
      let v₂ = link_child (parent p) p v₁ in
      let linked = placed-IsTree x up t ts [] _ (IsTreeBut-loose [] p fresh v h) in
      subst
        (λ q. IsTree (
          let fresh' = new_link now q goal is_dir in
          if same_link goal (lookup q v.files)
          then record v {
            files = insert q (refreshed_link is_dir (lookup q v.files) fresh') v.files;
          }
          else let v₁' = ensure_parent_dirs q [] (record v { files = insert q fresh' v.files }) in
            let v₂' = link_child (parent q) q v₁' in
            let v₃' = (if is_dir then ensure_children_bucket q v₂' else v₂') in
            mark_persist_dirty (touch_ancestors now q now v₃')))
        (sym (clean_vfs_path-path_to (x ∷ up) (t, ts)))
        (elim (Bool-cases (same_link goal (lookup p v.files))) [
          | inl same ↦ rw same (refreshed-IsTree goal is_dir fresh v same h)
          | inr other ↦ rw other (
              IsTreeBut-dirty [] _ (
                touch_ancestors-IsTree now p now _
                  (either_way is_dir IsTree _ _ (IsTreeBut-bucket [] p v₂ linked) linked)))
        ])

pub update_file_verification-IsTree :
    (path : Text) (checksum : ℕ) (v : Vfs)
    → IsTree v
    → IsTree (update_file_verification path checksum v).0
unfolding update_file_verification
update_file_verification-IsTree path checksum v h =
    elim (Option-cases (lookup (clean_vfs_path path) v.files)) [
      | inl e ↦ rw (e, update_file_verification) h
      | inr (f, e) ↦ elim (Bool-cases f.is_dir) [
        | inl d ↦ rw (e, update_file_verification, d) h
        | inr d ↦
            rw (e, update_file_verification, d)
              (IsTreeBut-dirty [] _ (IsTreeBut-updated [] (clean_vfs_path path) f _ v e h))
      ]
    ]

pub update_file_transfer_size-IsTree :
    (path : Text) (size_bytes : ℤ) (v : Vfs)
    → IsTree v
    → IsTree (update_file_transfer_size path size_bytes v).0
unfolding update_file_transfer_size
update_file_transfer_size-IsTree path size_bytes v h =
    elim (Bool-cases (leb_ℤ size_bytes (pos 0))) [
      | inl none_yet ↦ rw none_yet h
      | inr some_bytes ↦ elim (Option-cases (lookup (clean_vfs_path path) v.files)) [
        | inl e ↦ rw (some_bytes, e, update_file_transfer_size) h
        | inr (f, e) ↦ elim (Bool-cases (may_grow size_bytes f)) [
          | inl grows ↦
              rw (some_bytes, e, update_file_transfer_size, grows)
                (IsTreeBut-dirty [] _ (IsTreeBut-updated [] (clean_vfs_path path) f _ v e h))
          | inr stays ↦ rw (some_bytes, e, update_file_transfer_size, stays) h
        ]
      ]
    ]

pub chmod-IsTree :
    (now : ℤ) (path : Text) (mode : ℕ) (v : Vfs) → IsTree v → IsTree (chmod now path mode v)
unfolding chmod
chmod-IsTree now path mode v h = elim (Option-cases (lookup (clean_vfs_path path) v.files)) [
  | inl e ↦ rw (e, chmod) h
  | inr (f, e) ↦
      rw (e, chmod) (IsTreeBut-dirty [] _ (IsTreeBut-updated [] (clean_vfs_path path) f _ v e h))
]

pub unlisted-IsTree : (s p : Text) (v : Vfs) → IsTree v → IsTree (remove_slave_path s p v)
unlisted-IsTree s p v =
    let w = remove_slave_path s p v in
    IsTreeBut-kept [] v w (λ d c. is_child_of_same d c v w (remove-children s p v))
      (λ q. (remove_slave_path-Keeps q s p v).entry)

pub reset_protected_dir-IsTree :
    (p : Text) (f : VfsFile) (v : Vfs)
    → lookup p v.files ≡ some f
    → IsTree v
    → IsTree (reset_protected_dir p f v)
unfolding reset_protected_dir
reset_protected_dir-IsTree p f v e h =
    let v' = reindex_slave_path p f.slave_name [] v in
    IsTreeBut-updated [] p f _ v' ((reindex_slave_path-Keeps p p f.slave_name [] v).entry ∙ e)
      (IsTreeBut-reindexed [] p f.slave_name [] v h)

mark_unseen-IsTree : (s p : Text) (v : Vfs) → IsTree v → IsTree (mark_unseen s p v)
unfolding mark_unseen
mark_unseen-IsTree s p v h = elim (Option-cases (lookup p v.files)) [
  | inl e ↦ rw (e, mark_unseen) (unlisted-IsTree s p v h)
  | inr (f, e) ↦
      rw (e, mark_unseen)
        (either_way (has_key p v.protected_dirs) IsTree _ _ (reset_protected_dir-IsTree p f v e h)
          (either_way (text_eq f.slave_name s) IsTree _ v (IsTreeBut-updated [] p f _ v e h) h))
]

pub mark_paths_unseen-IsTree :
    (s : Text) (paths : List Text) (v : Vfs) → IsTree v → IsTree (mark_paths_unseen s paths v)
unfolding mark_paths_unseen
mark_paths_unseen-IsTree s [] v h = h
mark_paths_unseen-IsTree s (p ∷ rest) v h =
    mark_paths_unseen-IsTree s rest (mark_unseen s p v) (mark_unseen-IsTree s p v h)
