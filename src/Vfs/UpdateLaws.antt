-- ===== src/Vfs/UpdateLaws.antt =====
-- The slave index under updates of single entries, symlinks and the first step of a remerge.
use weave_ftpd.Base.{
  either_way, ℕ, ◌≡◌, inl, inr, refl, sym, ◌∙◌, subst, List, [], ◌∷◌, Bool, true, Option, none,
  some, Text, text_eq, text_eq_iff, lookup, insert, lookup-insert_self, Bool-cases, Option-cases,
  All, if◌then◌else◌,
}
use weave_ftpd.Base.Int.{ℤ, pos, leb_ℤ}
use weave_ftpd.Vfs.Paths.{clean_vfs_path, parent}
use weave_ftpd.Vfs.PathLaws.{clean_vfs_path-IsTidyPath, IsTidy, IsTidyPath, path_to}
use weave_ftpd.Vfs.DroppedLaws.{unlisted-IsIndexed}
use weave_ftpd.Vfs.State.{Vfs, VfsFile, has_key}
use weave_ftpd.Vfs.Index.{reindex_slave_path, mark_persist_dirty, slave_set}
use weave_ftpd.Vfs.IndexedLaws.{
  IsIndexed, update-IsIndexed, blank-IsIndexed, tidy_there, trim_nil, Listed, IsIndexed-of_step,
}
use weave_ftpd.Vfs.Tree.{ensure_children_bucket, link_child, ensure_parent_dirs, touch_ancestors}
use weave_ftpd.Vfs.TreeLaws.{insert-Keeps, reindex_slave_path-Keeps}
use weave_ftpd.Vfs.Write.{
  update_file_verification, may_grow, update_file_transfer_size, chmod, add_symlink, refreshed_link,
  same_link, new_link, dir_of_target,
}
use weave_ftpd.Vfs.Slaves.{mark_unseen, mark_paths_unseen, reset_protected_dir}
use weave_ftpd.Vfs.StoreLaws.{
  bucket-IsIndexed, link_child-IsIndexed, dirty-IsIndexed, touch_ancestors-IsIndexed,
  ensure_parent_dirs-IsIndexed_tidy,
}
use weave_ftpd.Vfs.IndexLaws.{
  is_indexed, Relists-of_same, Relists-trans, reindex_slave_path-Relists,
}

pub update_file_verification-IsIndexed :
    (path : Text) (checksum : ℕ) (v : Vfs)
    → IsIndexed v
    → IsIndexed (update_file_verification path checksum v).0
unfolding update_file_verification
update_file_verification-IsIndexed path checksum v h =
    elim (Option-cases (lookup (clean_vfs_path path) v.files)) [
      | inl e ↦ rw (e, update_file_verification) h
      | inr (f, e) ↦ elim (Bool-cases f.is_dir) [
        | inl d ↦ rw (e, update_file_verification, d) h
        | inr d ↦
            rw (e, update_file_verification, d)
              (dirty-IsIndexed _ (update-IsIndexed (clean_vfs_path path) f _ v e refl h))
      ]
    ]

pub update_file_transfer_size-IsIndexed :
    (path : Text) (size_bytes : ℤ) (v : Vfs)
    → IsIndexed v
    → IsIndexed (update_file_transfer_size path size_bytes v).0
unfolding update_file_transfer_size
update_file_transfer_size-IsIndexed path size_bytes v h =
    elim (Bool-cases (leb_ℤ size_bytes (pos 0))) [
      | inl none_yet ↦ rw none_yet h
      | inr some_bytes ↦ elim (Option-cases (lookup (clean_vfs_path path) v.files)) [
        | inl e ↦ rw (some_bytes, e, update_file_transfer_size) h
        | inr (f, e) ↦ elim (Bool-cases (may_grow size_bytes f)) [
          | inl grows ↦
              rw (some_bytes, e, update_file_transfer_size, grows)
                (dirty-IsIndexed _ (update-IsIndexed (clean_vfs_path path) f _ v e refl h))
          | inr stays ↦ rw (some_bytes, e, update_file_transfer_size, stays) h
        ]
      ]
    ]

pub chmod-IsIndexed :
    (now : ℤ) (path : Text) (mode : ℕ) (v : Vfs) → IsIndexed v → IsIndexed (chmod now path mode v)
unfolding chmod
chmod-IsIndexed now path mode v h = elim (Option-cases (lookup (clean_vfs_path path) v.files)) [
  | inl e ↦ rw (e, chmod) h
  | inr (f, e) ↦
      rw (e, chmod) (dirty-IsIndexed _ (update-IsIndexed (clean_vfs_path path) f _ v e refl h))
]

refreshed_link-IsIndexed :
    (link : Text) (b : Bool) (o : Option VfsFile) (fresh : VfsFile) (v : Vfs)
    → lookup link v.files ≡ o
    → IsTidyPath link
    → fresh.slave_name ≡ []
    → IsIndexed v
    → IsIndexed (record v { files = insert link (refreshed_link b o fresh) v.files })
unfolding refreshed_link
refreshed_link-IsIndexed link b none fresh v e tidy blank h =
    blank-IsIndexed link fresh v tidy blank h
refreshed_link-IsIndexed link b (some g) fresh v e tidy blank h =
    update-IsIndexed link g _ v e refl h

module _ (x : Text) (up : List Text) (t : IsTidy x) (ts : All IsTidy up) where
  pub add_symlink-IsIndexed :
      (now : ℤ) (target : Text) (v : Vfs)
      → IsIndexed v
      → IsIndexed (add_symlink now (path_to (x ∷ up)) target v)
  unfolding add_symlink
  add_symlink-IsIndexed now target v h =
      let p = path_to (x ∷ up) in
      let tidy : IsTidyPath p = (x ∷ up, (t, ts), refl) in
      let goal = clean_vfs_path target in
      let is_dir = dir_of_target (lookup goal v.files) in
      let fresh = new_link now p goal is_dir in
      let v₁ = ensure_parent_dirs p [] (record v { files = insert p fresh v.files }) in
      let v₂ = link_child (parent p) p v₁ in
      let linked = link_child-IsIndexed (parent p) p v₁ (
        ensure_parent_dirs-IsIndexed_tidy p [] _ tidy trim_nil
          (blank-IsIndexed p fresh v tidy refl h)) in
      subst
        (λ q. IsIndexed (
          let fresh' = new_link now q goal is_dir in
          if same_link goal (lookup q v.files)
          then record v {
            files = insert q (refreshed_link is_dir (lookup q v.files) fresh') v.files;
          }
          else let v₁' = ensure_parent_dirs q [] (record v { files = insert q fresh' v.files }) in
            let v₂' = link_child (parent q) q v₁' in
            let v₃' = (if is_dir then ensure_children_bucket q v₂' else v₂') in
            mark_persist_dirty (touch_ancestors now q now v₃')))
        (sym (clean_vfs_path-IsTidyPath p tidy))
        (either_way (same_link goal (lookup p v.files)) IsIndexed _ _
          (refreshed_link-IsIndexed p is_dir (lookup p v.files) fresh v refl tidy refl h)
          (dirty-IsIndexed _ (
            touch_ancestors-IsIndexed now p now _
              (either_way is_dir IsIndexed _ _ (bucket-IsIndexed p v₂ linked) linked))))

-- MarkAllUnseen.
pub reset_protected_dir-IsIndexed :
    (p : Text) (f : VfsFile) (v : Vfs)
    → lookup p v.files ≡ some f
    → IsIndexed v
    → IsIndexed (reset_protected_dir p f v)
unfolding reset_protected_dir Listed is_indexed slave_set
reset_protected_dir-IsIndexed p f v e h =
    let tidy = tidy_there p f v e h in
    let clean = clean_vfs_path-IsTidyPath p tidy in
    let v' = reindex_slave_path p f.slave_name [] v in
    let g : VfsFile = record f { seen = true; slave_name = [] } in
    let w : Vfs = record v' { files = insert p g v'.files } in
    IsIndexed-of_step p v w clean
      (Relists-trans p v v' w (reindex_slave_path-Relists p f.slave_name [] v clean)
        (Relists-of_same p v' w refl))
      (λ q n.
        (insert-Keeps q p g v' n).entry ∙ (reindex_slave_path-Keeps q p f.slave_name [] v).entry)
      (subst (λ o. Listed p o w) (sym (lookup-insert_self p g v'.files))
        (tidy, trim_nil, rw (trim_nil, (text_eq_iff [] []).1 refl) refl))
      h

mark_unseen-IsIndexed :
    (s p : Text) (v : Vfs) → clean_vfs_path p ≡ p → IsIndexed v → IsIndexed (mark_unseen s p v)
unfolding mark_unseen reset_protected_dir
mark_unseen-IsIndexed s p v tidy h = elim (Option-cases (lookup p v.files)) [
  | inl e ↦ rw (e, mark_unseen) (unlisted-IsIndexed s p v tidy e h)
  | inr (f, e) ↦ elim (Bool-cases (has_key p v.protected_dirs)) [
    | inl b ↦ rw (e, mark_unseen, b) (reset_protected_dir-IsIndexed p f v e h)
    | inr b ↦ elim (Bool-cases (text_eq f.slave_name s)) [
      | inl own ↦ rw (e, mark_unseen, b, own) (update-IsIndexed p f _ v e refl h)
      | inr foreign ↦ rw (e, mark_unseen, b, foreign) h
    ]
  ]
]

pub mark_paths_unseen-IsIndexed :
    (s : Text) (paths : List Text) (v : Vfs)
    → All (λ p. clean_vfs_path p ≡ p) paths
    → IsIndexed v
    → IsIndexed (mark_paths_unseen s paths v)
unfolding mark_paths_unseen
mark_paths_unseen-IsIndexed s [] v c h = h
mark_paths_unseen-IsIndexed s (p ∷ rest) v (c, cs) h =
    mark_paths_unseen-IsIndexed s rest (mark_unseen s p v) cs (mark_unseen-IsIndexed s p v c h)
