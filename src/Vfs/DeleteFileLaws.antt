-- ===== src/Vfs/DeleteFileLaws.antt =====
-- DeleteFile: each entry and the shape of the tree afterwards.
use weave_ftpd.Base.{
  either_way, ◌≡◌, ◌≢◌, ◌⊎◌, inl, inr, refl, sym, ap, ◌∙◌, subst, [], ◌∷◌, List, ◌&&◌, not, Option,
  none, some, Text, text_eq, text_eq_iff, text_eq_of_ne, lookup-insert, lookup, Bool-cases,
  Option-cases,
}
use weave_ftpd.GoPath.Clean.{slash}
use weave_ftpd.Vfs.Paths.{clean_vfs_path, parent}
use weave_ftpd.Vfs.State.{Vfs, VfsFile}
use weave_ftpd.Vfs.Delete.{delete_path, delete_file}
use weave_ftpd.Vfs.LinkLaws.{IsTree}
use weave_ftpd.Vfs.BelowLaws.{Reaches}
use weave_ftpd.Vfs.Tree.{touch_dir, touch_dirs, touch_ancestors}
use weave_ftpd.Vfs.Index.{mark_persist_dirty}
use weave_ftpd.Base.Int.{ℤ, pos, ltb_ℤ}
use weave_ftpd.Vfs.ShapeLaws.{touch_ancestors-IsTree, IsTreeBut-dirty}
use weave_ftpd.Vfs.DeleteLaws.{
  Deleted, entry-clean, deleted_there, delete_path-Deleted, delete_path-IsTree,
}

-- All of an entry but the time of its last change.
abbrev pub undated : Option VfsFile → Option VfsFile
undated none = none
undated (some f) = some (record f { last_modified = pos 0 })

pub undated-none : (o : Option VfsFile) → undated o ≡ none → o ≡ none
undated-none none h = refl
undated-none (some f) h = cc h

touch_dir-undated :
    (q d : Text) (ts : ℤ) (v : Vfs)
    → undated (lookup q (touch_dir ts d v).files) ≡ undated (lookup q v.files)
unfolding touch_dir
touch_dir-undated q d ts v = elim (Option-cases (lookup d v.files)) [
  | inl e ↦ rw (e, touch_dir) refl
  | inr (f, e) ↦ elim (Bool-cases (f.is_dir && ltb_ℤ f.last_modified ts)) [
    | inr t ↦ rw (e, touch_dir, t) refl
    | inl t ↦
        rw (e, touch_dir, t)
          (elim (Bool-cases (text_eq d q)) [
            | inl same ↦
                let e' = ap (λ x. lookup x v.files) (sym ((text_eq_iff d q).0 same)) ∙ e in
                rw (lookup-insert d q (record f { last_modified = ts }) v.files, same, e') refl
            | inr other ↦
                rw (lookup-insert d q (record f { last_modified = ts }) v.files, other) refl
          ])
  ]
]

touch_dirs-undated :
    (q : Text) (ts : ℤ) (ps : List Text) (v : Vfs)
    → undated (lookup q (touch_dirs ts ps v).files) ≡ undated (lookup q v.files)
unfolding touch_dirs
touch_dirs-undated q ts [] v = refl
touch_dirs-undated q ts (p ∷ ps) v =
    touch_dirs-undated q ts ps (touch_dir ts p v) ∙ touch_dir-undated q p ts v

touch_ancestors-undated :
    (q : Text) (now : ℤ) (p : Text) (ts : ℤ) (v : Vfs)
    → undated (lookup q (touch_ancestors now p ts v).files) ≡ undated (lookup q v.files)
unfolding touch_ancestors
touch_ancestors-undated q now p ts v = touch_dirs-undated q _ _ v

pub delete_file-IsTree :
    (now : ℤ) (file_path : Text) (v : Vfs) → IsTree v → IsTree (delete_file now file_path v)
unfolding delete_file
delete_file-IsTree now file_path v h =
    let p = clean_vfs_path file_path in
    let deleted = delete_path p v in
    either_way (text_eq p slash) IsTree v _ h (
      either_way (not deleted.1) IsTree v _ h (
        IsTreeBut-dirty [] _
          (touch_ancestors-IsTree now (parent p) now deleted.0 (delete_path-IsTree p v h))))

pub delete_file_subtree :
    (now : ℤ) (file_path : Text) (f : VfsFile) (v : Vfs)
    → IsTree v
    → lookup (clean_vfs_path file_path) v.files ≡ some f
    → clean_vfs_path file_path ≢ slash
    → (q : Text)
    → (Reaches v (clean_vfs_path file_path) q
        × (lookup q (delete_file now file_path v).files ≡ none))
      ⊎ ((¬ Reaches v (clean_vfs_path file_path) q)
          × (undated (lookup q (delete_file now file_path v).files) ≡ undated (lookup q v.files)))
unfolding delete_file mark_persist_dirty
delete_file_subtree now file_path f v h e below q =
    let p = clean_vfs_path file_path in
    let w = (delete_path p v).0 in
    let clean = entry-clean p f v h e in
    let e' = ap (λ x. lookup x v.files) clean ∙ e in
    let touched = touch_ancestors-undated q now (parent p) now w in
    rw (text_eq_of_ne p slash below, ap (λ s. s.1) (deleted_there p f v h e'))
      (elim (subst (λ x. Deleted x q v w) clean (delete_path-Deleted p f v h e' q)) [
        | inl (r, out) ↦ inl (r, undated-none _ (touched ∙ ap undated out))
        | inr (r, kept) ↦ inr (r, touched ∙ ap undated kept)
      ])
