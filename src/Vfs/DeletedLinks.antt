-- ===== src/Vfs/DeletedLinks.antt =====
-- deletePathLocked: the links and the protected directories afterwards.
use weave_ftpd.Base.{
  either_way, ◌≡◌, inl, inr, refl, sym, ◌∙◌, [], ◌∷◌, List, Bool, true, false, not, Text, text_eq,
  lookup, delete, Option-cases,
}
use weave_ftpd.Vfs.Paths.{clean_vfs_path}
use weave_ftpd.Vfs.State.{Vfs, has_key}
use weave_ftpd.Vfs.Index.{delete_file_entry_only}
use weave_ftpd.Vfs.TreeLaws.{remove_slave_path-Keeps}
use weave_ftpd.Vfs.Clear.{drop_child}
use weave_ftpd.Vfs.ClearLaws.{drop_child-Keeps}
use weave_ftpd.Vfs.Collect.{collect_subtree}
use weave_ftpd.Vfs.Delete.{remove_path, remove_paths, forget_sfv, forget_zip, delete_path}
use weave_ftpd.Vfs.LinkLaws.{is_child, is_child_of_same, is_child-drop}
use weave_ftpd.Vfs.BelowLaws.{Reaches, here, step}
use weave_ftpd.Vfs.CutLaws.{and_right}
use weave_ftpd.Vfs.RemoveLaws.{remove_paths-link}
use weave_ftpd.Vfs.DeleteLaws.{forget_sfv-IsSameTree, forget_zip-IsSameTree}

-- A deletion makes no links.
pub delete_path-links :
    (p d c : Text) (v : Vfs) → is_child d c (delete_path p v).0 ≡ true → is_child d c v ≡ true
unfolding delete_path
delete_path-links p d c v =
    let path = clean_vfs_path p in
    let w = forget_sfv path v in
    let cut = remove_paths path (collect_subtree path w) (drop_child path w) in
    either_way (not (has_key path v.files))
      (λ (s : Vfs × Bool). is_child d c s.0 ≡ true → is_child d c v ≡ true) (v, false)
      (forget_zip path cut, true) (λ k. k)
      (λ k.
        let k₁ =
          sym (
            is_child_of_same d c cut (forget_zip path cut)
              (forget_zip-IsSameTree path cut).children)
          ∙ k in
        let k₂ = (remove_paths-link path d c (collect_subtree path w) (drop_child path w) k₁).0 in
        sym (is_child_of_same d c v w (forget_sfv-IsSameTree path v).children)
        ∙ and_right _ (is_child d c w) (sym (is_child-drop d c path w) ∙ k₂))

-- What is protected stays so.
dropped-protected :
    (p : Text) (v : Vfs) → (delete_file_entry_only p v).protected_dirs ≡ v.protected_dirs
unfolding delete_file_entry_only
dropped-protected p v = elim (Option-cases (lookup (clean_vfs_path p) v.files)) [
  | inl e ↦ rw (e, delete_file_entry_only) refl
  | inr (f, e) ↦
      rw (e, delete_file_entry_only)
        (remove_slave_path-Keeps [] f.slave_name (clean_vfs_path p) v).protected
]

remove_paths-protected :
    (path : Text) (rs : List Text) (v : Vfs)
    → (remove_paths path rs v).protected_dirs ≡ v.protected_dirs
unfolding remove_paths remove_path
remove_paths-protected path [] v = refl
remove_paths-protected path (r ∷ rs) v =
    let w = delete_file_entry_only r v in
    let w' : Vfs = record w { children = delete r w.children; dir_meta = delete r w.dir_meta } in
    remove_paths-protected path rs (remove_path path r v)
    ∙ either_way (text_eq r path) (λ (x : Vfs). x.protected_dirs ≡ v.protected_dirs) w'
        (drop_child r w') (dropped-protected r v)
        ((drop_child-Keeps [] r w').protected ∙ dropped-protected r v)

pub delete_path-protected :
    (p : Text) (v : Vfs) → (delete_path p v).0.protected_dirs ≡ v.protected_dirs
unfolding delete_path
delete_path-protected p v =
    let path = clean_vfs_path p in
    let w = forget_sfv path v in
    let cut = remove_paths path (collect_subtree path w) (drop_child path w) in
    either_way (not (has_key path v.files))
      (λ (s : Vfs × Bool). s.0.protected_dirs ≡ v.protected_dirs) (v, false)
      (forget_zip path cut, true) refl
      ((forget_zip-IsSameTree path cut).protected
        ∙ (remove_paths-protected path (collect_subtree path w) (drop_child path w)
            ∙ ((drop_child-Keeps [] path w).protected ∙ (forget_sfv-IsSameTree path v).protected)))

pub fewer-Reaches :
    (v w : Vfs) (p q : Text)
    → ((d c : Text) → is_child d c w ≡ true → is_child d c v ≡ true)
    → Reaches w p q
    → Reaches v p q
fewer-Reaches v w p q fewer (here _) = here p
fewer-Reaches v w p q fewer (step _ c _ k r) =
    step p c q (fewer p c k) (fewer-Reaches v w c q fewer r)
