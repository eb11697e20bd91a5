-- ===== src/Vfs/DeleteLaws.antt =====
-- deletePathLocked: the entries, the links and the shape of the tree afterwards.
use weave_ftpd.Base.{
  either_way, ◌≡◌, ◌⊎◌, inl, inr, refl, sym, ap, ◌∙◌, subst, [], true, none, some, Text, lookup,
  Bool-cases, Option-cases, to_lower, has_suffix, codes,
}
use weave_ftpd.GoPath.Clean.{slash, base}
use weave_ftpd.Vfs.Paths.{clean_vfs_path, parent}
use weave_ftpd.Vfs.PathLaws.{clean_vfs_path-IsTidyPath}
use weave_ftpd.Vfs.State.{Vfs, VfsFile}
use weave_ftpd.Vfs.Clear.{drop_child}
use weave_ftpd.Vfs.Collect.{collect_subtree}
use weave_ftpd.Vfs.Delete.{
  remove_paths, forget_sfv, forget_zip, clear_zip_meta, is_diz, delete_path,
}
use weave_ftpd.Vfs.LinkLaws.{is_child_of_same, IsTree}
use weave_ftpd.Vfs.HangLaws.{IsTreeBut-kept}
use weave_ftpd.Vfs.CollectLaws.{is_among}
use weave_ftpd.Vfs.BelowLaws.{Reaches, here, step}
use weave_ftpd.Vfs.CutLaws.{gone_iff, cut-entry, cut-IsTree, hangs_clean}

-- A state with the same entries and links, whatever the metadata.
pub record IsSameTree (v w : Vfs) : Type 0 where
  pub files : w.files ≡ v.files
  pub children : w.children ≡ v.children
  pub slave_paths : w.slave_paths ≡ v.slave_paths
  pub hidden : w.hidden_paths ≡ v.hidden_paths
  pub exclude : w.exclude_paths ≡ v.exclude_paths
  pub protected : w.protected_dirs ≡ v.protected_dirs

same_self : (v : Vfs) → IsSameTree v v
same_self v = record {
  files = refl;
  children = refl;
  slave_paths = refl;
  hidden = refl;
  exclude = refl;
  protected = refl;
}

pub forget_sfv-IsSameTree : (p : Text) (v : Vfs) → IsSameTree v (forget_sfv p v)
unfolding forget_sfv
forget_sfv-IsSameTree p v =
    either_way (has_suffix (to_lower (base p)) (codes ".sfv")) (IsSameTree v) _ v
      (record {
        files = refl;
        children = refl;
        slave_paths = refl;
        hidden = refl;
        exclude = refl;
        protected = refl;
      })
      (same_self v)

clear_zip_meta-IsSameTree : (p : Text) (v : Vfs) → IsSameTree v (clear_zip_meta p v)
unfolding clear_zip_meta
clear_zip_meta-IsSameTree p v = elim (Option-cases (lookup (clean_vfs_path p) v.dir_meta)) [
  | inl e ↦ rw (e, clear_zip_meta) (same_self v)
  | inr (meta, e) ↦
      rw (e, clear_zip_meta)
        (either_way _ (IsSameTree v) _ _
          (record {
            files = refl;
            children = refl;
            slave_paths = refl;
            hidden = refl;
            exclude = refl;
            protected = refl;
          })
          (record {
            files = refl;
            children = refl;
            slave_paths = refl;
            hidden = refl;
            exclude = refl;
            protected = refl;
          }))
]

pub forget_zip-IsSameTree : (p : Text) (v : Vfs) → IsSameTree v (forget_zip p v)
unfolding forget_zip
forget_zip-IsSameTree p v =
    let cleared = clear_zip_meta-IsSameTree (parent p) v in
    either_way _ (IsSameTree v) _ _ cleared
      (either_way (is_diz (to_lower (base p))) (IsSameTree v) _ v cleared (same_self v))

IsTree-of_same : (v w : Vfs) → IsSameTree v w → IsTree v → IsTree w
IsTree-of_same v w h =
    IsTreeBut-kept [] v w (λ d c. is_child_of_same d c v w h.children) (λ q. ap (lookup q) h.files)

-- What the paths of a tree are.
root_clean : clean_vfs_path slash ≡ slash
root_clean = clean_vfs_path-IsTidyPath slash ([], tt, refl)

pub entry-clean :
    (p : Text) (f : VfsFile) (v : Vfs) → IsTree v → lookup p v.files ≡ some f → clean_vfs_path p ≡ p
entry-clean p f v h e = elim (h.entries p f e) [
  | inl root ↦ subst (λ x. clean_vfs_path x ≡ x) (sym root) root_clean
  | inr (inl k) ↦ hangs_clean p v h k
  | inr (inr impossible) ↦ absurd impossible
]

pub Reaches-of_same : (v w : Vfs) (p q : Text) → IsSameTree v w → Reaches w p q → Reaches v p q
Reaches-of_same v w p q s (here _) = here p
Reaches-of_same v w p q s (step _ c _ k r) =
    step p c q (sym (is_child_of_same p c v w s.children) ∙ k) (Reaches-of_same v w c q s r)

IsSameTree-sym : (v w : Vfs) → IsSameTree v w → IsSameTree w v
IsSameTree-sym v w s = record {
  files = sym s.files;
  children = sym s.children;
  slave_paths = sym s.slave_paths;
  hidden = sym s.hidden;
  exclude = sym s.exclude;
  protected = sym s.protected;
}

-- The entry at a path after a deletion: gone if the links lead to it, and as it was otherwise.
abbrev pub Deleted : Text → Text → Vfs → Vfs → Type 0
Deleted p q v w =
    (Reaches v p q × (lookup q w.files ≡ none))
    ⊎ ((¬ Reaches v p q) × (lookup q w.files ≡ lookup q v.files))

module _ (file_path : Text) (f : VfsFile) (v : Vfs) (h : IsTree v)
    (e : lookup (clean_vfs_path file_path) v.files ≡ some f) where
  abbrev path : Text
  path = clean_vfs_path file_path

  abbrev forgotten : Vfs
  forgotten = forget_sfv path v

  forgotten-IsTree : IsTree forgotten
  forgotten-IsTree = IsTree-of_same v forgotten (forget_sfv-IsSameTree path v) h

  path-clean : clean_vfs_path path ≡ path
  path-clean = entry-clean path f v h e

  abbrev cut : Vfs
  cut = remove_paths path (collect_subtree path forgotten) (drop_child path forgotten)

  pub deleted_there : delete_path file_path v ≡ (forget_zip path cut, true)
  unfolding delete_path
  deleted_there = rw e refl

  pub delete_path_there-IsTree : IsTree (delete_path file_path v).0
  delete_path_there-IsTree = rw deleted_there (
      IsTree-of_same cut (forget_zip path cut) (forget_zip-IsSameTree path cut)
        (cut-IsTree path forgotten path-clean forgotten-IsTree))

  pub delete_path-Deleted : (q : Text) → Deleted path q v (delete_path file_path v).0
  delete_path-Deleted q =
      let same = forget_sfv-IsSameTree path v in
      let entry =
        ap (lookup q) (forget_zip-IsSameTree path cut).files
        ∙ cut-entry path forgotten path-clean forgotten-IsTree q in
      let iff = gone_iff path forgotten path-clean forgotten-IsTree q in
      rw deleted_there (elim (Bool-cases (is_among q (collect_subtree path forgotten))) [
        | inl out ↦ inl (Reaches-of_same v forgotten path q same (iff.0 out), rw out at entry)
        | inr out ↦ inr (
          λ r.
              cc (
                iff.1 (Reaches-of_same forgotten v path q (IsSameTree-sym v forgotten same) r),
                out,
              ),
          (rw out at entry) ∙ ap (lookup q) same.files,
        )
      ])

pub delete_path-IsTree :
    (file_path : Text) (v : Vfs) → IsTree v → IsTree (delete_path file_path v).0
unfolding delete_path
delete_path-IsTree file_path v h = elim (Option-cases (lookup (clean_vfs_path file_path) v.files)) [
  | inl e ↦ rw e h
  | inr (f, e) ↦ delete_path_there-IsTree file_path f v h e
]
