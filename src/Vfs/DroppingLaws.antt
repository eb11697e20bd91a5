-- ===== src/Vfs/DroppingLaws.antt =====
-- The slave index under DeleteFile.
use weave_ftpd.Base.{
  either_way, ◌≡◌, inl, inr, refl, sym, ap, ◌∙◌, subst, [], ◌∷◌, List, Bool, true, false, not, none,
  some, Text, text_eq, lookup, delete, lookup-delete, Option-cases, Bool-cases, text_eq_iff,
}
use weave_ftpd.Base.Int.{ℤ}
use weave_ftpd.GoPath.Clean.{slash}
use weave_ftpd.Vfs.Paths.{clean_vfs_path, parent}
use weave_ftpd.Vfs.PathLaws.{clean_vfs_path-IsTidyPath}
use weave_ftpd.Vfs.State.{Vfs, has_key}
use weave_ftpd.Vfs.Index.{delete_file_entry_only, remove_slave_path}
use weave_ftpd.Vfs.Clear.{drop_child}
use weave_ftpd.Vfs.ClearLaws.{drop_child-Keeps, drop_child-slave_paths}
use weave_ftpd.Vfs.Collect.{collect_subtree}
use weave_ftpd.Vfs.Delete.{
  remove_path, remove_paths, forget_sfv, forget_zip, delete_path, delete_file,
}
use weave_ftpd.Vfs.IndexedLaws.{IsIndexed, IsIndexed-of_same, tidy_there}
use weave_ftpd.Vfs.DroppedLaws.{deleted-IsIndexed}
use weave_ftpd.Vfs.StoreLaws.{dirty-IsIndexed, touch_ancestors-IsIndexed}
use weave_ftpd.Vfs.DeleteLaws.{IsSameTree, forget_sfv-IsSameTree, forget_zip-IsSameTree}

gone_anyway :
    (c q : Text) (v : Vfs)
    → lookup c v.files ≡ none
    → lookup q (delete c v.files) ≡ lookup q v.files
gone_anyway c q v e = elim (Bool-cases (text_eq c q)) [
  | inl same ↦
      rw (lookup-delete c q v.files, same)
        (sym (ap (λ x. lookup x v.files) (sym ((text_eq_iff c q).0 same)) ∙ e))
  | inr other ↦ rw (lookup-delete c q v.files, other) refl
]

-- Only the clean path counts.
deleted_clean :
    (p c : Text) (v : Vfs)
    → clean_vfs_path p ≡ c
    → clean_vfs_path c ≡ c
    → delete_file_entry_only p v ≡ delete_file_entry_only c v
unfolding delete_file_entry_only
deleted_clean p c v e k =
    ap
      (λ (x : Text).
        let v' : Vfs = elim (lookup x v.files) [
          | none ↦ v
          | some file ↦ remove_slave_path file.slave_name x v
        ] in
        record v' { files = delete x v'.files })
      (e ∙ sym k)

any_deleted-IsIndexed : (p : Text) (v : Vfs) → IsIndexed v → IsIndexed (delete_file_entry_only p v)
unfolding delete_file_entry_only
any_deleted-IsIndexed p v h =
    let c = clean_vfs_path p in
    elim (Option-cases (lookup c v.files)) [
      | inl e ↦ rw e (
          IsIndexed-of_same v (record v { files = delete c v.files })
            (λ q. record {
              entry = gone_anyway c q v e;
              hidden = refl;
              exclude = refl;
              protected = refl;
            })
            refl h)
      | inr (f, e) ↦
          let tidy = clean_vfs_path-IsTidyPath c (tidy_there c f v e h) in
          subst IsIndexed (sym (deleted_clean p c v refl tidy)) (deleted-IsIndexed c v tidy h)
    ]

same_index : (v w : Vfs) → IsSameTree v w → IsIndexed v → IsIndexed w
same_index v w s =
    IsIndexed-of_same v w
      (λ q. record {
        entry = ap (lookup q) s.files;
        hidden = s.hidden;
        exclude = s.exclude;
        protected = s.protected;
      })
      s.slave_paths

drop_child-IsIndexed : (p : Text) (v : Vfs) → IsIndexed v → IsIndexed (drop_child p v)
drop_child-IsIndexed p v =
    IsIndexed-of_same v (drop_child p v) (λ q. drop_child-Keeps q p v) (drop_child-slave_paths p v)

remove_path-IsIndexed : (path r : Text) (v : Vfs) → IsIndexed v → IsIndexed (remove_path path r v)
unfolding remove_path
remove_path-IsIndexed path r v h =
    let w = delete_file_entry_only r v in
    let w' : Vfs = record w { children = delete r w.children; dir_meta = delete r w.dir_meta } in
    let dropped =
      IsIndexed-of_same w w'
        (λ q. record { entry = refl; hidden = refl; exclude = refl; protected = refl }) refl
        (any_deleted-IsIndexed r v h) in
    either_way (text_eq r path) IsIndexed w' (drop_child r w') dropped
      (drop_child-IsIndexed r w' dropped)

remove_paths-IsIndexed :
    (path : Text) (rs : List Text) (v : Vfs) → IsIndexed v → IsIndexed (remove_paths path rs v)
unfolding remove_paths
remove_paths-IsIndexed path [] v h = h
remove_paths-IsIndexed path (r ∷ rs) v h =
    remove_paths-IsIndexed path rs (remove_path path r v) (remove_path-IsIndexed path r v h)

pub delete_path-IsIndexed :
    (file_path : Text) (v : Vfs) → IsIndexed v → IsIndexed (delete_path file_path v).0
unfolding delete_path
delete_path-IsIndexed file_path v h =
    let p = clean_vfs_path file_path in
    let w = forget_sfv p v in
    let cut = remove_paths p (collect_subtree p w) (drop_child p w) in
    either_way (not (has_key p v.files)) (λ (s : Vfs × Bool). IsIndexed s.0) (v, false)
      (forget_zip p cut, true) h
      (same_index cut (forget_zip p cut) (forget_zip-IsSameTree p cut) (
        remove_paths-IsIndexed p (collect_subtree p w) (drop_child p w)
          (drop_child-IsIndexed p w (same_index v w (forget_sfv-IsSameTree p v) h))))

pub delete_file-IsIndexed :
    (now : ℤ) (file_path : Text) (v : Vfs) → IsIndexed v → IsIndexed (delete_file now file_path v)
unfolding delete_file
delete_file-IsIndexed now file_path v h =
    let p = clean_vfs_path file_path in
    let deleted = delete_path p v in
    either_way (text_eq p slash) IsIndexed v _ h (
      either_way (not deleted.1) IsIndexed v _ h (
        dirty-IsIndexed _
          (touch_ancestors-IsIndexed now (parent p) now deleted.0 (delete_path-IsIndexed p v h))))
