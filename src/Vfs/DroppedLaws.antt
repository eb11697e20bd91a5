-- ===== src/Vfs/DroppedLaws.antt =====
-- The slave index when entries are dropped and paths taken out of it.
use weave_ftpd.Base.{
  ◌≡◌, inl, inr, refl, sym, ap, ◌∙◌, subst, [], true, false, ◌||◌, none, some, Text, text_eq,
  text_eq_iff, text_eq_sym, trim_space, lookup, delete, lookup-delete, Option-cases,
}
use weave_ftpd.Vfs.Paths.{clean_vfs_path}
use weave_ftpd.Vfs.State.{Vfs, VfsFile}
use weave_ftpd.Vfs.Index.{remove_slave_path, delete_file_entry_only}
use weave_ftpd.Vfs.IndexLaws.{
  is_indexed, remove_slave_path-other, Relists, Relists-of_same, Relists-trans,
  remove_slave_path-Relists,
}
use weave_ftpd.Vfs.WriteLaws.{delete_file_entry_only-Keeps}
use weave_ftpd.Vfs.TreeLaws.{remove_slave_path-Keeps}
use weave_ftpd.Vfs.IndexedLaws.{Listed, IsIndexed, IsIndexed-of_step, entry_there}

pub entry_gone :
    (p : Text) (v : Vfs) → lookup (clean_vfs_path p) (delete_file_entry_only p v).files ≡ none
unfolding delete_file_entry_only
entry_gone p v =
    let c = clean_vfs_path p in
    elim (Option-cases (lookup c v.files)) [
      | inl e ↦ rw e (lookup-delete c c v.files ∙ rw ((text_eq_iff c c).1 refl) refl)
      | inr (f, e) ↦ rw e (
          lookup-delete c c (remove_slave_path f.slave_name c v).files
          ∙ rw ((text_eq_iff c c).1 refl) refl)
    ]

pub delete_file_entry_only-gone :
    (p : Text) (v : Vfs) → clean_vfs_path p ≡ p → lookup p (delete_file_entry_only p v).files ≡ none
delete_file_entry_only-gone p v tidy =
    subst (λ c. lookup c (delete_file_entry_only p v).files ≡ none) tidy (entry_gone p v)

delete-Relists :
    (p : Text) (v : Vfs)
    → clean_vfs_path (clean_vfs_path p) ≡ clean_vfs_path p
    → Relists (clean_vfs_path p) v (delete_file_entry_only p v)
unfolding delete_file_entry_only
delete-Relists p v tidy =
    let c = clean_vfs_path p in
    elim (Option-cases (lookup c v.files)) [
      | inl e ↦ rw e (Relists-of_same c v (record v { files = delete c v.files }) refl)
      | inr (f, e) ↦
          let v' = remove_slave_path f.slave_name c v in
          rw e (
            Relists-trans c v v' (record v' { files = delete c v'.files })
              (remove_slave_path-Relists f.slave_name c v tidy)
              (Relists-of_same c v' (record v' { files = delete c v'.files }) refl))
    ]

delete_file_entry_only-Relists :
    (p : Text) (v : Vfs) → clean_vfs_path p ≡ p → Relists p v (delete_file_entry_only p v)
delete_file_entry_only-Relists p v tidy =
    subst (λ c. Relists c v (delete_file_entry_only p v)) tidy
      (delete-Relists p v (ap clean_vfs_path tidy))

pub deleted-IsIndexed :
    (p : Text) (v : Vfs)
    → clean_vfs_path p ≡ p
    → IsIndexed v
    → IsIndexed (delete_file_entry_only p v)
unfolding Listed
deleted-IsIndexed p v tidy h =
    IsIndexed-of_step p v (delete_file_entry_only p v) tidy
      (delete_file_entry_only-Relists p v tidy)
      (λ q n. (delete_file_entry_only-Keeps p q v (λ e. n (sym tidy ∙ e))).entry)
      (subst (λ o. Listed p o (delete_file_entry_only p v))
        (sym (delete_file_entry_only-gone p v tidy)) tt)
      h

-- A clean path without an entry may be taken out of the index.
pub unlisted-IsIndexed :
    (s p : Text) (v : Vfs)
    → clean_vfs_path p ≡ p
    → lookup p v.files ≡ none
    → IsIndexed v
    → IsIndexed (remove_slave_path s p v)
unfolding Listed
unlisted-IsIndexed s p v tidy e h =
    let w = remove_slave_path s p v in
    IsIndexed-of_step p v w tidy (remove_slave_path-Relists s p v tidy)
      (λ q n. (remove_slave_path-Keeps q s p v).entry)
      (subst (λ o. Listed p o w) (sym ((remove_slave_path-Keeps p s p v).entry ∙ e)) tt) h

pub trimmed_there :
    (p : Text) (f : VfsFile) (v : Vfs)
    → lookup p v.files ≡ some f
    → IsIndexed v
    → trim_space f.slave_name ≡ f.slave_name
unfolding Listed
trimmed_there p f v e h = (entry_there p f v e h).1

-- A path may be taken out of the index for a slave that does not have the entry.
pub foreign-IsIndexed :
    (s p : Text) (f : VfsFile) (v : Vfs)
    → clean_vfs_path p ≡ p
    → trim_space s ≡ s
    → text_eq f.slave_name s ≡ false
    → lookup p v.files ≡ some f
    → IsIndexed v
    → IsIndexed (remove_slave_path s p v)
unfolding Listed
foreign-IsIndexed s p f v clean name foreign e h =
    let w = remove_slave_path s p v in
    let there = entry_there p f v e h in
    let other =
      ap (λ t. text_eq t (trim_space f.slave_name)) name
      ∙ (ap (text_eq s) there.1 ∙ (text_eq_sym s f.slave_name ∙ foreign)) in
    IsIndexed-of_step p v w clean (remove_slave_path-Relists s p v clean)
      (λ q n. (remove_slave_path-Keeps q s p v).entry)
      (subst (λ o. Listed p o w) (sym ((remove_slave_path-Keeps p s p v).entry ∙ e))
        (
          there.0,
          there.1,
          ap (λ b. text_eq (trim_space f.slave_name) [] || b)
                (remove_slave_path-other s (trim_space f.slave_name) p p v other)
              ∙ there.2,
        ))
      h

-- The index lists every entry of a slave.
pub is_indexed_there :
    (s q : Text) (f : VfsFile) (v : Vfs)
    → text_eq f.slave_name s ≡ true
    → text_eq (trim_space s) [] ≡ false
    → lookup q v.files ≡ some f
    → IsIndexed v
    → is_indexed (trim_space s) q v ≡ true
unfolding Listed
is_indexed_there s q f v own named e h =
    let same = (text_eq_iff f.slave_name s).0 own in
    let there =
      subst (λ n. (text_eq (trim_space n) [] || is_indexed (trim_space n) q v) ≡ true) same
        (entry_there q f v e h).2 in
    rw named at there
