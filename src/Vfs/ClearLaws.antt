-- ===== src/Vfs/ClearLaws.antt =====
-- The first loop of ClearSlave and the entries of the slave.
use weave_ftpd.Base.{
  either_way, ◌≡◌, ◌⊎◌, inl, inr, refl, sym, ap, ◌∙◌, subst, List, [], ◌∷◌, false, none, Text,
  text_eq, text_eq_iff, text_ne, trim_space, lookup, text_eq_of_ne, Bool-cases, Option-cases, All,
  AnyOf,
}
use weave_ftpd.Vfs.Paths.{clean_vfs_path, parent}
use weave_ftpd.Vfs.DroppedLaws.{delete_file_entry_only-gone, is_indexed_there}
use weave_ftpd.Vfs.FreeLaws.{IsFree, restore_dirs-IsFree}
use weave_ftpd.Vfs.State.{Vfs}
use weave_ftpd.Vfs.Index.{
  remove_slave_path, delete_file_entry_only, paths_for_slave, mark_persist_dirty,
}
use weave_ftpd.Vfs.SortLaws.{paths_for_slave-listed, paths_for_slave-All}
use weave_ftpd.Vfs.IndexedLaws.{IsIndexed, trim_nil}
use weave_ftpd.Vfs.TreeLaws.{Keeps, Keeps-refl, remove_slave_path-Keeps}
use weave_ftpd.Vfs.WriteLaws.{delete_file_entry_only-Keeps}
use weave_ftpd.Vfs.Clear.{
  is_owned, drop_child, clear_entry, Clearing, clear_path, clear_paths, clear_slave,
}

pub drop_child-Keeps : (q p : Text) (v : Vfs) → Keeps q v (drop_child p v)
unfolding drop_child
drop_child-Keeps q p v = elim (Option-cases (lookup (parent p) v.children)) [
  | inl e ↦ rw (e, drop_child) (Keeps-refl q v)
  | inr (set, e) ↦
      rw (e, drop_child) (record { entry = refl; hidden = refl; exclude = refl; protected = refl })
]

pub drop_child-slave_paths : (p : Text) (v : Vfs) → (drop_child p v).slave_paths ≡ v.slave_paths
unfolding drop_child
drop_child-slave_paths p v = elim (Option-cases (lookup (parent p) v.children)) [
  | inl e ↦ rw (e, drop_child) refl
  | inr (set, e) ↦ rw (e, drop_child) refl
]

clear_entry-lookup :
    (q p : Text) (v : Vfs)
    → lookup q (clear_entry p v).files ≡ lookup q (delete_file_entry_only p v).files
unfolding clear_entry
clear_entry-lookup q p v = (drop_child-Keeps q p _).entry

module _ (s : Text) where
  -- What is left for the first loop: every entry of the slave stands under one of these paths.
  IsLeft : List Text → Vfs → Type 0
  IsLeft rest v = (q : Text) → (is_owned s (lookup q v.files) ≡ false) ⊎ AnyOf (λ p. p ≡ q) rest

  AreCleanPaths : List Text → Type 0
  AreCleanPaths ps = All (λ p. clean_vfs_path p ≡ p) ps

  clear_entry-IsLeft :
      (p : Text) (rest : List Text) (v : Vfs)
      → clean_vfs_path p ≡ p
      → IsLeft (p ∷ rest) v
      → IsLeft rest (clear_entry p v)
  unfolding IsLeft is_owned
  clear_entry-IsLeft p rest v tidy h q = elim (Bool-cases (text_eq p q)) [
    | inl same ↦ inl (
        ap (is_owned s) (
          clear_entry-lookup q p v
          ∙ subst (λ x. lookup x (delete_file_entry_only p v).files ≡ none)
              ((text_eq_iff p q).0 same) (delete_file_entry_only-gone p v tidy)))
    | inr other ↦
        let n = text_ne p q other in
        let kept =
          clear_entry-lookup q p v
          ∙ (delete_file_entry_only-Keeps p q v (λ e. n (sym tidy ∙ e))).entry in
        elim (h q) [
          | inl foreign ↦ inl (ap (is_owned s) kept ∙ foreign)
          | inr (inl e) ↦ absurd (n e)
          | inr (inr k) ↦ inr k
        ]
  ]

  skip-IsLeft :
      (p : Text) (rest : List Text) (v : Vfs)
      → is_owned s (lookup p v.files) ≡ false
      → IsLeft (p ∷ rest) v
      → IsLeft rest (remove_slave_path s p v)
  unfolding IsLeft
  skip-IsLeft p rest v foreign h q =
      let kept = (remove_slave_path-Keeps q s p v).entry in
      elim (h q) [
        | inl other ↦ inl (ap (is_owned s) kept ∙ other)
        | inr (inl e) ↦
            inl
              (ap (is_owned s) kept ∙ subst (λ x. is_owned s (lookup x v.files) ≡ false) e foreign)
        | inr (inr k) ↦ inr k
      ]

  clear_path-IsLeft :
      (p : Text) (rest : List Text) (c : Clearing)
      → clean_vfs_path p ≡ p
      → IsLeft (p ∷ rest) c.vfs
      → IsLeft rest (clear_path s p c).vfs
  unfolding clear_path
  clear_path-IsLeft p rest c tidy h = elim (Bool-cases (is_owned s (lookup p c.vfs.files))) [
    | inl own ↦ rw own (clear_entry-IsLeft p rest c.vfs tidy h)
    | inr foreign ↦ rw foreign (skip-IsLeft p rest c.vfs foreign h)
  ]

  clear_paths-IsLeft :
      (ps : List Text) (c : Clearing)
      → AreCleanPaths ps
      → IsLeft ps c.vfs
      → IsLeft [] (clear_paths s ps c).vfs
  unfolding clear_paths AreCleanPaths
  clear_paths-IsLeft [] c t h = h
  clear_paths-IsLeft (p ∷ rest) c (t, ts) h =
      clear_paths-IsLeft rest (clear_path s p c) ts (clear_path-IsLeft p rest c t h)

  IsFree-of_left : (v : Vfs) → IsLeft [] v → IsFree s v
  unfolding IsLeft
  IsFree-of_left v h q = elim (h q) [ inl f ↦ f | inr k ↦ absurd k ]

pub named_ne : (s : Text) → text_eq (trim_space s) [] ≡ false → text_eq [] s ≡ false
named_ne s h = text_eq_of_ne [] s (λ e. cc (
  h,
  ap (λ x. text_eq (trim_space x) []) (sym e),
  ap (λ x. text_eq x []) trim_nil,
  (text_eq_iff [] []).1 refl,
))

pub owned_listed :
    (s q : Text) (v : Vfs)
    → text_eq (trim_space s) [] ≡ false
    → IsIndexed v
    → (is_owned s (lookup q v.files) ≡ false) ⊎ AnyOf (λ p. p ≡ q) (paths_for_slave s v)
unfolding is_owned
owned_listed s q v named h = elim (Option-cases (lookup q v.files)) [
  | inl e ↦ inl (ap (is_owned s) e)
  | inr (f, e) ↦ elim (Bool-cases (text_eq f.slave_name s)) [
    | inr foreign ↦ inl (ap (is_owned s) e ∙ foreign)
    | inl own ↦ inr (paths_for_slave-listed s q v named (is_indexed_there s q f v own named e h))
  ]
]

pub clean_paths :
    (s : Text) (v : Vfs) → IsIndexed v → All (λ p. clean_vfs_path p ≡ p) (paths_for_slave s v)
clean_paths s v h =
    paths_for_slave-All (λ p. clean_vfs_path p ≡ p) s v
      (λ q i. elim (h.paths (trim_space s) q) [ inl out ↦ cc (out, i) | inr c ↦ c ])

-- Where the index covers the entries, ClearSlave leaves no entry of the slave.
pub clear_slave-IsFree :
    (s : Text) (v : Vfs)
    → text_eq (trim_space s) [] ≡ false
    → IsIndexed v
    → IsFree s (clear_slave s v)
unfolding clear_slave IsLeft AreCleanPaths mark_persist_dirty
clear_slave-IsFree s v named h =
    let start : Clearing = record { vfs = v; deleted_dirs = []; changed = false } in
    let c = clear_paths s (paths_for_slave s v) start in
    let cleared = IsFree-of_left s c.vfs (
      clear_paths-IsLeft s (paths_for_slave s v) start (clean_paths s v h)
        (λ q. owned_listed s q v named h)) in
    either_way c.changed (IsFree s) _ _
      (restore_dirs-IsFree s (named_ne s named) c.deleted_dirs c.vfs cleared) cleared
