-- ===== src/Vfs/SubtreeLaws.antt =====
-- The walk over a subtree, DeleteFile and PurgeUnseen in the states that the operations build.
use weave_ftpd.Base.{
  ◌≡◌, ◌≢◌, ◌↔◌, ◌⊎◌, inl, inr, refl, ap, ◌∙◌, [], ◌∷◌, Bool, true, false, none, some, Text, lookup,
  Option-cases, length, arith, Bool-cases,
}
use weave_ftpd.Base.Int.{ℤ}
use weave_ftpd.GoPath.Clean.{slash}
use weave_ftpd.Vfs.Paths.{clean_vfs_path, at_or_below}
use weave_ftpd.Vfs.PathLaws.{length-path_to}
use weave_ftpd.Vfs.State.{Vfs, VfsFile}
use weave_ftpd.Vfs.Collect.{collect_from, rounds_for, longest_child, collect_subtree}
use weave_ftpd.Vfs.Delete.{delete_file}
use weave_ftpd.Vfs.IndexedLaws.{tidy_there}
use weave_ftpd.Vfs.CutLaws.{tree_down}
use weave_ftpd.Vfs.CollectLaws.{is_among, collect_from-paths_below}
use weave_ftpd.Vfs.BelowLaws.{Reaches, collect_subtree-Reaches}
use weave_ftpd.Vfs.CoverLaws.{IsAtOrBelow, at_or_below_iff}
use weave_ftpd.Vfs.BeneathLaws.{entry-Reaches, Reaches-IsAtOrBelow}
use weave_ftpd.Vfs.DeleteFileLaws.{undated, undated-none, delete_file_subtree}
use weave_ftpd.Vfs.BuiltStates.{IsSound, Built, Built-IsSound}

-- In every state that the operations build, the loop over the stack of the walk over a subtree ends:
-- the rounds counted for it leave no directory on the stack; and the walk finds its root and just the
-- paths to which the links lead from the root.
pub walk-Reaches :
    (root p : Text) (v : Vfs)
    → Built v
    → ((collect_from (rounds_for (longest_child v.children) v root) v (root ∷ [])).1 ≡ [])
      × ((is_among p (collect_subtree root v) ≡ true) ↔ Reaches v root p)
walk-Reaches root p v b =
    let down = tree_down v (Built-IsSound v b).tree in
    (ap (λ s. s.1) (collect_from-paths_below v down root), collect_subtree-Reaches v down root p)

clash : (b : Bool) → b ≡ false → b ≡ true → ⊥
clash b h k = cc (h, k)

some_path : (p : Text) (f : VfsFile) (v : Vfs) → IsSound v → lookup p v.files ≡ some f → p ≢ []
some_path p f v h e empty =
    let (up, ts, same) = tidy_there p f v e h.index in
    omega (arith, length-path_to up, ap length (same ∙ empty))

deleted_under :
    (now : ℤ) (file_path : Text) (f : VfsFile) (q : Text) (v : Vfs)
    → IsSound v
    → lookup (clean_vfs_path file_path) v.files ≡ some f
    → clean_vfs_path file_path ≢ slash
    → at_or_below q (clean_vfs_path file_path) ≡ true
    → lookup q (delete_file now file_path v).files ≡ none
deleted_under now file_path f q v h e below under =
    let p = clean_vfs_path file_path in
    elim (delete_file_subtree now file_path f v h.tree e below q) [
      | inl (r, out) ↦ out
      | inr (r, kept) ↦ elim (Option-cases (lookup q v.files)) [
        | inl gone ↦
            undated-none (lookup q (delete_file now file_path v).files) (kept ∙ ap undated gone)
        | inr (g, there) ↦ absurd (
            r (
              entry-Reaches v h.tree p (some_path p f v h e) below q g
                (tidy_there q g v there h.index) under there))
      ]
    ]

-- In every state that the operations build, DeleteFile of a path that is not the root and has an entry
-- leaves no entry at the path or at a path that begins with it and a slash, and every other entry stays
-- as it is but for the time of its last change.
pub delete_file-at_or_below :
    (now : ℤ) (file_path : Text) (f : VfsFile) (q : Text) (v : Vfs)
    → Built v
    → lookup (clean_vfs_path file_path) v.files ≡ some f
    → clean_vfs_path file_path ≢ slash
    → ((at_or_below q (clean_vfs_path file_path) ≡ true)
        × (lookup q (delete_file now file_path v).files ≡ none))
      ⊎ ((at_or_below q (clean_vfs_path file_path) ≡ false)
          × (undated (lookup q (delete_file now file_path v).files) ≡ undated (lookup q v.files)))
unfolding IsAtOrBelow
delete_file-at_or_below now file_path f q v b e below =
    let p = clean_vfs_path file_path in
    let h = Built-IsSound v b in
    elim (Bool-cases (at_or_below q p)) [
      | inl under ↦ inl (under, deleted_under now file_path f q v h e below under)
      | inr beside ↦ inr (
        beside,
        elim (delete_file_subtree now file_path f v h.tree e below q) [
          | inl (r, out) ↦ absurd (
              clash (at_or_below q p) beside (
                (at_or_below_iff q p).1
                  (Reaches-IsAtOrBelow v p q p h.tree (some_path p f v h e) below r (inl refl))))
          | inr (r, kept) ↦ kept
        ],
      )
    ]
