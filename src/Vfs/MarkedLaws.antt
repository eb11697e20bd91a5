-- ===== src/Vfs/MarkedLaws.antt =====
-- MarkAllUnseen: what becomes of each entry.
use weave_ftpd.Base.{
  ◌≡◌, ◌⊎◌, inl, inr, refl, sym, ap, ◌∙◌, subst, List, [], ◌∷◌, Bool, true, false, ◌||◌, not,
  Option, none, some, Text, text_eq, text_eq_iff, text_ne, trim_space, lookup, insert,
  lookup-insert_self, Bool-cases, Option-cases, AnyOf, arith,
}
use weave_ftpd.Vfs.State.{Vfs, VfsFile, has_key}
use weave_ftpd.Vfs.Index.{reindex_slave_path, paths_for_slave}
use weave_ftpd.Vfs.Slaves.{reset_protected_dir, mark_unseen, mark_paths_unseen, mark_all_unseen}
use weave_ftpd.Vfs.TreeLaws.{
  Keeps, Keeps-trans, insert-Keeps, reindex_slave_path-Keeps, remove_slave_path-Keeps,
}
use weave_ftpd.Vfs.SlaveLaws.{Marked, mark_all_unseen-Marked, mark_all_unseen-protected}
use weave_ftpd.Vfs.Clear.{is_owned}
use weave_ftpd.Vfs.ClearLaws.{owned_listed, named_ne}
use weave_ftpd.Vfs.IndexedLaws.{IsIndexed}
use weave_ftpd.Vfs.ReachLaws.{Reached, Reached-IsIndexed}

-- What becomes of an entry: the slave's own waits to be seen; a protected one belongs to no slave and
-- is seen; others stay. A protected one that is not the slave's stays or is reset too.
pub Awaiting : Text → Bool → Option VfsFile → Option VfsFile → Type 0
Awaiting s protected none after = after ≡ none
Awaiting s true (some f) after =
    (after ≡ some (record f { seen = true; slave_name = [] }))
    ⊎ ((text_eq f.slave_name s ≡ false) × (after ≡ some f))
Awaiting s false (some f) after =
    ((text_eq f.slave_name s ≡ true) × (after ≡ some (record f { seen = false })))
    ⊎ ((text_eq f.slave_name s ≡ false) × (after ≡ some f))

-- The entry needs no round any more.
done : Text → Bool → Option VfsFile → Bool
done s protected none = true
done s true (some f) = not (text_eq f.slave_name s)
done s false (some f) = not (text_eq f.slave_name s) || not f.seen

own_done : (own seen : Bool) → (not own || not seen) ≡ true → own ≡ true → seen ≡ false
own_done own seen h k = ground arith

Awaiting-of_done :
    (s : Text) (b : Bool) (o after : Option VfsFile)
    → Marked s b o after
    → done s b after ≡ true
    → Awaiting s b o after
unfolding Marked Awaiting done
Awaiting-of_done s b none after m d = m
Awaiting-of_done s true (some f) after (inr reset) d = inl reset
Awaiting-of_done s true (some f) after (inl same) d =
    let k = ap (done s true) (sym same) ∙ d in inr (ground arith, same)
Awaiting-of_done s false (some f) after (inr (own, unseen)) d = inl (own, unseen)
Awaiting-of_done s false (some f) after (inl same) d =
    let k = ap (done s false) (sym same) ∙ d in
    elim (Bool-cases (text_eq f.slave_name s)) [
      | inr foreign ↦ inr (foreign, same)
      | inl own ↦ inl (own, same ∙ ap (λ b. some (record f { seen = b })) (own_done _ f.seen k own))
    ]

foreign_done : (s : Text) (b : Bool) (o : Option VfsFile) → is_owned s o ≡ false → done s b o ≡ true
unfolding done is_owned
foreign_done s b none h = refl
foreign_done s true (some f) h = rw h refl
foreign_done s false (some f) h = rw h refl

gone_done : (s : Text) (b : Bool) → done s b none ≡ true
unfolding done
gone_done s b = refl

unseen_done : (s : Text) (f : VfsFile) → done s false (some (record f { seen = false })) ≡ true
unfolding done
unseen_done s f = ground arith

module _ (s q : Text) where
  IsDone : Vfs → Type 0
  IsDone v = done s (has_key q v.protected_dirs) (lookup q v.files) ≡ true

  IsDone-of_Keeps : (v w : Vfs) → Keeps q v w → IsDone v → IsDone w
  unfolding IsDone
  IsDone-of_Keeps v w k h = rw (k.entry, k.protected) h

  -- The round of the path itself.
  IsDone-of_entry :
      (v w : Vfs) (o : Option VfsFile)
      → w.protected_dirs ≡ v.protected_dirs
      → lookup q w.files ≡ o
      → done s (has_key q v.protected_dirs) o ≡ true
      → IsDone w
  unfolding IsDone
  IsDone-of_entry v w o p e h = rw (p, e) h

module _ (s : Text) (named : text_eq (trim_space s) [] ≡ false) where
  reset-IsDone :
      (p q : Text) (f : VfsFile) (v : Vfs)
      → (p ≡ q) ⊎ IsDone s q v
      → IsDone s q (reset_protected_dir p f v)
  unfolding reset_protected_dir is_owned
  reset-IsDone p q f v h =
      let w = reindex_slave_path p f.slave_name [] v in
      let k = reindex_slave_path-Keeps q p f.slave_name [] v in
      let g : VfsFile = record f { seen = true; slave_name = [] } in
      elim (Bool-cases (text_eq p q)) [
        | inl same ↦
            IsDone-of_entry s q v _ (some g) k.protected
              (subst (λ d. lookup d (insert p g w.files) ≡ some g) ((text_eq_iff p q).0 same)
                (lookup-insert_self p g w.files))
              (foreign_done s _ (some g) (named_ne s named))
        | inr other ↦ elim h [
          | inl same ↦ absurd (text_ne p q other same)
          | inr d ↦
              IsDone-of_Keeps s q v _
                (Keeps-trans q v w _ k (insert-Keeps q p g w (text_ne p q other))) d
        ]
      ]

  unseen-IsDone :
      (p q : Text) (f : VfsFile) (v : Vfs)
      → has_key p v.protected_dirs ≡ false
      → (p ≡ q) ⊎ IsDone s q v
      → IsDone s q (record v { files = insert p (record f { seen = false }) v.files })
  unseen-IsDone p q f v open_there h =
      let g : VfsFile = record f { seen = false } in
      elim (Bool-cases (text_eq p q)) [
        | inl same ↦
            let e = (text_eq_iff p q).0 same in
            IsDone-of_entry s q v _ (some g) refl
              (subst (λ d. lookup d (insert p g v.files) ≡ some g) e
                (lookup-insert_self p g v.files))
              (rw (subst (λ d. has_key d v.protected_dirs ≡ false) e open_there) (unseen_done s f))
        | inr other ↦ elim h [
          | inl same ↦ absurd (text_ne p q other same)
          | inr d ↦ IsDone-of_Keeps s q v _ (insert-Keeps q p g v (text_ne p q other)) d
        ]
      ]

  mark_unseen-IsDone :
      (p q : Text) (v : Vfs) → (p ≡ q) ⊎ IsDone s q v → IsDone s q (mark_unseen s p v)
  unfolding mark_unseen is_owned
  mark_unseen-IsDone p q v h = elim (Option-cases (lookup p v.files)) [
    | inl e ↦
        let k = remove_slave_path-Keeps q s p v in
        rw (e, mark_unseen)
          (elim h [
            | inl same ↦
                IsDone-of_entry s q v _ none k.protected
                  (k.entry ∙ subst (λ d. lookup d v.files ≡ none) same e) (gone_done s _)
            | inr d ↦ IsDone-of_Keeps s q v _ k d
          ])
    | inr (f, e) ↦ elim (Bool-cases (has_key p v.protected_dirs)) [
      | inl b ↦ rw (e, mark_unseen, b) (reset-IsDone p q f v h)
      | inr b ↦ elim (Bool-cases (text_eq f.slave_name s)) [
        | inl own ↦ rw (e, mark_unseen, b, own) (unseen-IsDone p q f v b h)
        | inr foreign ↦
            rw (e, mark_unseen, b, foreign)
              (elim h [
                | inl same ↦
                    IsDone-of_entry s q v v (some f) refl
                      (subst (λ d. lookup d v.files ≡ some f) same e)
                      (foreign_done s _ (some f) foreign)
                | inr d ↦ d
              ])
      ]
    ]
  ]

  mark_paths_unseen-IsDone :
      (q : Text) (ps : List Text) (v : Vfs)
      → IsDone s q v ⊎ AnyOf (λ p. p ≡ q) ps
      → IsDone s q (mark_paths_unseen s ps v)
  unfolding mark_paths_unseen
  mark_paths_unseen-IsDone q [] v (inl h) = h
  mark_paths_unseen-IsDone q [] v (inr impossible) = absurd impossible
  mark_paths_unseen-IsDone q (p ∷ ps) v h =
      mark_paths_unseen-IsDone q ps (mark_unseen s p v) (elim h [
        | inl d ↦ inl (mark_unseen-IsDone p q v (inr d))
        | inr (inl same) ↦ inl (mark_unseen-IsDone p q v (inl same))
        | inr (inr later) ↦ inr later
      ])

  mark_all_unseen-IsDone : (q : Text) (v : Vfs) → IsIndexed v → IsDone s q (mark_all_unseen s v)
  unfolding mark_all_unseen IsDone
  mark_all_unseen-IsDone q v h =
      mark_paths_unseen-IsDone q (paths_for_slave s v) v (elim (owned_listed s q v named h) [
        | inl foreign ↦ inl (foreign_done s _ (lookup q v.files) foreign)
        | inr found ↦ inr found
      ])

-- In every state that the operations reach, MarkAllUnseen with a name that is not blank adds and
-- removes no entry. It marks the slave's entries of unprotected paths as not seen and leaves those of
-- others; entries of protected paths that are the slave's it takes from it and marks as seen, and
-- other entries of protected paths it leaves or treats so too.
pub mark_all_unseen-Awaiting :
    (s q : Text) (v : Vfs)
    → text_eq (trim_space s) [] ≡ false
    → Reached v
    → Awaiting s
        (has_key q v.protected_dirs)
        (lookup q v.files)
        (lookup q (mark_all_unseen s v).files)
unfolding IsDone
mark_all_unseen-Awaiting s q v named r = Awaiting-of_done s _ _ _ (mark_all_unseen-Marked s v q) (
    subst (λ d. done s (has_key q d) (lookup q (mark_all_unseen s v).files) ≡ true)
      (mark_all_unseen-protected s v) (mark_all_unseen-IsDone s named q v (Reached-IsIndexed v r)))
