-- ===== src/Vfs/PurgeLaws.antt =====
-- PurgeUnseen and the entries of the slave.
use weave_ftpd.Base.{
  either_way, ◌≡◌, ◌⊎◌, inl, inr, refl, sym, ap, ◌∙◌, subst, [], ◌∷◌, List, Bool, true, false, ◌&&◌,
  not, Option, none, some, Text, text_eq, text_eq_iff, trim_space, lookup, delete, lookup-insert,
  Option-cases, Bool-cases, All, AnyOf, arith,
}
use weave_ftpd.Base.Int.{ℤ}
use weave_ftpd.Vfs.Paths.{clean_vfs_path}
use weave_ftpd.Vfs.State.{Vfs, VfsFile, has_key}
use weave_ftpd.Vfs.Index.{
  delete_file_entry_only, reindex_slave_path, paths_for_slave, mark_persist_dirty,
}
use weave_ftpd.Vfs.TreeLaws.{remove_slave_path-Keeps, reindex_slave_path-Keeps}
use weave_ftpd.Vfs.Slaves.{reset_protected_dir}
use weave_ftpd.Vfs.Clear.{drop_child, is_owned}
use weave_ftpd.Vfs.ClearLaws.{drop_child-Keeps, clean_paths, owned_listed}
use weave_ftpd.Vfs.Collect.{collect_subtree, collect_from, rounds_for, longest_child}
use weave_ftpd.Vfs.Delete.{remove_path, remove_paths, forget_sfv, forget_zip, delete_path}
use weave_ftpd.Vfs.Purge.{is_recent, purge_path, purge_paths, purge_unseen}
use weave_ftpd.Vfs.IndexedLaws.{IsIndexed}
use weave_ftpd.Vfs.BuiltLaws.{deleted-entries}
use weave_ftpd.Vfs.DroppedLaws.{delete_file_entry_only-gone}
use weave_ftpd.Vfs.DeleteLaws.{forget_sfv-IsSameTree, forget_zip-IsSameTree}

-- The entry is the same or gone.
abbrev pub Shrinks : Text → Vfs → Vfs → Type 0
Shrinks q v w = (lookup q w.files ≡ none) ⊎ (lookup q w.files ≡ lookup q v.files)

Shrinks-trans : (q : Text) (u v w : Vfs) → Shrinks q u v → Shrinks q v w → Shrinks q u w
Shrinks-trans q u v w h (inl out) = inl out
Shrinks-trans q u v w (inl out) (inr kept) = inl (kept ∙ out)
Shrinks-trans q u v w (inr old) (inr kept) = inr (kept ∙ old)

remove_path-Shrinks : (path r q : Text) (v : Vfs) → Shrinks q v (remove_path path r v)
unfolding remove_path
remove_path-Shrinks path r q v =
    let w = delete_file_entry_only r v in
    let w' : Vfs = record w { children = delete r w.children; dir_meta = delete r w.dir_meta } in
    let dropped : Shrinks q v w' = elim (deleted-entries r q v) [
      | inl out ↦ inl out
      | inr (kept, other) ↦ inr kept
    ] in
    either_way (text_eq r path) (Shrinks q v) w' (drop_child r w') dropped
      (Shrinks-trans q v w' (drop_child r w') dropped (inr (drop_child-Keeps q r w').entry))

remove_paths-Shrinks :
    (path q : Text) (rs : List Text) (v : Vfs) → Shrinks q v (remove_paths path rs v)
unfolding remove_paths
remove_paths-Shrinks path q [] v = inr refl
remove_paths-Shrinks path q (r ∷ rs) v =
    Shrinks-trans q v (remove_path path r v) (remove_paths path rs (remove_path path r v))
      (remove_path-Shrinks path r q v) (remove_paths-Shrinks path q rs (remove_path path r v))

pub delete_path-Shrinks : (p q : Text) (v : Vfs) → Shrinks q v (delete_path p v).0
unfolding delete_path
delete_path-Shrinks p q v =
    let path = clean_vfs_path p in
    let w = forget_sfv path v in
    let v₁ = drop_child path w in
    let v₂ = remove_paths path (collect_subtree path w) v₁ in
    either_way (not (has_key path v.files)) (λ (s : Vfs × Bool). Shrinks q v s.0) (v, false)
      (forget_zip path v₂, true) (inr refl)
      (Shrinks-trans q v v₂ (forget_zip path v₂)
        (Shrinks-trans q v v₁ v₂
          (inr (
            (drop_child-Keeps q path w).entry ∙ ap (lookup q) (forget_sfv-IsSameTree path v).files))
          (remove_paths-Shrinks path q (collect_subtree path w) v₁))
        (inr (ap (lookup q) (forget_zip-IsSameTree path v₂).files)))

-- The first path of the subtree is the path itself.
removed_first :
    (p : Text) (rest : List Text) (v : Vfs)
    → clean_vfs_path p ≡ p
    → lookup p (remove_paths p (p ∷ rest) v).files ≡ none
unfolding remove_paths remove_path
removed_first p rest v clean =
    let w = remove_path p p v in
    let out : lookup p w.files ≡ none =
      rw ((text_eq_iff p p).1 refl) (delete_file_entry_only-gone p v clean) in
    elim (remove_paths-Shrinks p p rest w) [ inl gone ↦ gone | inr same ↦ same ∙ out ]

pub delete_path-gone :
    (p : Text) (f : VfsFile) (v : Vfs)
    → clean_vfs_path p ≡ p
    → lookup p v.files ≡ some f
    → lookup p (delete_path p v).0.files ≡ none
unfolding delete_path collect_subtree
delete_path-gone p f v clean e =
    let w = forget_sfv p v in
    let found = (collect_from (rounds_for (longest_child w.children) w p) w (p ∷ [])).0 in
    let v₁ = drop_child p w in
    rw (clean, e)
      (ap (lookup p) (forget_zip-IsSameTree p (remove_paths p (p ∷ found) v₁)).files
        ∙ removed_first p found v₁ clean)

-- An entry of the slave that it has not confirmed, and that has not come in the last two minutes.
abbrev pub is_stale : ℤ → Text → Option VfsFile → Bool
is_stale now s none = false
is_stale now s (some f) = (text_eq f.slave_name s && not f.seen) && not (is_recent now f)

and_false_of : (a b : Bool) → ((a && false) && b) ≡ false
and_false_of a b = ground arith

foreign_settled : (a b c : Bool) → a ≡ false → ((a && b) && c) ≡ false
foreign_settled a b c h = ground arith

module _ (now : ℤ) (s : Text) where
  abbrev IsSettled : Text → Vfs → Type 0
  IsSettled q v = is_stale now s (lookup q v.files) ≡ false

  Shrinks-IsSettled : (q : Text) (v w : Vfs) → Shrinks q v w → IsSettled q v → IsSettled q w
  Shrinks-IsSettled q v w (inl out) h = ap (is_stale now s) out
  Shrinks-IsSettled q v w (inr same) h = ap (is_stale now s) same ∙ h

  unmarked :
      (f : VfsFile) → is_stale now s (some (record f { seen = true; slave_name = [] })) ≡ false
  unmarked f = and_false_of (text_eq [] s) _

  reset-IsSettled :
      (p q : Text) (f : VfsFile) (v : Vfs)
      → (text_eq p q ≡ true) ⊎ IsSettled q v
      → IsSettled q (reset_protected_dir p f v)
  unfolding reset_protected_dir
  reset-IsSettled p q f v h =
      let v' = reindex_slave_path p f.slave_name [] v in
      let g = record f { seen = true; slave_name = [] } in
      elim (Bool-cases (text_eq p q)) [
        | inl same ↦ rw (lookup-insert p q g v'.files, same) (unmarked f)
        | inr other ↦
            rw (lookup-insert p q g v'.files, other)
              (elim h [
                | inl same ↦ cc (same, other)
                | inr k ↦
                    ap (is_stale now s) (reindex_slave_path-Keeps q p f.slave_name [] v).entry ∙ k
              ])
      ]

  -- One round settles its path and leaves what is settled.
  purge_path-IsSettled :
      (p q : Text) (x : Vfs × Bool)
      → clean_vfs_path p ≡ p
      → (text_eq p q ≡ true) ⊎ IsSettled q x.0
      → IsSettled q (purge_path now s p x).0
  unfolding purge_path
  purge_path-IsSettled p q (v, changed) clean h = elim (Option-cases (lookup p v.files)) [
    | inl e ↦
        rw (e, purge_path)
          (ap (is_stale now s) (remove_slave_path-Keeps q s p v).entry ∙ elim h [
            | inl same ↦
                ap (λ y. is_stale now s (lookup y v.files)) (sym ((text_eq_iff p q).0 same))
                ∙ ap (is_stale now s) e
            | inr k ↦ k
          ])
    | inr (f, e) ↦
        rw (e, purge_path)
          (either_way (has_key p v.protected_dirs) (λ (y : Vfs × Bool). IsSettled q y.0) _ _
            (reset-IsSettled p q f v h)
            (elim (Bool-cases (is_stale now s (some f))) [
              | inl stale ↦ rw stale (elim h [
                | inl same ↦
                    subst (λ y. IsSettled y (delete_path p v).0) ((text_eq_iff p q).0 same)
                      (ap (is_stale now s) (delete_path-gone p f v clean e))
                | inr k ↦ Shrinks-IsSettled q v (delete_path p v).0 (delete_path-Shrinks p q v) k
              ])
              | inr fresh ↦ rw fresh (elim h [
                | inl same ↦
                    subst (λ y. IsSettled y v) ((text_eq_iff p q).0 same)
                      (ap (is_stale now s) e ∙ fresh)
                | inr k ↦ k
              ])
            ]))
  ]

  purge_paths-IsSettled :
      (q : Text) (ps : List Text) (x : Vfs × Bool)
      → All (λ p. clean_vfs_path p ≡ p) ps
      → IsSettled q x.0 ⊎ AnyOf (λ p. p ≡ q) ps
      → IsSettled q (purge_paths now s ps x).0
  unfolding purge_paths
  purge_paths-IsSettled q [] x ts (inl h) = h
  purge_paths-IsSettled q [] x ts (inr impossible) = absurd impossible
  purge_paths-IsSettled q (p ∷ ps) x (t, ts) h =
      purge_paths-IsSettled q ps (purge_path now s p x) ts (elim h [
        | inl k ↦ inl (purge_path-IsSettled p q x t (inr k))
        | inr (inl same) ↦ inl (purge_path-IsSettled p q x t (inl ((text_eq_iff p q).1 same)))
        | inr (inr later) ↦ inr later
      ])

  owned_stale : (o : Option VfsFile) → is_owned s o ≡ false → is_stale now s o ≡ false
  unfolding is_owned
  owned_stale none h = refl
  owned_stale (some f) h = foreign_settled (text_eq f.slave_name s) _ _ h

  pub purge_unseen-IsSettled :
      (q : Text) (v : Vfs)
      → text_eq (trim_space s) [] ≡ false
      → IsIndexed v
      → is_stale now s (lookup q (purge_unseen now s v).files) ≡ false
  unfolding purge_unseen mark_persist_dirty
  purge_unseen-IsSettled q v named h =
      let ps = paths_for_slave s v in
      let x = purge_paths now s ps (v, false) in
      let settled =
        purge_paths-IsSettled q ps (v, false) (clean_paths s v h)
          (elim (owned_listed s q v named h) [
            | inl foreign ↦ inl (owned_stale (lookup q v.files) foreign)
            | inr found ↦ inr found
          ]) in
      either_way x.1 (IsSettled q) (mark_persist_dirty x.0) x.0 settled settled
