-- ===== src/Vfs/FreedLaws.antt =====
-- PurgeUnseen and the protected directories.
use weave_ftpd.Base.{
  either_way, ◌≡◌, ◌⊎◌, inl, inr, refl, ap, ◌∙◌, subst, [], ◌∷◌, List, Bool, true, false, none,
  some, Text, text_eq, text_eq_iff, text_ne, trim_space, lookup, insert, lookup-insert_self,
  Option-cases, Bool-cases, AnyOf,
}
use weave_ftpd.Base.Int.{ℤ}
use weave_ftpd.Vfs.State.{Vfs, VfsFile, has_key}
use weave_ftpd.Vfs.Index.{reindex_slave_path, paths_for_slave, mark_persist_dirty}
use weave_ftpd.Vfs.TreeLaws.{
  Keeps, Keeps-trans, insert-Keeps, remove_slave_path-Keeps, reindex_slave_path-Keeps,
}
use weave_ftpd.Vfs.Slaves.{reset_protected_dir}
use weave_ftpd.Vfs.Clear.{is_owned}
use weave_ftpd.Vfs.ClearLaws.{owned_listed, named_ne}
use weave_ftpd.Vfs.Delete.{delete_path}
use weave_ftpd.Vfs.Purge.{purge_path, purge_paths, purge_unseen}
use weave_ftpd.Vfs.IndexedLaws.{IsIndexed}
use weave_ftpd.Vfs.PurgeLaws.{is_stale, delete_path-Shrinks}
use weave_ftpd.Vfs.DeletedLinks.{delete_path-protected}

module _ (now : ℤ) (s p : Text) where
  purge_path-protected :
      (x : Vfs × Bool) → (purge_path now s p x).0.protected_dirs ≡ x.0.protected_dirs
  unfolding purge_path reset_protected_dir
  purge_path-protected (v, changed) = elim (Option-cases (lookup p v.files)) [
    | inl e ↦ rw (e, purge_path) (remove_slave_path-Keeps p s p v).protected
    | inr (f, e) ↦
        let same = λ (y : Vfs × Bool). y.0.protected_dirs ≡ v.protected_dirs in
        rw (e, purge_path)
          (either_way (has_key p v.protected_dirs) same _ _
            (reindex_slave_path-Keeps p p f.slave_name [] v).protected
            (either_way (is_stale now s (some f)) same _ _ (delete_path-protected p v) refl))
  ]

module _ (now : ℤ) (s q : Text) where
  -- The path is protected, and its entry is not the slave's.
  record IsFreed (v : Vfs) : Type 0 where
    protected : has_key q v.protected_dirs ≡ true
    free : is_owned s (lookup q v.files) ≡ false

  IsFreed-of_Keeps : (v w : Vfs) → Keeps q v w → IsFreed v → IsFreed w
  IsFreed-of_Keeps v w k h = record {
    protected = ap (has_key q) k.protected ∙ h.protected;
    free = ap (is_owned s) k.entry ∙ h.free;
  }

  delete_path-IsFreed : (p : Text) (v : Vfs) → IsFreed v → IsFreed (delete_path p v).0
  unfolding is_owned
  delete_path-IsFreed p v h = record {
    protected = ap (has_key q) (delete_path-protected p v) ∙ h.protected;
    free = elim (delete_path-Shrinks p q v) [
      | inl out ↦ ap (is_owned s) out
      | inr same ↦ ap (is_owned s) same ∙ h.free
    ];
  }

  module _ (named : text_eq (trim_space s) [] ≡ false) where
    reset-IsFreed :
        (p : Text) (f : VfsFile) (v : Vfs)
        → has_key q v.protected_dirs ≡ true
        → (p ≡ q) ⊎ IsFreed v
        → IsFreed (reset_protected_dir p f v)
    unfolding reset_protected_dir is_owned
    reset-IsFreed p f v b h =
        let w = reindex_slave_path p f.slave_name [] v in
        let k = reindex_slave_path-Keeps q p f.slave_name [] v in
        let g : VfsFile = record f { seen = true; slave_name = [] } in
        elim (Bool-cases (text_eq p q)) [
          | inl same ↦ record {
            protected = ap (has_key q) k.protected ∙ b;
            free =
                ap (is_owned s) (
                  subst (λ d. lookup d (insert p g w.files) ≡ some g) ((text_eq_iff p q).0 same)
                    (lookup-insert_self p g w.files))
                ∙ named_ne s named;
          }
          | inr other ↦ elim h [
            | inl same ↦ absurd (text_ne p q other same)
            | inr d ↦
                IsFreed-of_Keeps v _
                  (Keeps-trans q v w _ k (insert-Keeps q p g w (text_ne p q other))) d
          ]
        ]

    -- One round frees its path and leaves what is free.
    purge_path-IsFreed :
        (p : Text) (x : Vfs × Bool)
        → has_key q x.0.protected_dirs ≡ true
        → (p ≡ q) ⊎ IsFreed x.0
        → IsFreed (purge_path now s p x).0
    unfolding purge_path is_owned
    purge_path-IsFreed p (v, changed) b h = elim (Option-cases (lookup p v.files)) [
      | inl e ↦
          let k = remove_slave_path-Keeps q s p v in
          rw (e, purge_path)
            (IsFreed-of_Keeps v _ k (elim h [
              | inl same ↦ record {
                protected = b;
                free = ap (is_owned s) (subst (λ d. lookup d v.files ≡ none) same e);
              }
              | inr d ↦ d
            ]))
      | inr (f, e) ↦ elim (Bool-cases (has_key p v.protected_dirs)) [
        | inl k ↦ rw (e, purge_path, k) (reset-IsFreed p f v b h)
        | inr k ↦ elim h [
          | inl same ↦ cc (subst (λ d. has_key d v.protected_dirs ≡ false) same k, b)
          | inr d ↦
              rw (e, purge_path, k)
                (either_way (is_stale now s (some f)) (λ (y : Vfs × Bool). IsFreed y.0) _ _
                  (delete_path-IsFreed p v d) d)
        ]
      ]
    ]

    purge_paths-IsFreed :
        (ps : List Text) (x : Vfs × Bool)
        → has_key q x.0.protected_dirs ≡ true
        → IsFreed x.0 ⊎ AnyOf (λ p. p ≡ q) ps
        → IsFreed (purge_paths now s ps x).0
    unfolding purge_paths
    purge_paths-IsFreed [] x b (inl h) = h
    purge_paths-IsFreed [] x b (inr impossible) = absurd impossible
    purge_paths-IsFreed (p ∷ ps) x b h =
        purge_paths-IsFreed ps (purge_path now s p x)
          (ap (has_key q) (purge_path-protected now s p x) ∙ b)
          (elim h [
            | inl d ↦ inl (purge_path-IsFreed p x b (inr d))
            | inr (inl same) ↦ inl (purge_path-IsFreed p x b (inl same))
            | inr (inr later) ↦ inr later
          ])

    -- No protected directory is left to the slave.
    pub purge_unseen-frees :
        (v : Vfs)
        → IsIndexed v
        → has_key q v.protected_dirs ≡ true
        → is_owned s (lookup q (purge_unseen now s v).files) ≡ false
    unfolding purge_unseen mark_persist_dirty
    purge_unseen-frees v h b =
        let ps = paths_for_slave s v in
        let x = purge_paths now s ps (v, false) in
        let freed =
          purge_paths-IsFreed ps (v, false) b
            (elim (owned_listed s q v named h) [
              | inl foreign ↦ inl (record { protected = b; free = foreign })
              | inr found ↦ inr found
            ]) in
        either_way x.1 (λ w. is_owned s (lookup q w.files) ≡ false) (mark_persist_dirty x.0) x.0
          freed.free freed.free
