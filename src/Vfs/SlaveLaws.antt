-- ===== src/Vfs/SlaveLaws.antt =====
-- The laws of MarkAllUnseen: what it may change of an entry.
use weave_ftpd.Base.{
  ◌≡◌, ◌⊎◌, inl, inr, refl, ◌∙◌, subst, List, [], ◌∷◌, Bool, true, false, Option, none, some, Text,
  text_eq, text_eq_iff, text_ne, lookup, insert, lookup-insert_self, Bool-cases, Option-cases,
}
use weave_ftpd.Vfs.State.{Vfs, VfsFile, has_key}
use weave_ftpd.Vfs.Index.{reindex_slave_path, paths_for_slave}
use weave_ftpd.Vfs.Slaves.{reset_protected_dir, mark_unseen, mark_paths_unseen, mark_all_unseen}
use weave_ftpd.Vfs.TreeLaws.{Keeps, insert-Keeps, reindex_slave_path-Keeps, remove_slave_path-Keeps}

-- What may become of an entry: of a protected path, it is kept or loses its slave and is seen; of
-- another path, it is kept or, if it is of this slave, is not seen.
unfoldable pub Marked : Text → Bool → Option VfsFile → Option VfsFile → Type 0
Marked s protected none after = after ≡ none
Marked s true (some f) after =
    (after ≡ some f) ⊎ (after ≡ some (record f { seen = true; slave_name = [] }))
Marked s false (some f) after =
    (after ≡ some f)
    ⊎ ((text_eq f.slave_name s ≡ true) × (after ≡ some (record f { seen = false })))

Marked-refl : (s : Text) (b : Bool) (o : Option VfsFile) → Marked s b o o
unfolding Marked
Marked-refl s b none = refl
Marked-refl s true (some f) = inl refl
Marked-refl s false (some f) = inl refl

Marked-trans :
    (s : Text) (b : Bool) (o p q : Option VfsFile)
    → Marked s b o p
    → Marked s b p q
    → Marked s b o q
unfolding Marked
Marked-trans s b none p q h k = subst (λ x. Marked s b x q) h k
Marked-trans s true (some f) p q (inl h) k = subst (λ x. Marked s true x q) h k
Marked-trans s true (some f) p q (inr h) k = elim (subst (λ x. Marked s true x q) h k) [
  | inl e ↦ inr e
  | inr e ↦ inr e
]
Marked-trans s false (some f) p q (inl h) k = subst (λ x. Marked s false x q) h k
Marked-trans s false (some f) p q (inr (own, h)) k = elim (subst (λ x. Marked s false x q) h k) [
  | inl e ↦ inr (own, e)
  | inr (own', e) ↦ inr (own, e)
]

-- One step of the loop, for one path.
record Step (s q : Text) (v w : Vfs) : Type 0 where
  marked : Marked s (has_key q v.protected_dirs) (lookup q v.files) (lookup q w.files)
  protected : w.protected_dirs ≡ v.protected_dirs

module _ (s q : Text) where
  Step-of_Keeps : (v w : Vfs) → Keeps q v w → Step s q v w
  Step-of_Keeps v w k = record {
    marked = rw (k.entry) (Marked-refl s (has_key q v.protected_dirs) (lookup q v.files));
    protected = k.protected;
  }

  Step-trans : (u v w : Vfs) → Step s q u v → Step s q v w → Step s q u w
  Step-trans u v w h k = record {
    marked = Marked-trans s _ _ _ _ h.marked (
        subst (λ d. Marked s (has_key q d) (lookup q v.files) (lookup q w.files)) h.protected
          k.marked);
    protected = k.protected ∙ h.protected;
  }

  reset-Step :
      (path : Text) (f : VfsFile) (v : Vfs)
      → lookup path v.files ≡ some f
      → has_key path v.protected_dirs ≡ true
      → Step s q v (reset_protected_dir path f v)
  unfolding reset_protected_dir Marked
  reset-Step path f v e b =
      let k = reindex_slave_path-Keeps q path f.slave_name [] v in
      let w = reindex_slave_path path f.slave_name [] v in
      let g : VfsFile = record f { seen = true; slave_name = [] } in
      elim (Bool-cases (text_eq path q)) [
        | inl same ↦ record {
          marked =
              subst
                (λ d.
                  Marked s (has_key d v.protected_dirs) (lookup d v.files)
                    (lookup d (insert path g w.files)))
                ((text_eq_iff path q).0 same) (rw (b, e) (inr (lookup-insert_self path g w.files)));
          protected = k.protected;
        }
        | inr other ↦
            Step-trans v w _ (Step-of_Keeps v w k)
              (Step-of_Keeps w _ (insert-Keeps q path g w (text_ne path q other)))
      ]

  unseen-Step :
      (path : Text) (f : VfsFile) (v : Vfs)
      → lookup path v.files ≡ some f
      → has_key path v.protected_dirs ≡ false
      → text_eq f.slave_name s ≡ true
      → Step s q v (record v { files = insert path (record f { seen = false }) v.files })
  unfolding Marked
  unseen-Step path f v e b own =
      let g : VfsFile = record f { seen = false } in
      elim (Bool-cases (text_eq path q)) [
        | inl same ↦ record {
          marked =
              subst
                (λ d.
                  Marked s (has_key d v.protected_dirs) (lookup d v.files)
                    (lookup d (insert path g v.files)))
                ((text_eq_iff path q).0 same)
                (rw (b, e) (inr (own, lookup-insert_self path g v.files)));
          protected = refl;
        }
        | inr other ↦ Step-of_Keeps v _ (insert-Keeps q path g v (text_ne path q other))
      ]

  mark_unseen-Step : (path : Text) (v : Vfs) → Step s q v (mark_unseen s path v)
  unfolding mark_unseen
  mark_unseen-Step path v = elim (Option-cases (lookup path v.files)) [
    | inl e ↦ rw (e, mark_unseen) (Step-of_Keeps v _ (remove_slave_path-Keeps q s path v))
    | inr (f, e) ↦ elim (Bool-cases (has_key path v.protected_dirs)) [
      | inl b ↦ rw (e, mark_unseen, b) (reset-Step path f v e b)
      | inr b ↦ elim (Bool-cases (text_eq f.slave_name s)) [
        | inl own ↦ rw (e, mark_unseen, b, own) (unseen-Step path f v e b own)
        | inr foreign ↦
            rw (e, mark_unseen, b, foreign)
              (record { marked = Marked-refl s _ (lookup q v.files); protected = refl })
      ]
    ]
  ]

  mark_paths_unseen-Step : (paths : List Text) (v : Vfs) → Step s q v (mark_paths_unseen s paths v)
  unfolding mark_paths_unseen
  mark_paths_unseen-Step [] v = record {
    marked = Marked-refl s _ (lookup q v.files);
    protected = refl;
  }
  mark_paths_unseen-Step (path ∷ rest) v =
      Step-trans v (mark_unseen s path v) _ (mark_unseen-Step path v)
        (mark_paths_unseen-Step rest (mark_unseen s path v))

-- MarkAllUnseen adds and removes no entry. The entry of a protected path it keeps, or takes its slave
-- from it and marks it as seen; of the entries of other paths it changes only those of this slave,
-- and marks these as not seen.
pub mark_all_unseen-Marked :
    (slave_name : Text) (v : Vfs) (q : Text)
    → Marked slave_name
        (has_key q v.protected_dirs)
        (lookup q v.files)
        (lookup q (mark_all_unseen slave_name v).files)
unfolding mark_all_unseen
mark_all_unseen-Marked slave_name v q =
    (mark_paths_unseen-Step slave_name q (paths_for_slave slave_name v) v).marked

pub mark_all_unseen-protected :
    (slave_name : Text) (v : Vfs) → (mark_all_unseen slave_name v).protected_dirs ≡ v.protected_dirs
unfolding mark_all_unseen
mark_all_unseen-protected slave_name v =
    (mark_paths_unseen-Step slave_name [] (paths_for_slave slave_name v) v).protected
