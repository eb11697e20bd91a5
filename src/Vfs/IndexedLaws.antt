-- ===== src/Vfs/IndexedLaws.antt =====
-- The agreement of the slave index with the entries, and single steps at one path.
use weave_ftpd.Base.{
  ◌≡◌, ◌≢◌, ◌⊎◌, inl, inr, refl, sym, ap, ◌∙◌, subst, [], Bool, true, false, ◌||◌, Option, none,
  some, Text, text_eq, text_eq_iff, text_ne, trim_space, lookup, insert, lookup-insert_self,
  Bool-cases, arith,
}
use weave_ftpd.Vfs.Paths.{clean_vfs_path}
use weave_ftpd.Vfs.PathLaws.{IsTidyPath, clean_vfs_path-IsTidyPath}
use weave_ftpd.Vfs.State.{Vfs, VfsFile, made_dir}
use weave_ftpd.Vfs.Index.{add_slave_path, reindex_slave_path, slave_set}
use weave_ftpd.Vfs.IndexLaws.{
  is_indexed, Relists, Relists-of_same, Relists-trans, reindex_slave_path-Relists,
  reindex_slave_path-listed,
}
use weave_ftpd.Vfs.TreeLaws.{Keeps, insert-Keeps, reindex_slave_path-Keeps}

-- The entry stands under a tidy path and, if it has a slave, the index lists the path for it; the
-- slave's name has no white space at its ends.
unfoldable pub Listed : Text → Option VfsFile → Vfs → Type 0
Listed q none v = Unit
Listed q (some f) v =
    IsTidyPath q
    × (trim_space f.slave_name ≡ f.slave_name)
    × ((text_eq (trim_space f.slave_name) [] || is_indexed (trim_space f.slave_name) q v) ≡ true)

-- The index covers all entries, and lists clean paths only.
pub record IsIndexed (v : Vfs) : Type 0 where
  pub entries : (q : Text) → Listed q (lookup q v.files) v
  pub paths : (s q : Text) → (is_indexed s q v ≡ false) ⊎ (clean_vfs_path q ≡ q)

or_intro : (a b : Bool) → (a ≡ true) ⊎ (b ≡ true) → (a || b) ≡ true
or_intro a b h = ground arith

Listed-kept :
    (q : Text) (o : Option VfsFile) (v w : Vfs)
    → ((s : Text) → is_indexed s q v ≡ true → is_indexed s q w ≡ true)
    → Listed q o v
    → Listed q o w
unfolding Listed
Listed-kept q none v w k h = tt
Listed-kept q (some f) v w k (c, n, h) = (
  c,
  n,
  elim (Bool-cases (text_eq (trim_space f.slave_name) [])) [
    | inl blank ↦ rw blank refl
    | inr named ↦ rw named (k (trim_space f.slave_name) (rw named at h))
  ],
)

-- A step at one clean path.
pub IsIndexed-of_step :
    (p : Text) (v w : Vfs)
    → clean_vfs_path p ≡ p
    → Relists p v w
    → ((q : Text) → p ≢ q → lookup q w.files ≡ lookup q v.files)
    → Listed p (lookup p w.files) w
    → IsIndexed v
    → IsIndexed w
IsIndexed-of_step p v w tidy r others here h = record {
  entries = λ q. elim (Bool-cases (text_eq p q)) [
    | inl same ↦ subst (λ x. Listed x (lookup x w.files) w) ((text_eq_iff p q).0 same) here
    | inr differs ↦
        let n = text_ne p q differs in
        subst (λ o. Listed q o w) (sym (others q n))
          (Listed-kept q (lookup q v.files) v w (λ s i. r.kept s q n i) (h.entries q))
  ];
  paths = λ s q. elim (Bool-cases (is_indexed s q w)) [
    | inr out ↦ inl out
    | inl listed ↦ elim (r.only s q listed) [
      | inr e ↦ inr (subst (λ x. clean_vfs_path x ≡ x) e tidy)
      | inl before ↦ elim (h.paths s q) [ inl out ↦ cc (out, before) | inr c ↦ inr c ]
    ]
  ];
}

same_index :
    (s q : Text) (v w : Vfs) → w.slave_paths ≡ v.slave_paths → is_indexed s q w ≡ is_indexed s q v
unfolding is_indexed slave_set
same_index s q v w e = rw e refl

-- A step that leaves the entries and the index alone.
pub IsIndexed-of_same :
    (v w : Vfs)
    → ((q : Text) → Keeps q v w)
    → w.slave_paths ≡ v.slave_paths
    → IsIndexed v
    → IsIndexed w
IsIndexed-of_same v w k e h = record {
  entries = λ q.
      subst (λ o. Listed q o w) (sym (k q).entry)
        (Listed-kept q (lookup q v.files) v w (λ s i. same_index s q v w e ∙ i) (h.entries q));
  paths = λ s q. elim (h.paths s q) [ inl out ↦ inl (same_index s q v w e ∙ out) | inr c ↦ inr c ];
}

inserted :
    (p : Text) (g : VfsFile) (v : Vfs)
    → IsTidyPath p
    → trim_space g.slave_name ≡ g.slave_name
    → (text_eq (trim_space g.slave_name) [] || is_indexed (trim_space g.slave_name) p v) ≡ true
    → IsIndexed v
    → IsIndexed (record v { files = insert p g v.files })
unfolding Listed is_indexed slave_set
inserted p g v tidy name owned h =
    let w : Vfs = record v { files = insert p g v.files } in
    IsIndexed-of_step p v w (clean_vfs_path-IsTidyPath p tidy) (Relists-of_same p v w refl)
      (λ q n. (insert-Keeps q p g v n).entry)
      (subst (λ o. Listed p o w) (sym (lookup-insert_self p g v.files)) (tidy, name, owned)) h

pub entry_there :
    (p : Text) (f : VfsFile) (v : Vfs)
    → lookup p v.files ≡ some f
    → IsIndexed v
    → Listed p (some f) v
entry_there p f v e h = subst (λ o. Listed p o v) e (h.entries p)

pub tidy_there :
    (p : Text) (f : VfsFile) (v : Vfs) → lookup p v.files ≡ some f → IsIndexed v → IsTidyPath p
unfolding Listed
tidy_there p f v e h = (entry_there p f v e h).0

-- An entry that is replaced by one of the same slave.
pub update-IsIndexed :
    (p : Text) (f g : VfsFile) (v : Vfs)
    → lookup p v.files ≡ some f
    → g.slave_name ≡ f.slave_name
    → IsIndexed v
    → IsIndexed (record v { files = insert p g v.files })
unfolding Listed
update-IsIndexed p f g v e same h =
    let there = entry_there p f v e h in
    inserted p g v there.0 (ap trim_space same ∙ (there.1 ∙ sym same)) (rw same there.2) h

pub trim_nil : trim_space [] ≡ []
unfolding trim_space
trim_nil = refl

-- An entry without a slave may stand under any clean path.
pub blank-IsIndexed :
    (p : Text) (g : VfsFile) (v : Vfs)
    → IsTidyPath p
    → g.slave_name ≡ []
    → IsIndexed v
    → IsIndexed (record v { files = insert p g v.files })
blank-IsIndexed p g v tidy blank h =
    inserted p g v tidy (rw blank trim_nil) (rw (blank, trim_nil, (text_eq_iff [] []).1 refl) refl)
      h

-- The entry is stored, then the index is told.
pub reindexed-IsIndexed :
    (p old : Text) (f : VfsFile) (v : Vfs)
    → IsTidyPath p
    → trim_space f.slave_name ≡ f.slave_name
    → IsIndexed v
    → IsIndexed (reindex_slave_path p old f.slave_name (record v { files = insert p f v.files }))
unfolding Listed is_indexed slave_set
reindexed-IsIndexed p old f v tidy name h =
    let clean = clean_vfs_path-IsTidyPath p tidy in
    let v' : Vfs = record v { files = insert p f v.files } in
    let w = reindex_slave_path p old f.slave_name v' in
    IsIndexed-of_step p v w clean
      (Relists-trans p v v' w (Relists-of_same p v v' refl)
        (reindex_slave_path-Relists p old f.slave_name v' clean))
      (λ q n.
        (reindex_slave_path-Keeps q p old f.slave_name v').entry ∙ (insert-Keeps q p f v n).entry)
      (subst (λ o. Listed p o w)
        (sym (
          (reindex_slave_path-Keeps p p old f.slave_name v').entry
          ∙ lookup-insert_self p f v.files))
        (
          tidy,
          name,
          elim (Bool-cases (text_eq (trim_space f.slave_name) [])) [
            | inl blank ↦ rw blank refl
            | inr named ↦ or_intro _ _ (
                inr (
                  subst (λ x. is_indexed (trim_space f.slave_name) x w ≡ true) clean
                    (reindex_slave_path-listed p old f.slave_name v' named)))
          ],
        ))
      h

pub made_dir-IsIndexed :
    (s d : Text) (v : Vfs)
    → IsTidyPath d
    → trim_space s ≡ s
    → IsIndexed v
    → IsIndexed (add_slave_path s d (record v { files = insert d (made_dir d s) v.files }))
unfolding reindex_slave_path
made_dir-IsIndexed s d v tidy name h =
    rw (reindex_slave_path, (text_eq_iff (trim_space s) (trim_space s)).1 refl) at
      (reindexed-IsIndexed d s (made_dir d s) v tidy name h)
