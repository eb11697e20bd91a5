-- ===== src/Vfs/IndexLaws.antt =====
-- The slave index: which paths the operations on it list.
use weave_ftpd.Base.{
  ◌≡◌, ◌≢◌, ◌⊎◌, refl, sym, ap, ◌∙◌, subst, [], ◌∷◌, Bool, true, false, ◌||◌, if◌then◌else◌, Text,
  text_eq, text_eq_iff, text_eq_of_ne, trim_space, lookup, insert, delete, lookup-insert,
  lookup-delete, is_some, Dict, Bool-cases, Option-cases, inl, inr, arith,
}
use weave_ftpd.Vfs.Paths.{clean_vfs_path}
use weave_ftpd.Vfs.State.{TextSet, Vfs}
use weave_ftpd.Vfs.Index.{
  set_or_empty, slave_set, put_set, add_slave_path, remove_slave_path, reindex_slave_path,
}

-- The index lists the path `q` for the slave.
unfoldable pub is_indexed : Text → Text → Vfs → Bool
is_indexed s q v = is_some (lookup q (slave_set s v))

no_member : (q : Text) → is_some (lookup {V = Unit {0}} q []) ≡ false
unfolding lookup
no_member q = refl

lookup-put_set :
    (s t q : Text) (set : TextSet) (m : Dict TextSet)
    → is_some (lookup q (set_or_empty (lookup t (put_set s set m)))) ≡ (
        if text_eq s t
        then is_some (lookup q set)
        else is_some (lookup q (set_or_empty (lookup t m))))
unfolding put_set lookup
lookup-put_set s t q [] m = elim (Bool-cases (text_eq s t)) [
  | inl same ↦ rw (lookup-delete s t m, same) refl
  | inr other ↦ rw (lookup-delete s t m, other) refl
]
lookup-put_set s t q (p ∷ ps) m = elim (Bool-cases (text_eq s t)) [
  | inl same ↦ rw (lookup-insert s t (p ∷ ps) m, same) refl
  | inr other ↦ rw (lookup-insert s t (p ∷ ps) m, other) refl
]

add_member :
    (p q : Text) (set : TextSet)
    → is_some (lookup q (insert p tt set)) ≡ (text_eq p q || is_some (lookup q set))
add_member p q set = elim (Bool-cases (text_eq p q)) [
  | inl same ↦ rw (lookup-insert p q tt set, same) refl
  | inr other ↦ rw (lookup-insert p q tt set, other) refl
]

keep_member :
    (p q : Text) (set : TextSet)
    → p ≢ q
    → is_some (lookup q (delete p set)) ≡ is_some (lookup q set)
keep_member p q set other = rw (lookup-delete p q set, text_eq_of_ne p q other) refl

or_true : (b : Bool) → (b || true) ≡ true
or_true b = ground arith

insert-kept :
    (s t c q : Text) (m : Dict TextSet)
    → is_some (lookup q (set_or_empty (lookup t m))) ≡ true
    → is_some
        (lookup q (set_or_empty (lookup t (insert s (insert c tt (set_or_empty (lookup s m))) m))))
      ≡ true
insert-kept s t c q m h = elim (Bool-cases (text_eq s t)) [
  | inl same ↦
      rw (lookup-insert s t (insert c tt (set_or_empty (lookup s m))) m, same)
        (add_member c q (set_or_empty (lookup s m))
          ∙ rw ((text_eq_iff s t).0 same, h) (or_true (text_eq c q)))
  | inr other ↦ rw (lookup-insert s t (insert c tt (set_or_empty (lookup s m))) m, other) h
]

insert-listed :
    (s c : Text) (m : Dict TextSet)
    → is_some
        (lookup c (set_or_empty (lookup s (insert s (insert c tt (set_or_empty (lookup s m))) m))))
      ≡ true
insert-listed s c m =
    rw (lookup-insert s s (insert c tt (set_or_empty (lookup s m))) m, (text_eq_iff s s).1 refl)
      (add_member c c (set_or_empty (lookup s m)) ∙ rw ((text_eq_iff c c).1 refl) refl)

module _ (s q : Text) where
  -- Adding a path removes none.
  pub add_slave_path-kept :
      (n p : Text) (v : Vfs)
      → is_indexed s q v ≡ true
      → is_indexed s q (add_slave_path n p v) ≡ true
  unfolding add_slave_path is_indexed slave_set
  add_slave_path-kept n p v h = elim (Bool-cases (text_eq (trim_space n) [])) [
    | inl blank ↦ rw blank h
    | inr named ↦ rw named (insert-kept (trim_space n) s (clean_vfs_path p) q v.slave_paths h)
  ]

  -- Removing a path removes no other.
  pub remove_slave_path-kept :
      (n p : Text) (v : Vfs)
      → clean_vfs_path p ≢ q
      → is_indexed s q v ≡ true
      → is_indexed s q (remove_slave_path n p v) ≡ true
  unfolding remove_slave_path is_indexed slave_set
  remove_slave_path-kept n p v other h = elim (Bool-cases (text_eq (trim_space n) [])) [
    | inl blank ↦ rw blank h
    | inr named ↦ elim (Option-cases (lookup (trim_space n) v.slave_paths)) [
      | inl unknown ↦ rw (named, unknown) h
      | inr (paths, e) ↦
          rw (named, e)
            (lookup-put_set (trim_space n) s q (delete (clean_vfs_path p) paths) v.slave_paths
              ∙ elim (Bool-cases (text_eq (trim_space n) s)) [
                | inl same ↦ rw (same) (
                    keep_member (clean_vfs_path p) q paths other
                    ∙ (ap (λ o. is_some (lookup q (set_or_empty o)))
                          (sym e
                            ∙ ap (λ t. lookup t v.slave_paths)
                                ((text_eq_iff (trim_space n) s).0 same))
                        ∙ h))
                | inr differs ↦ rw differs h
              ])
    ]
  ]

pub add_slave_path-listed :
    (n p : Text) (v : Vfs)
    → text_eq (trim_space n) [] ≡ false
    → is_indexed (trim_space n) (clean_vfs_path p) (add_slave_path n p v) ≡ true
unfolding add_slave_path is_indexed slave_set
add_slave_path-listed n p v named =
    rw named (insert-listed (trim_space n) (clean_vfs_path p) v.slave_paths)

pub reindex_slave_path-listed :
    (p old new : Text) (v : Vfs)
    → text_eq (trim_space new) [] ≡ false
    → is_indexed (trim_space new) (clean_vfs_path p) (reindex_slave_path p old new v) ≡ true
unfolding reindex_slave_path
reindex_slave_path-listed p old new v named =
    elim (Bool-cases (text_eq (trim_space old) (trim_space new))) [
      | inl same ↦ rw same (add_slave_path-listed new p v named)
      | inr differs ↦ rw differs (add_slave_path-listed new p (remove_slave_path old p v) named)
    ]

insert-only :
    (s t c q : Text) (m : Dict TextSet)
    → is_some
        (lookup q (set_or_empty (lookup t (insert s (insert c tt (set_or_empty (lookup s m))) m))))
      ≡ true
    → (is_some (lookup q (set_or_empty (lookup t m))) ≡ true) ⊎ (c ≡ q)
insert-only s t c q m h = elim (Bool-cases (text_eq s t)) [
  | inl same ↦ elim (Bool-cases (text_eq c q)) [
    | inl here ↦ inr ((text_eq_iff c q).0 here)
    | inr there ↦ inl (
        subst (λ x. is_some (lookup q (set_or_empty (lookup x m))) ≡ true)
          ((text_eq_iff s t).0 same)
          (rw
            (
              lookup-insert s t (insert c tt (set_or_empty (lookup s m))) m,
              same,
              add_member c q (set_or_empty (lookup s m)),
              there,
            )
            at h))
  ]
  | inr other ↦ inl (rw (lookup-insert s t (insert c tt (set_or_empty (lookup s m))) m, other) at h)
]

drop_member :
    (p q : Text) (set : TextSet)
    → is_some (lookup q (delete p set)) ≡ true
    → is_some (lookup q set) ≡ true
drop_member p q set h = elim (Bool-cases (text_eq p q)) [
  | inl same ↦ cc (rw (lookup-delete p q set, same) at h)
  | inr other ↦ rw (lookup-delete p q set, other) at h
]

-- What an operation on the index may change: only what it lists of the path `p`.
pub record Relists (p : Text) (v w : Vfs) : Type 0 where
  pub kept : (s q : Text) → p ≢ q → is_indexed s q v ≡ true → is_indexed s q w ≡ true
  pub only : (s q : Text) → is_indexed s q w ≡ true → (is_indexed s q v ≡ true) ⊎ (p ≡ q)

pub Relists-of_same : (p : Text) (v w : Vfs) → w.slave_paths ≡ v.slave_paths → Relists p v w
unfolding is_indexed slave_set
Relists-of_same p v w e = record { kept = λ s q n h. rw e h; only = λ s q h. inl (rw e at h) }

pub Relists-trans : (p : Text) (u v w : Vfs) → Relists p u v → Relists p v w → Relists p u w
Relists-trans p u v w h k = record {
  kept = λ s q n i. k.kept s q n (h.kept s q n i);
  only = λ s q i. elim (k.only s q i) [ inl j ↦ h.only s q j | inr e ↦ inr e ];
}

pub add_slave_path-Relists :
    (n p : Text) (v : Vfs) → clean_vfs_path p ≡ p → Relists p v (add_slave_path n p v)
unfolding add_slave_path is_indexed slave_set
add_slave_path-Relists n p v tidy = record {
  kept = λ s q other h. add_slave_path-kept s q n p v h;
  only = λ s q h. elim (Bool-cases (text_eq (trim_space n) [])) [
    | inl blank ↦ inl (rw blank at h)
    | inr named ↦ insert-only (trim_space n) s p q v.slave_paths (rw (named, tidy) at h)
  ];
}

remove_slave_path-only :
    (n p s q : Text) (v : Vfs)
    → is_indexed s q (remove_slave_path n p v) ≡ true
    → is_indexed s q v ≡ true
unfolding remove_slave_path is_indexed slave_set
remove_slave_path-only n p s q v h = elim (Bool-cases (text_eq (trim_space n) [])) [
  | inl blank ↦ rw blank at h
  | inr named ↦ elim (Option-cases (lookup (trim_space n) v.slave_paths)) [
    | inl unknown ↦ rw (named, unknown, remove_slave_path) at h
    | inr (paths, e) ↦
        let c = clean_vfs_path p in
        let k =
          sym (lookup-put_set (trim_space n) s q (delete c paths) v.slave_paths)
          ∙ rw (named, e, remove_slave_path) at h in
        elim (Bool-cases (text_eq (trim_space n) s)) [
          | inl same ↦
              ap (λ o. is_some (lookup q (set_or_empty o)))
                (ap (λ t. lookup t v.slave_paths) (sym ((text_eq_iff (trim_space n) s).0 same)) ∙ e)
              ∙ drop_member c q paths (rw same at k)
          | inr differs ↦ rw differs at k
        ]
  ]
]

pub remove_slave_path-Relists :
    (n p : Text) (v : Vfs) → clean_vfs_path p ≡ p → Relists p v (remove_slave_path n p v)
remove_slave_path-Relists n p v tidy = record {
  kept = λ s q other h. remove_slave_path-kept s q n p v (λ e. other (sym tidy ∙ e)) h;
  only = λ s q h. inl (remove_slave_path-only n p s q v h);
}

pub reindex_slave_path-Relists :
    (p old new : Text) (v : Vfs)
    → clean_vfs_path p ≡ p
    → Relists p v (reindex_slave_path p old new v)
unfolding reindex_slave_path
reindex_slave_path-Relists p old new v tidy =
    elim (Bool-cases (text_eq (trim_space old) (trim_space new))) [
      | inl same ↦ rw same (add_slave_path-Relists new p v tidy)
      | inr differs ↦ rw differs (
          Relists-trans p v (remove_slave_path old p v) _ (remove_slave_path-Relists old p v tidy)
            (add_slave_path-Relists new p (remove_slave_path old p v) tidy))
    ]

-- Removing a path for one slave changes nothing for another.
pub remove_slave_path-other :
    (n t p q : Text) (v : Vfs)
    → text_eq (trim_space n) t ≡ false
    → is_indexed t q (remove_slave_path n p v) ≡ is_indexed t q v
unfolding remove_slave_path is_indexed slave_set
remove_slave_path-other n t p q v other = elim (Bool-cases (text_eq (trim_space n) [])) [
  | inl blank ↦ rw blank refl
  | inr named ↦ elim (Option-cases (lookup (trim_space n) v.slave_paths)) [
    | inl unknown ↦ rw (named, unknown) refl
    | inr (paths, e) ↦
        rw (named, e)
          (lookup-put_set (trim_space n) t q (delete (clean_vfs_path p) paths) v.slave_paths
            ∙ rw other refl)
  ]
]
