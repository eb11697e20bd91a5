-- ===== src/Vfs/LinkLaws.antt =====
-- The links from directories to their entries, and what the operations on them change.
use weave_ftpd.Base.{
  ◌≡◌, ◌≢◌, ◌⊎◌, ◌<◌, inl, inr, refl, sym, ap, ◌∙◌, [], List, Bool, true, false, ◌&&◌, ◌||◌, not,
  none, some, Text, text_eq, text_eq_iff, lookup, insert, delete, lookup-insert, lookup-delete,
  is_some, Dict, Bool-cases, Option-cases, arith, length, AnyOf,
}
use weave_ftpd.Vfs.Paths.{clean_vfs_path, parent}
use weave_ftpd.Vfs.State.{TextSet, Vfs, VfsFile}
use weave_ftpd.GoPath.Clean.{slash}
use weave_ftpd.Vfs.PathLaws.{IsTidyPath}
use weave_ftpd.Vfs.Index.{set_or_empty}
use weave_ftpd.Vfs.Tree.{child_set, ensure_children_bucket, link_child}
use weave_ftpd.Vfs.Clear.{drop_child}

-- The set of `d` holds `c`.
unfoldable pub is_child : Text → Text → Vfs → Bool
is_child d c v = is_some (lookup c (child_set d v))

pub is_child_of_same :
    (d c : Text) (v w : Vfs) → w.children ≡ v.children → is_child d c w ≡ is_child d c v
unfolding is_child child_set
is_child_of_same d c v w e = rw e refl

nothing_in : (c : Text) → is_some (lookup {V = Unit {0}} c []) ≡ false
unfolding lookup
nothing_in c = refl

-- An empty set is made where there is none.
pub is_child-bucket :
    (d c b : Text) (v : Vfs) → is_child d c (ensure_children_bucket b v) ≡ is_child d c v
unfolding is_child child_set ensure_children_bucket
is_child-bucket d c b v =
    let p = clean_vfs_path b in
    elim (Option-cases (lookup p v.children)) [
      | inr (set, e) ↦ rw e refl
      | inl e ↦ rw e (elim (Bool-cases (text_eq p d)) [
        | inr other ↦ rw (lookup-insert p d [] v.children, other) refl
        | inl same ↦
            rw (lookup-insert p d [] v.children, same)
              (sym (
                ap (λ o. is_some (lookup c (set_or_empty o)))
                  (ap (λ x. lookup x v.children) (sym ((text_eq_iff p d).0 same)) ∙ e)))
      ])
    ]

and_none : (a : Bool) → (a && false) ≡ false
and_none a = ground arith

add_to_set :
    (d c p q : Text) (m : Dict TextSet)
    → is_some
        (lookup c (set_or_empty (lookup d (insert p (insert q tt (set_or_empty (lookup p m))) m))))
      ≡ ((text_eq p d && text_eq q c) || is_some (lookup c (set_or_empty (lookup d m))))
add_to_set d c p q m = elim (Bool-cases (text_eq p d)) [
  | inr other ↦ rw (lookup-insert p d (insert q tt (set_or_empty (lookup p m))) m, other) refl
  | inl same ↦
      rw
        (
          lookup-insert p d (insert q tt (set_or_empty (lookup p m))) m,
          same,
          (text_eq_iff p d).0 same,
        )
        (elim (Bool-cases (text_eq q c)) [
          | inl here ↦ rw (lookup-insert q c tt (set_or_empty (lookup d m)), here) refl
          | inr there ↦ rw (lookup-insert q c tt (set_or_empty (lookup d m)), there) refl
        ])
]

pub is_child-link :
    (d c p q : Text) (v : Vfs)
    → is_child d c (link_child p q v)
      ≡ ((text_eq (clean_vfs_path p) d && text_eq (clean_vfs_path q) c) || is_child d c v)
unfolding link_child is_child child_set
is_child-link d c p q v =
    let here = text_eq (clean_vfs_path p) d && text_eq (clean_vfs_path q) c in
    let v' = ensure_children_bucket (clean_vfs_path p) v in
    add_to_set d c (clean_vfs_path p) (clean_vfs_path q) v'.children
    ∙ ap (λ b. here || b) (is_child-bucket d c (clean_vfs_path p) v)

take_from_set :
    (d c p q : Text) (set : TextSet) (m : Dict TextSet)
    → lookup p m ≡ some set
    → is_some (lookup c (set_or_empty (lookup d (insert p (delete q set) m))))
      ≡ (not (text_eq p d && text_eq q c) && is_some (lookup c (set_or_empty (lookup d m))))
take_from_set d c p q set m e = elim (Bool-cases (text_eq p d)) [
  | inr other ↦ rw (lookup-insert p d (delete q set) m, other) refl
  | inl same ↦
      let e' = ap (λ x. lookup x m) (sym ((text_eq_iff p d).0 same)) ∙ e in
      rw (lookup-insert p d (delete q set) m, same, e')
        (elim (Bool-cases (text_eq q c)) [
          | inl here ↦ rw (lookup-delete q c set, here) refl
          | inr there ↦ rw (lookup-delete q c set, there) refl
        ])
]

-- The link to `p` is taken from the set of its parent.
pub is_child-drop :
    (d c p : Text) (v : Vfs)
    → is_child d c (drop_child p v) ≡ (not (text_eq (parent p) d && text_eq p c) && is_child d c v)
unfolding is_child child_set drop_child
is_child-drop d c p v = elim (Option-cases (lookup (parent p) v.children)) [
  | inr (set, e) ↦ rw (e, drop_child) (take_from_set d c (parent p) p set v.children e)
  | inl e ↦
      rw (e, drop_child)
        (elim (Bool-cases (text_eq (parent p) d)) [
          | inr other ↦ rw other refl
          | inl same ↦
              let gone =
                ap (λ o. is_some (lookup c (set_or_empty o)))
                  (ap (λ x. lookup x v.children) (sym ((text_eq_iff (parent p) d).0 same)) ∙ e)
                ∙ nothing_in c in
              gone
              ∙ sym (ap (λ b. not (text_eq (parent p) d && text_eq p c) && b) gone ∙ and_none _)
        ])
]

-- The set of `p` is deleted.
pub is_child-forget :
    (d c p : Text) (v : Vfs)
    → is_child d c (record v { children = delete p v.children })
      ≡ (not (text_eq p d) && is_child d c v)
unfolding is_child child_set
is_child-forget d c p v = elim (Bool-cases (text_eq p d)) [
  | inl same ↦ rw (lookup-delete p d v.children, same) (nothing_in c)
  | inr other ↦ rw (lookup-delete p d v.children, other) refl
]

-- A link to a path that stands below the directory and has it as its parent.
pub record IsLink (d c : Text) : Type 0 where
  pub top : IsTidyPath d
  pub bottom : IsTidyPath c
  pub up : parent c ≡ d
  pub longer : length d < length c

-- The path is linked to its parent, or is the root, or one of these.
abbrev pub Hangs : List Text → Text → Vfs → Type 0
Hangs loose q v = (q ≡ slash) ⊎ (is_child (parent q) q v ≡ true) ⊎ AnyOf (λ p. p ≡ q) loose

-- Links go down from directories that are linked themselves, and every entry is linked, but for the
-- paths that are still loose.
pub record IsTreeBut (loose : List Text) (v : Vfs) : Type 0 where
  pub links : (d c : Text) → is_child d c v ≡ true → IsLink d c × Hangs loose d v
  pub entries : (q : Text) (f : VfsFile) → lookup q v.files ≡ some f → Hangs loose q v

abbrev pub IsTree : Vfs → Type 0
IsTree v = IsTreeBut [] v

pub Hangs-of :
    (a b : List Text) (q : Text) (v w : Vfs)
    → ((p : Text) → AnyOf (λ r. r ≡ p) a → Hangs b p w)
    → (is_child (parent q) q v ≡ true → Hangs b q w)
    → Hangs a q v
    → Hangs b q w
Hangs-of a b q v w loose kept (inl root) = inl root
Hangs-of a b q v w loose kept (inr (inl linked)) = kept linked
Hangs-of a b q v w loose kept (inr (inr free)) = loose q free

-- A step that takes no link away and makes none, and makes entries only where they hang.
pub IsTreeBut-of :
    (a b : List Text) (v w : Vfs)
    → ((d c : Text) → is_child d c w ≡ is_child d c v)
    → ((p : Text) → AnyOf (λ r. r ≡ p) a → Hangs b p w)
    → ((q : Text) (f : VfsFile)
        → lookup q w.files ≡ some f
        → (lookup q v.files ≢ none) ⊎ Hangs b q w)
    → IsTreeBut a v
    → IsTreeBut b w
IsTreeBut-of a b v w same loose there h = record {
  links = λ d c i.
      let l = h.links d c (sym (same d c) ∙ i) in
      (l.0, Hangs-of a b d v w loose (λ k. inr (inl (same (parent d) d ∙ k))) l.1);
  entries = λ q f e. elim (there q f e) [
    | inr k ↦ k
    | inl old ↦ elim (Option-cases (lookup q v.files)) [
      | inl gone ↦ absurd (old gone)
      | inr (g, k) ↦
          Hangs-of a b q v w loose (λ k. inr (inl (same (parent q) q ∙ k))) (h.entries q g k)
    ]
  ];
}

pub Hangs-of_same :
    (ds : List Text) (q : Text) (v w : Vfs) → w.children ≡ v.children → Hangs ds q v → Hangs ds q w
Hangs-of_same ds q v w e =
    Hangs-of ds ds q v w (λ p i. inr (inr i))
      (λ k. inr (inl (is_child_of_same (parent q) q v w e ∙ k)))
