-- ===== src/Vfs/BelowLaws.antt =====
-- The walk over a subtree, and the links.
use weave_ftpd.Base.{
  or_left, or_right, ℕ, zero, suc, ◌+◌, ◌≤◌, ◌<◌, ◌≡◌, ◌↔◌, ◌⊎◌, inl, inr, refl, sym, ◌∙◌, subst,
  [], ◌∷◌, List, Bool, true, ◌||◌, Text, text_eq, text_eq_iff, text_eq_refl, lookup, Option-cases,
  arith, length,
}
use weave_ftpd.Vfs.State.{Vfs, has_key}
use weave_ftpd.Vfs.Tree.{child_set}
use weave_ftpd.Vfs.Collect.{children_of, push_dirs, longest_child, collect_subtree}
use weave_ftpd.Vfs.LinkLaws.{is_child}
use weave_ftpd.Vfs.CollectLaws.{
  is_among, is_among-append, is_among-children_of, pushed_iff, each_below, paths_below,
  collect_subtree-paths_below, bound,
}

-- The links lead from `d` down to `p`.
pub data Reaches (v : Vfs) : Text → Text → Type 0 where
  here : (d : Text) → Reaches v d d
  step : (d c p : Text) → is_child d c v ≡ true → Reaches v c p → Reaches v d p

pub Reaches-link : (v : Vfs) (d p c : Text) → Reaches v d p → is_child p c v ≡ true → Reaches v d c
Reaches-link v d p c (here _) k = step d c c k (here c)
Reaches-link v d p c (step _ b _ j h) k = step d b c j (Reaches-link v b p c h k)

or_cases : (a b : Bool) → (a || b) ≡ true → (a ≡ true) ⊎ (b ≡ true)
or_cases a b h = ground arith

is_among-each_below :
    (f : Text → List Text) (ds : List Text) (p : Text)
    → (is_among p (each_below f ds) ≡ true)
      ↔ ((d : Text) × (is_among d ds ≡ true) × (is_among p (f d) ≡ true))
unfolding each_below is_among
is_among-each_below f [] p = (λ h. cc h, λ h. let (d, l, k) = h in cc l)
is_among-each_below f (b ∷ ds) p =
    let ih = is_among-each_below f ds p in
    (
      λ h.
          elim (or_cases (is_among p (f b)) (is_among p (each_below f ds))
            (sym (is_among-append p (f b) (each_below f ds)) ∙ h)) [
              | inl k ↦ (b, or_left (text_eq b b) (is_among b ds) (text_eq_refl b), k)
              | inr k ↦ let (d, l, m) = ih.0 k in (d, or_right (text_eq b d) (is_among d ds) l, m)
            ],
      λ h.
          let (d, l, k) = h in
          is_among-append p (f b) (each_below f ds)
          ∙ elim (or_cases (text_eq b d) (is_among d ds) l) [
            | inl same ↦
                or_left (is_among p (f b)) (is_among p (each_below f ds))
                  (subst (λ x. is_among p (f x) ≡ true) (sym ((text_eq_iff b d).0 same)) k)
            | inr other ↦
                or_right (is_among p (f b)) (is_among p (each_below f ds)) (ih.1 (d, other, k))
          ],
    )

paths_below-Reaches :
    (v : Vfs) (depth : ℕ) (d p : Text) → is_among p (paths_below depth v d) ≡ true → Reaches v d p
unfolding paths_below is_among
paths_below-Reaches v zero d p h = cc h
paths_below-Reaches v (suc depth) d p h =
    let cs = children_of d v in
    let ds = push_dirs v cs [] in
    elim (or_cases (is_among p cs) (is_among p (each_below (paths_below depth v) ds))
      (sym (is_among-append p cs (each_below (paths_below depth v) ds)) ∙ h)) [
        | inl k ↦ step d p p (sym (is_among-children_of d p v) ∙ k) (here p)
        | inr k ↦
            let (c, l, m) = (is_among-each_below (paths_below depth v) ds p).0 k in
            step d c p ((pushed_iff d c v).0 l).0 (paths_below-Reaches v depth c p m)
      ]

-- A directory with a link has a set.
has_links : (d c : Text) (v : Vfs) → is_child d c v ≡ true → has_key d v.children ≡ true
unfolding is_child child_set lookup
has_links d c v h = elim (Option-cases (lookup d v.children)) [
  | inl e ↦ cc (rw e at h)
  | inr (set, e) ↦ rw e refl
]

module _ (v : Vfs) (down : (d c : Text) → is_child d c v ≡ true → length d < length c) where
  Reaches-paths_below :
      (depth : ℕ) (d c p : Text)
      → longest_child v.children ≤ depth + length d
      → is_child d c v ≡ true
      → Reaches v c p
      → is_among p (paths_below depth v d) ≡ true
  unfolding paths_below
  Reaches-paths_below zero d c p deep k h =
      absurd (omega (arith, deep, down d c k, bound v down d c k))
  Reaches-paths_below (suc depth) d c p deep k (here _) =
      let cs = children_of d v in
      let rest = each_below (paths_below depth v) (push_dirs v cs []) in
      is_among-append c cs rest
      ∙ or_left (is_among c cs) (is_among c rest) (is_among-children_of d c v ∙ k)
  Reaches-paths_below (suc depth) d c p deep k (step _ b _ j h) =
      let cs = children_of d v in
      let ds = push_dirs v cs [] in
      let rest = each_below (paths_below depth v) ds in
      let longer = down d c k in
      is_among-append p cs rest
      ∙ or_right (is_among p cs) (is_among p rest) (
          (is_among-each_below (paths_below depth v) ds p).1 (
            c,
            (pushed_iff d c v).1 (k, has_links c b v j),
            Reaches-paths_below depth c b p (omega (arith, deep, longer)) j h,
          ))

  found :
      (root p : Text)
      → Reaches v root p
      → (text_eq root p || is_among p (paths_below (longest_child v.children) v root)) ≡ true
  found root p (here _) =
      or_left (text_eq root root) (is_among root (paths_below (longest_child v.children) v root))
        (text_eq_refl root)
  found root p (step _ c _ k h) =
      let deepest = longest_child v.children in
      or_right (text_eq root p) (is_among p (paths_below deepest v root))
        (Reaches-paths_below deepest root c p (omega arith) k h)

  -- The walk over a subtree finds the directory and just the paths that the links lead to from there.
  pub collect_subtree-Reaches :
      (root p : Text) → (is_among p (collect_subtree root v) ≡ true) ↔ Reaches v root p
  unfolding is_among
  collect_subtree-Reaches root p =
      let deepest = longest_child v.children in
      rw (collect_subtree-paths_below v down root) (
        λ h. elim (or_cases (text_eq root p) (is_among p (paths_below deepest v root)) h) [
          | inl same ↦ subst (Reaches v root) ((text_eq_iff root p).0 same) (here root)
          | inr k ↦ paths_below-Reaches v deepest root p k
        ],
        λ h. found root p h,
      )
