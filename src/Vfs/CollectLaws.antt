-- ===== src/Vfs/CollectLaws.antt =====
-- The walk over a subtree with a stack, and a recursive walk beside it.
use weave_ftpd.Base.{
  or_left, or_right, ℕ, zero, suc, ◌+◌, ◌≤◌, ◌<◌, ◌≡◌, ◌↔◌, append-nil, inl, inr, refl, sym, ap,
  ◌∙◌, [], ◌∷◌, List, ◌++◌, append_assoc, Bool, true, false, ◌&&◌, ◌||◌, Text, text_eq, text_eq_iff,
  text_eq_refl, lookup, is_some, Dict, Bool-cases, arith, length,
}
use weave_ftpd.Vfs.State.{TextSet, Vfs, has_key}
use weave_ftpd.Vfs.Index.{set_or_empty}
use weave_ftpd.Vfs.Tree.{child_set}
use weave_ftpd.Vfs.Collect.{
  keys_of, children_of, push_dirs, prepend, collect_from, sum_by, rounds_for, longest,
  longest_child, collect_subtree,
}
use weave_ftpd.Vfs.LinkLaws.{is_child}

unfoldable pub is_among : Text → List Text → Bool
is_among q [] = false
is_among q (p ∷ ps) = text_eq p q || is_among q ps

pub is_among-append :
    (q : Text) (a b : List Text) → is_among q (a ++ b) ≡ (is_among q a || is_among q b)
unfolding is_among
is_among-append q [] b = refl
is_among-append q (p ∷ a) b = ground (arith, is_among-append q a b)

is_among-keys_of : (c : Text) (set : TextSet) → is_among c (keys_of set) ≡ is_some (lookup c set)
unfolding is_among lookup
is_among-keys_of c [] = refl
is_among-keys_of c ((j, w) ∷ set) = elim (Bool-cases (text_eq j c)) [
  | inl e ↦ rw e refl
  | inr e ↦ rw e (is_among-keys_of c set)
]

pub is_among-children_of : (d c : Text) (v : Vfs) → is_among c (children_of d v) ≡ is_child d c v
unfolding children_of is_child
is_among-children_of d c v = is_among-keys_of c (child_set d v)

pushed_of :
    (l k t r : Bool) → (t ≡ true → k ≡ true) → ((l && k) || (t || r)) ≡ (((t || l) && k) || r)
pushed_of l k t r h = ground arith

skipped_of : (l k t r : Bool) → (t ≡ true → k ≡ false) → ((l && k) || r) ≡ (((t || l) && k) || r)
skipped_of l k t r h = ground arith

-- A path is put on the stack if it is one of these and has a set of its own.
pub is_among-push_dirs :
    (q : Text) (v : Vfs) (cs stack : List Text)
    → is_among q (push_dirs v cs stack)
      ≡ ((is_among q cs && has_key q v.children) || is_among q stack)
unfolding push_dirs is_among
is_among-push_dirs q v [] stack = refl
is_among-push_dirs q v (c ∷ cs) stack =
    let key =
      λ (e : text_eq c q ≡ true). ap (λ x. has_key x v.children) (sym ((text_eq_iff c q).0 e)) in
    elim (Bool-cases (has_key c v.children)) [
      | inl dir ↦
          rw (dir, is_among-push_dirs q v cs (c ∷ stack))
            (pushed_of (is_among q cs) (has_key q v.children) (text_eq c q) (is_among q stack)
              (λ e. key e ∙ dir))
      | inr file ↦
          rw (file, is_among-push_dirs q v cs stack)
            (skipped_of (is_among q cs) (has_key q v.children) (text_eq c q) (is_among q stack)
              (λ e. key e ∙ file))
    ]

push_dirs-append :
    (v : Vfs) (cs a stack : List Text) → push_dirs v cs (a ++ stack) ≡ push_dirs v cs a ++ stack
unfolding push_dirs
push_dirs-append v [] a stack = refl
push_dirs-append v (c ∷ cs) a stack = elim (Bool-cases (has_key c v.children)) [
  | inl dir ↦ rw dir (push_dirs-append v cs (c ∷ a) stack)
  | inr file ↦ rw file (push_dirs-append v cs a stack)
]

-- The recursive walk: the children of the directory, then what lies below each of them.
unfoldable pub each_below : (Text → List Text) → List Text → List Text
each_below f [] = []
each_below f (d ∷ ds) = f d ++ each_below f ds

unfoldable pub paths_below : ℕ → Vfs → Text → List Text
unfolding each_below
paths_below zero v d = []
paths_below (suc depth) v d =
    children_of d v ++ each_below (paths_below depth v) (push_dirs v (children_of d v) [])

prepend-append :
    (a b : List Text) (s : List Text × List Text) → prepend (a ++ b) s ≡ prepend a (prepend b s)
prepend-append a b (out, left) = ap (λ x. (x, left)) (append_assoc a b out)

-- Every child's path is at most as long as the bound.
longest-bound : (c : Text) (ps : List Text) → is_among c ps ≡ true → length c ≤ longest ps
unfolding is_among longest
longest-bound c [] h = cc h
longest-bound c (p ∷ ps) h = elim (Bool-cases (text_eq p c)) [
  | inl same ↦ omega (arith, ap length ((text_eq_iff p c).0 same))
  | inr other ↦ omega (arith, longest-bound c ps (rw other at h))
]

longest_child-bound :
    (d c : Text) (m : Dict TextSet)
    → is_some (lookup c (set_or_empty (lookup d m))) ≡ true
    → length c ≤ longest_child m
unfolding lookup longest_child
longest_child-bound d c [] h = cc h
longest_child-bound d c ((j, set) ∷ m) h = elim (Bool-cases (text_eq j d)) [
  | inl same ↦
      omega (arith, longest-bound c (keys_of set) (is_among-keys_of c set ∙ (rw same at h)))
  | inr other ↦ omega (arith, longest_child-bound d c m (rw other at h))
]

no_elements : (ps : List Text) → ((q : Text) → is_among q ps ≡ false) → ps ≡ []
unfolding is_among
no_elements [] h = refl
no_elements (p ∷ ps) h = cc (rw (text_eq_refl p) at (h p))

or_false_iff : (a b : Bool) → (((a && b) || false) ≡ true) ↔ ((a ≡ true) × (b ≡ true))
or_false_iff a b = ground arith

-- The paths that a round puts on the stack.
pub pushed_iff :
    (d c : Text) (v : Vfs)
    → (is_among c (push_dirs v (children_of d v) []) ≡ true)
      ↔ ((is_child d c v ≡ true) × (has_key c v.children ≡ true))
unfolding is_among
pushed_iff d c v =
    rw (is_among-push_dirs c v (children_of d v) [], is_among-children_of d c v)
      (or_false_iff (is_child d c v) (has_key c v.children))

-- Where each link makes the path longer, the depth is bounded by the longest child.
module _ (v : Vfs) (down : (d c : Text) → is_child d c v ≡ true → length d < length c) where
  pub bound : (d c : Text) → is_child d c v ≡ true → length c ≤ longest_child v.children
  unfolding is_child child_set
  bound d c h = longest_child-bound d c v.children h

  childless :
      (d c : Text) → longest_child v.children ≤ length d → is_among c (children_of d v) ≡ false
  childless d c deep = elim (Bool-cases (is_child d c v)) [
    | inl link ↦ absurd (omega (arith, bound d c link, down d c link))
    | inr other ↦ is_among-children_of d c v ∙ other
  ]

  children_of_deep : (d : Text) → longest_child v.children ≤ length d → children_of d v ≡ []
  children_of_deep d deep = no_elements (children_of d v) (λ c. childless d c deep)

  abbrev AsDeep : ℕ → Text → Type 0
  AsDeep depth d = longest_child v.children ≤ depth + length d

  abbrev Walks : ℕ → Type 0
  Walks depth =
      (d : Text) (stack : List Text) (extra rounds : ℕ)
      → AsDeep depth d
      → rounds ≡ rounds_for depth v d + extra
      → collect_from rounds v (d ∷ stack)
        ≡ prepend (paths_below depth v d) (collect_from extra v stack)

  collect_from-each :
      (depth : ℕ)
      → Walks depth
      → (ds stack : List Text) (extra rounds : ℕ)
      → ((c : Text) → is_among c ds ≡ true → AsDeep depth c)
      → rounds ≡ sum_by (rounds_for depth v) ds + extra
      → collect_from rounds v (ds ++ stack)
        ≡ prepend (each_below (paths_below depth v) ds) (collect_from extra v stack)
  unfolding sum_by each_below is_among
  collect_from-each depth one [] stack extra rounds deep e =
      ap (λ n. collect_from n v stack) (omega (arith, e))
  collect_from-each depth one (d ∷ ds) stack extra rounds deep e =
      let rest = sum_by (rounds_for depth v) ds + extra in
      let deeper = λ (c : Text) (l : is_among c ds ≡ true).
        deep c (or_right (text_eq d c) (is_among c ds) l) in
      one d (ds ++ stack) rest rounds
        (deep d (or_left (text_eq d d) (is_among d ds) (text_eq_refl d))) (omega (arith, e))
      ∙ (ap (prepend (paths_below depth v d))
            (collect_from-each depth one ds stack extra rest deeper refl)
          ∙ sym (
              prepend-append (paths_below depth v d) (each_below (paths_below depth v) ds)
                (collect_from extra v stack)))

  collect_from-one : (depth : ℕ) → Walks depth
  unfolding collect_from rounds_for paths_below
  collect_from-one zero d stack extra zero deep e = absurd (omega (arith, e))
  collect_from-one zero d stack extra (suc r) deep e =
      rw (children_of_deep d (omega (arith, deep)), push_dirs)
        (ap (λ n. collect_from n v stack) (omega (arith, e)))
  collect_from-one (suc depth) d stack extra zero deep e = absurd (omega (arith, e))
  collect_from-one (suc depth) d stack extra (suc r) deep e =
      let cs = children_of d v in
      let ds = push_dirs v cs [] in
      ap (λ s. prepend cs (collect_from r v s)) (push_dirs-append v cs [] stack)
      ∙ (ap (prepend cs) (
            collect_from-each depth (collect_from-one depth) ds stack extra r
              (λ c l. let k = down d c ((pushed_iff d c v).0 l).0 in omega (arith, deep, k))
              (omega (arith, e)))
          ∙ sym (
              prepend-append cs (each_below (paths_below depth v) ds) (collect_from extra v stack)))

  -- The rounds are enough: the stack is empty in the end, and the paths found are those of the recursive
  -- walk, in its order.
  pub collect_from-paths_below :
      (root : Text)
      → collect_from (rounds_for (longest_child v.children) v root) v (root ∷ [])
        ≡ (paths_below (longest_child v.children) v root, [])
  unfolding collect_from
  collect_from-paths_below root =
      let deepest = longest_child v.children in
      collect_from-one deepest root [] 0 (rounds_for deepest v root) (omega arith) (omega arith)
      ∙ ap (λ out. (out, [])) (append-nil (paths_below deepest v root))

  pub collect_subtree-paths_below :
      (root : Text) → collect_subtree root v ≡ root ∷ paths_below (longest_child v.children) v root
  unfolding collect_subtree
  collect_subtree-paths_below root = ap (λ s. root ∷ s.0) (collect_from-paths_below root)
