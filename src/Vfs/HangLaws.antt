-- ===== src/Vfs/HangLaws.antt =====
-- The shape of the tree under the walks over ancestors and AddFile.
use weave_ftpd.Base.{
  or_right, ◌≡◌, ◌≢◌, ◌⊎◌, inl, inr, refl, sym, ap, ◌∙◌, subst, ◌∷◌, List, Bool, true, ◌&&◌, ◌||◌,
  Option, none, some, Text, text_eq, text_eq_iff, lookup, insert, lookup-insert, Bool-cases, arith,
  AnyOf, All, and_parts,
}
use weave_ftpd.GoPath.Clean.{slash}
use weave_ftpd.Vfs.Paths.{clean_vfs_path, parent}
use weave_ftpd.Vfs.PathLaws.{IsTidy, path_to, clean_vfs_path-path_to, parent-path_to, longer_below}
use weave_ftpd.Vfs.State.{Vfs, VfsFile}
use weave_ftpd.Vfs.Tree.{link_child}
use weave_ftpd.Vfs.TreeLaws.{link_child-Keeps}
use weave_ftpd.Vfs.LinkLaws.{
  is_child, is_child-link, is_child_of_same, IsLink, Hangs, IsTreeBut, IsTreeBut-of, Hangs-of_same,
  Hangs-of,
}

some_ne : (o : Option VfsFile) (f : VfsFile) → o ≡ some f → o ≢ none
some_ne o f e k = cc (e, k)

-- A step that keeps the links and the entries.
pub IsTreeBut-kept :
    (ds : List Text) (v w : Vfs)
    → ((d c : Text) → is_child d c w ≡ is_child d c v)
    → ((q : Text) → lookup q w.files ≡ lookup q v.files)
    → IsTreeBut ds v
    → IsTreeBut ds w
IsTreeBut-kept ds v w same kept =
    IsTreeBut-of ds ds v w same (λ p i. inr (inr i)) (λ q f e. inl (some_ne _ f (sym (kept q) ∙ e)))

inserted_there :
    (b : List Text) (p q : Text) (g f : VfsFile) (v w : Vfs)
    → Hangs b p w
    → lookup q (insert p g v.files) ≡ some f
    → (lookup q v.files ≢ none) ⊎ Hangs b q w
inserted_there b p q g f v w hangs e = elim (Bool-cases (text_eq p q)) [
  | inl same ↦ inr (subst (λ x. Hangs b x w) ((text_eq_iff p q).0 same) hangs)
  | inr other ↦ inl (some_ne (lookup q v.files) f (rw (lookup-insert p q g v.files, other) at e))
]

-- An entry is stored under a path that hangs already.
pub IsTreeBut-stored :
    (ds : List Text) (p : Text) (g : VfsFile) (v : Vfs)
    → Hangs ds p v
    → IsTreeBut ds v
    → IsTreeBut ds (record v { files = insert p g v.files })
IsTreeBut-stored ds p g v hangs =
    let w : Vfs = record v { files = insert p g v.files } in
    IsTreeBut-of ds ds v w (λ d c. is_child_of_same d c v w refl) (λ r i. inr (inr i))
      (λ q f e. inserted_there ds p q g f v w (Hangs-of_same ds p v w refl hangs) e)

pub IsTreeBut-updated :
    (ds : List Text) (p : Text) (f g : VfsFile) (v : Vfs)
    → lookup p v.files ≡ some f
    → IsTreeBut ds v
    → IsTreeBut ds (record v { files = insert p g v.files })
IsTreeBut-updated ds p f g v e h = IsTreeBut-stored ds p g v (h.entries p f e) h

-- An entry is stored under a path that is loose from then on.
pub IsTreeBut-loose :
    (ds : List Text) (p : Text) (g : VfsFile) (v : Vfs)
    → IsTreeBut ds v
    → IsTreeBut (p ∷ ds) (record v { files = insert p g v.files })
IsTreeBut-loose ds p g v =
    let w : Vfs = record v { files = insert p g v.files } in
    IsTreeBut-of ds (p ∷ ds) v w (λ d c. is_child_of_same d c v w refl) (λ r i. inr (inr (inr i)))
      (λ q f e. inserted_there (p ∷ ds) p q g f v w (inr (inr (inl refl))) e)

pub IsTreeBut-more :
    (a b : List Text) (v : Vfs)
    → ((p : Text) → AnyOf (λ r. r ≡ p) a → AnyOf (λ r. r ≡ p) b)
    → IsTreeBut a v
    → IsTreeBut b v
IsTreeBut-more a b v more =
    IsTreeBut-of a b v v (λ d c. refl) (λ p i. inr (inr (more p i))) (λ q f e. inl (some_ne _ f e))

pub IsTreeBut-root : (ds : List Text) (v : Vfs) → IsTreeBut (slash ∷ ds) v → IsTreeBut ds v
IsTreeBut-root ds v =
    IsTreeBut-of (slash ∷ ds) ds v v (λ d c. refl)
      (λ p i. elim i [ inl e ↦ inl (sym e) | inr k ↦ inr (inr k) ]) (λ q f e. inl (some_ne _ f e))

either_link : (a b : Bool) → (a || b) ≡ true → (a ≡ true) ⊎ (b ≡ true)
either_link a b h = ground arith

linked_now :
    (a b c d : Text) (k : Bool) → a ≡ b → c ≡ d → ((text_eq a b && text_eq c d) || k) ≡ true
linked_now a b c d k e e' = ground (arith, text_eq_iff a b, text_eq_iff c d)

module _ (x : Text) (up : List Text) (t : IsTidy x) (ts : All IsTidy up) where
  path_to-IsLink : IsLink (path_to up) (path_to (x ∷ up))
  path_to-IsLink = record {
    top = (up, ts, refl);
    bottom = (x ∷ up, (t, ts), refl);
    up = parent-path_to x up t ts;
    longer = longer_below x up t;
  }

  -- A loose path is linked to a parent that hangs.
  pub IsTreeBut-linked :
      (ds : List Text) (v : Vfs)
      → Hangs ds (path_to up) v
      → IsTreeBut (path_to (x ∷ up) ∷ ds) v
      → IsTreeBut ds (link_child (parent (path_to (x ∷ up))) (path_to (x ∷ up)) v)
  IsTreeBut-linked ds v hangs h =
      let p = path_to (x ∷ up) in
      let w = link_child (parent p) p v in
      let tidy = clean_vfs_path-path_to (x ∷ up) (t, ts) in
      let top = ap clean_vfs_path (parent-path_to x up t ts) ∙ clean_vfs_path-path_to up ts in
      let now = λ (d c : Text) (k : is_child d c v ≡ true).
        is_child-link d c (parent p) p v ∙ or_right _ (is_child d c v) k in
      let here =
        is_child-link (parent p) p (parent p) p v
        ∙ linked_now (clean_vfs_path (parent p)) (parent p) (clean_vfs_path p) p
            (is_child (parent p) p v) (top ∙ sym (parent-path_to x up t ts)) tidy in
      let hang = λ (q : Text).
        Hangs-of (p ∷ ds) ds q v w
          (λ r i. elim i [
            | inl e ↦ inr (inl (subst (λ y. is_child (parent y) y w ≡ true) e here))
            | inr k ↦ inr (inr k)
          ])
          (λ k. inr (inl (now (parent q) q k))) in
      record {
        links = λ d c i. elim (either_link _ _ (sym (is_child-link d c (parent p) p v) ∙ i)) [
          | inr old ↦ let l = h.links d c old in (l.0, hang d l.1)
          | inl new ↦
              let parts =
                (and_parts (text_eq (clean_vfs_path (parent p)) d) (text_eq (clean_vfs_path p) c)).0
                  new in
              let ed = sym top ∙ (text_eq_iff (clean_vfs_path (parent p)) d).0 parts.0 in
              let ec = sym tidy ∙ (text_eq_iff (clean_vfs_path p) c).0 parts.1 in
              (
                subst (λ a. IsLink a c) ed (subst (IsLink (path_to up)) ec path_to-IsLink),
                subst (λ a. Hangs ds a w) ed
                    (Hangs-of ds ds (path_to up) v w (λ r k. inr (inr k))
                      (λ k. inr (inl (now (parent (path_to up)) (path_to up) k))) hangs),
              )
        ];
        entries =
            λ q f e. hang q (h.entries q f (sym (link_child-Keeps q (parent p) p v).entry ∙ e));
      }
