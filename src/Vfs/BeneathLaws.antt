-- ===== src/Vfs/BeneathLaws.antt =====
-- The paths that begin with a path and a slash, and the links.
use weave_ftpd.Base.{
  ℕ, ◌≡◌, ◌≢◌, ◌⊎◌, inl, inr, refl, sym, ap, ◌∙◌, subst, [], ◌∷◌, List, ◌++◌, append-nil,
  append_assoc, length, arith, ◌<◌, true, some, Text, text_eq_iff, lookup, reverse, All,
}
use mathlib.Core.List.{reverse-cons}
use weave_ftpd.GoPath.Clean.{slash}
use weave_ftpd.GoPath.CleanLaws.{NoSlash, flat}
use weave_ftpd.GoPath.DirLaws.{flat-append}
use weave_ftpd.Vfs.Paths.{parent, at_or_below}
use weave_ftpd.Vfs.PathLaws.{
  IsTidy, IsTidyPath, path_to, length-path_to, path_to-cons, parent-path_to, below_root,
}
use weave_ftpd.Vfs.State.{Vfs, VfsFile}
use weave_ftpd.Vfs.CoverLaws.{IsAtOrBelow, at_or_below_iff}
use weave_ftpd.Vfs.LinkLaws.{is_child, Hangs, IsLink, IsTree}
use weave_ftpd.Vfs.BelowLaws.{Reaches, here, step, Reaches-link}

flat-path_to : (x : Text) (up : List Text) → flat (reverse (x ∷ up)) ≡ path_to (x ∷ up)
flat-path_to x up =
    ap flat (reverse-cons x up)
    ∙ (flat-append (reverse up) (x ∷ [])
        ∙ (ap (λ s. flat (reverse up) ++ b'/' ∷ s) (append-nil x) ∙ sym (path_to-cons x up)))

slash_there : (P r : Text) → NoSlash (P ++ b'/' ∷ r) → ⊥
slash_there [] r (h, n) = cc h
slash_there (b ∷ P) r (h, n) = slash_there P r n

nil_no_slash : (P r : Text) → [] ≡ P ++ b'/' ∷ r → ⊥
nil_no_slash [] r e = cc e
nil_no_slash (b ∷ P) r e = cc e

cons_parts : (a b : ℕ) (s t : Text) → a ∷ s ≡ b ∷ t → (a ≡ b) × (s ≡ t)
cons_parts a b s t e = (cc e, cc e)

-- A slash of the text that ends in `/x` is the last one or stands before it.
slash_before :
    (a x P r : Text)
    → NoSlash x
    → a ++ b'/' ∷ x ≡ P ++ b'/' ∷ r
    → (a ≡ P) ⊎ ((t : Text) × (a ≡ P ++ b'/' ∷ t))
slash_before [] x [] r n e = inl refl
slash_before [] x (b ∷ P) r n e =
    absurd (slash_there P r (subst NoSlash (cons_parts b'/' b x (P ++ b'/' ∷ r) e).1 n))
slash_before (c ∷ a) x [] r n e = inr (a, ap (λ h. h ∷ a) (cons_parts c b'/' (a ++ b'/' ∷ x) r e).0)
slash_before (c ∷ a) x (b ∷ P) r n e =
    let (heads, tails) = cons_parts c b (a ++ b'/' ∷ x) (P ++ b'/' ∷ r) e in
    elim (slash_before a x P r n tails) [
      | inl same ↦ inl (cc (heads, same))
      | inr (t, k) ↦ inr (t, cc (heads, k))
    ]

above_it :
    (up : List Text) (P : Text)
    → P ≢ []
    → (flat (reverse up) ≡ P) ⊎ ((t : Text) × (flat (reverse up) ≡ P ++ b'/' ∷ t))
    → IsAtOrBelow (path_to up) P
unfolding IsAtOrBelow
above_it [] P some_path (inl same) = absurd (some_path (sym same))
above_it [] P some_path (inr (t, e)) = absurd (nil_no_slash P t e)
above_it (y ∷ up) P some_path (inl same) = inl (sym (flat-path_to y up) ∙ same)
above_it (y ∷ up) P some_path (inr (t, e)) = inr (t, sym (flat-path_to y up) ∙ e)

module _ (v : Vfs) (h : IsTree v) (P : Text) (some_path : P ≢ []) (below : P ≢ slash) where
  -- A linked path at or below P is reached from P.
  beneath-Reaches :
      (up : List Text)
      → All IsTidy up
      → IsAtOrBelow (path_to up) P
      → Hangs [] (path_to up) v
      → Reaches v P (path_to up)
  unfolding IsAtOrBelow
  beneath-Reaches [] ts (inl same) k = absurd (below (sym same))
  beneath-Reaches [] ts (inr (r, e)) k = elim (slash_before [] [] P r tt e) [
    | inl same ↦ absurd (some_path (sym same))
    | inr (t, e') ↦ absurd (nil_no_slash P t e')
  ]
  beneath-Reaches (x ∷ up) ts (inl same) k = subst (Reaches v P) (sym same) (here P)
  beneath-Reaches (x ∷ up) (t, ts) (inr (r, e)) (inl root) =
      cc (below_root x up t, (text_eq_iff (path_to (x ∷ up)) slash).1 root)
  beneath-Reaches (x ∷ up) (t, ts) (inr (r, e)) (inr (inl k)) =
      let above = parent-path_to x up t ts in
      let link = subst (λ d. is_child d (path_to (x ∷ up)) v ≡ true) above k in
      Reaches-link v P (path_to up) (path_to (x ∷ up))
        (beneath-Reaches up ts
          (above_it up P some_path
            (slash_before (flat (reverse up)) x P r t.plain.no_slash (sym (path_to-cons x up) ∙ e)))
          (h.links (path_to up) (path_to (x ∷ up)) link).1)
        link
  beneath-Reaches (x ∷ up) ts (inr below_it) (inr (inr impossible)) = absurd impossible

  -- An entry at or below P is reached from P.
  pub entry-Reaches :
      (q : Text) (f : VfsFile)
      → IsTidyPath q
      → at_or_below q P ≡ true
      → lookup q v.files ≡ some f
      → Reaches v P q
  entry-Reaches q f (up, ts, same) under e = subst (Reaches v P) same (
      beneath-Reaches up ts
        (subst (λ x. IsAtOrBelow x P) (sym same) ((at_or_below_iff q P).0 under))
        (subst (λ x. Hangs [] x v) (sym same) (h.entries q f e)))

root_has_none_above : (P : Text) → P ≢ [] → P ≢ slash → IsAtOrBelow slash P → ⊥
unfolding IsAtOrBelow
root_has_none_above P some_path below (inl same) = below (sym same)
root_has_none_above P some_path below (inr (r, e)) = elim (slash_before [] [] P r tt e) [
  | inl same ↦ some_path (sym same)
  | inr (t, e') ↦ nil_no_slash P t e'
]

-- What lies right below a path at or below P is below P too.
one_below :
    (x : Text) (up : List Text) (P : Text)
    → P ≢ []
    → P ≢ slash
    → IsAtOrBelow (path_to up) P
    → IsAtOrBelow (path_to (x ∷ up)) P
unfolding IsAtOrBelow
one_below x [] P some_path below h = absurd (root_has_none_above P some_path below h)
one_below x (y ∷ up) P some_path below (inl same) =
    inr (x, path_to-cons x (y ∷ up) ∙ ap (λ s. s ++ b'/' ∷ x) (flat-path_to y up ∙ same))
one_below x (y ∷ up) P some_path below (inr (r, e)) = inr (
  r ++ b'/' ∷ x,
  path_to-cons x (y ∷ up)
      ∙ (ap (λ s. s ++ b'/' ∷ x) (flat-path_to y up ∙ e) ∙ append_assoc P (b'/' ∷ r) (b'/' ∷ x)),
)

below_parent :
    (up : List Text) (d P : Text)
    → All IsTidy up
    → parent (path_to up) ≡ d
    → length d < length (path_to up)
    → 0 < length d
    → P ≢ []
    → P ≢ slash
    → IsAtOrBelow d P
    → IsAtOrBelow (path_to up) P
below_parent [] d P ts e short some_bytes some_path below h =
    absurd (omega (arith, short, some_bytes))
below_parent (x ∷ up) d P (t, ts) e short some_bytes some_path below h =
    one_below x up P some_path below
      (subst (λ y. IsAtOrBelow y P) (sym e ∙ parent-path_to x up t ts) h)

link_below : (d c P : Text) → IsLink d c → P ≢ [] → P ≢ slash → IsAtOrBelow d P → IsAtOrBelow c P
link_below d c P l some_path below h =
    let (up, ts, same) = l.bottom in
    let (top, _, there) = l.top in
    let short = subst (λ y. length d < length y) (sym same) l.longer in
    let some_bytes = subst (λ y. 0 < length y) there (length-path_to top) in
    subst (λ y. IsAtOrBelow y P) same
      (below_parent up d P ts (subst (λ y. parent y ≡ d) (sym same) l.up) short some_bytes some_path
        below h)

pub Reaches-IsAtOrBelow :
    (v : Vfs) (a q P : Text)
    → IsTree v
    → P ≢ []
    → P ≢ slash
    → Reaches v a q
    → IsAtOrBelow a P
    → IsAtOrBelow q P
Reaches-IsAtOrBelow v a q P h some_path below (here _) k = k
Reaches-IsAtOrBelow v a q P h some_path below (step _ c _ i r) k =
    Reaches-IsAtOrBelow v c q P h some_path below r
      (link_below a c P (h.links a c i).0 some_path below k)
