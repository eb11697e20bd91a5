-- ===== src/Vfs/CutLaws.antt =====
-- The loop of deletePathLocked, from a state that is a tree.
use weave_ftpd.Base.{
  or_left, or_right, ◌≡◌, ◌↔◌, ◌<◌, inl, inr, sym, ap, ◌∙◌, subst, [], ◌∷◌, List, Bool, true, false,
  ◌&&◌, not, if◌then◌else◌, none, Text, text_eq, text_eq_iff, text_eq_refl, lookup, length,
  Bool-cases, arith, All,
}
use weave_ftpd.Vfs.Paths.{clean_vfs_path, parent}
use weave_ftpd.Vfs.PathLaws.{clean_vfs_path-IsTidyPath}
use weave_ftpd.Vfs.State.{Vfs}
use weave_ftpd.Vfs.Clear.{drop_child}
use weave_ftpd.Vfs.ClearLaws.{drop_child-Keeps}
use weave_ftpd.Vfs.Collect.{collect_subtree}
use weave_ftpd.Vfs.Delete.{remove_paths}
use weave_ftpd.Vfs.LinkLaws.{is_child, is_child-drop, Hangs, IsTree}
use weave_ftpd.Vfs.CollectLaws.{is_among}
use weave_ftpd.Vfs.BelowLaws.{Reaches, here, step, Reaches-link, collect_subtree-Reaches}
use weave_ftpd.Vfs.RemoveLaws.{remove_paths-entry, remove_paths-link, remove_paths-kept}

pub tree_down : (v : Vfs) → IsTree v → (d c : Text) → is_child d c v ≡ true → length d < length c
tree_down v h d c k = (h.links d c k).0.longer

-- The paths at or below a path that the links reach, when that path hangs in a tree: all are clean.
pub hangs_clean :
    (q : Text) (v : Vfs) → IsTree v → is_child (parent q) q v ≡ true → clean_vfs_path q ≡ q
hangs_clean q v h k = clean_vfs_path-IsTidyPath q (h.links (parent q) q k).0.bottom

Reaches-clean :
    (v : Vfs) (p q : Text) → IsTree v → Reaches v p q → clean_vfs_path p ≡ p → clean_vfs_path q ≡ q
Reaches-clean v p q h (here _) clean = clean
Reaches-clean v p q h (step _ c _ k r) clean =
    Reaches-clean v c q h r (clean_vfs_path-IsTidyPath c (h.links p c k).0.bottom)

All-of_listed :
    (P : Text → Type 0) (rs : List Text) → ((r : Text) → is_among r rs ≡ true → P r) → All P rs
unfolding is_among
All-of_listed P [] h = tt
All-of_listed P (r ∷ rs) h = (
  h r (or_left (text_eq r r) (is_among r rs) (text_eq_refl r)),
  All-of_listed P rs (λ q l. h q (or_right (text_eq r q) (is_among q rs) l)),
)

not_same : (a b c : Bool) → b ≡ false → c ≡ true → (not (a && b) && c) ≡ true
not_same a b c h k = ground arith

pub and_right : (a b : Bool) → (a && b) ≡ true → b ≡ true
and_right a b h = ground arith

-- The subtree at a clean path is cut out.
module _ (p : Text) (v : Vfs) (clean : clean_vfs_path p ≡ p) (h : IsTree v) where
  abbrev gone : List Text
  gone = collect_subtree p v

  abbrev rest : Vfs
  rest = remove_paths p gone (drop_child p v)

  pub gone_iff : (q : Text) → (is_among q gone ≡ true) ↔ Reaches v p q
  gone_iff q = collect_subtree-Reaches v (tree_down v h) p q

  pub cut-entry :
      (q : Text) → lookup q rest.files ≡ (if is_among q gone then none else lookup q v.files)
  cut-entry q =
      remove_paths-entry p q gone (drop_child p v) (
        All-of_listed (λ r. clean_vfs_path r ≡ r) gone
          (λ r l. Reaches-clean v p r h ((gone_iff r).0 l) clean))
      ∙ ap (λ o. if is_among q gone then none else o) (drop_child-Keeps q p v).entry

  other_than : (q : Text) → is_among q gone ≡ false → text_eq p q ≡ false
  other_than q out = elim (Bool-cases (text_eq p q)) [
    | inr other ↦ other
    | inl same ↦ cc ((gone_iff q).1 (subst (Reaches v p) ((text_eq_iff p q).0 same) (here p)), out)
  ]

  parent_out :
      (q : Text)
      → is_among q gone ≡ false
      → is_child (parent q) q v ≡ true
      → is_among (parent q) gone ≡ false
  parent_out q out k = elim (Bool-cases (is_among (parent q) gone)) [
    | inr other ↦ other
    | inl below ↦
        cc ((gone_iff q).1 (Reaches-link v p (parent q) q ((gone_iff (parent q)).0 below) k), out)
  ]

  cut-Hangs : (q : Text) → is_among q gone ≡ false → Hangs [] q v → Hangs [] q rest
  cut-Hangs q out (inl root) = inl root
  cut-Hangs q out (inr (inl k)) = inr (
      inl (
        remove_paths-kept p (parent q) q gone (drop_child p v) (parent_out q out k) out (
          is_child-drop (parent q) q p v
          ∙ not_same (text_eq (parent p) (parent q)) (text_eq p q) (is_child (parent q) q v)
              (other_than q out) k)))
  cut-Hangs q out (inr (inr impossible)) = absurd impossible

  pub cut-IsTree : IsTree rest
  cut-IsTree = record {
    links = λ d c i.
        let (k, out) = remove_paths-link p d c gone (drop_child p v) i in
        let l = h.links d c (and_right _ (is_child d c v) (sym (is_child-drop d c p v) ∙ k)) in
        (l.0, cut-Hangs d out l.1);
    entries = λ q f e. elim (Bool-cases (is_among q gone)) [
      | inl out ↦ cc (sym (cut-entry q) ∙ e, out)
      | inr out ↦ cut-Hangs q out (h.entries q f (rw out at (sym (cut-entry q) ∙ e)))
    ];
  }
