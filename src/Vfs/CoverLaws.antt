-- ===== src/Vfs/CoverLaws.antt =====
-- Which paths a set of hidden or excluded paths covers.
use weave_ftpd.Base.{
  ◌≡◌, ◌≢◌, ◌↔◌, ◌⊎◌, inl, inr, refl, sym, ap, ◌∙◌, List, [], ◌∷◌, ◌++◌, Bool, true, ◌||◌, ◌==◌,
  Text, text_eq, text_eq_iff, text_eq_of_ne, has_prefix, AnyOf, any_iff, ==_iff, and_parts, arith,
  append_assoc,
}
use weave_ftpd.GoPath.Clean.{slash}
use weave_ftpd.Vfs.Paths.{clean_vfs_path, at_or_below, is_covered_by}

has_prefix-append : (p r : Text) → has_prefix (p ++ r) p ≡ true
unfolding has_prefix
has_prefix-append [] [] = refl
has_prefix-append [] (a ∷ r) = refl
has_prefix-append (a ∷ p) r = ground (arith, has_prefix-append p r)

pub has_prefix_parts : (s p : Text) → has_prefix s p ≡ true → (r : Text) × (s ≡ p ++ r)
unfolding has_prefix
has_prefix_parts [] [] h = ([], refl)
has_prefix_parts (a ∷ s) [] h = (a ∷ s, refl)
has_prefix_parts [] (b ∷ p) h = cc h
has_prefix_parts (a ∷ s) (b ∷ p) h =
    let parts = (and_parts (a == b) (has_prefix s p)).0 h in
    let (r, e) = has_prefix_parts s p parts.1 in
    (r, rw ((==_iff a b).0 parts.0) (ap (λ t. b ∷ t) e))

-- `p` is `top`, or an element follows `top` in it.
unfoldable pub IsAtOrBelow : Text → Text → Type 0
IsAtOrBelow p top = (p ≡ top) ⊎ ((r : Text) × (p ≡ top ++ (b'/' ∷ r)))

or_split : (a b : Bool) → ((a || b) ≡ true) ↔ ((a ≡ true) ⊎ (b ≡ true))
or_split a b = ground arith

pub at_or_below_iff : (p top : Text) → (at_or_below p top ≡ true) ↔ IsAtOrBelow p top
unfolding IsAtOrBelow
at_or_below_iff p top =
    let parts = or_split (text_eq p top) (has_prefix p (top ++ slash)) in
    (
      λ h. elim (parts.0 h) [
        | inl same ↦ inl ((text_eq_iff p top).0 same)
        | inr below ↦
            let (r, e) = has_prefix_parts p (top ++ slash) below in
            inr (r, e ∙ append_assoc top slash r)
      ],
      λ h. elim h [
        | inl same ↦ parts.1 (inl ((text_eq_iff p top).1 same))
        | inr (r, e) ↦ parts.1 (
            inr (
              ap (λ s. has_prefix s (top ++ slash)) (e ∙ sym (append_assoc top slash r))
              ∙ has_prefix-append (top ++ slash) r))
      ],
    )

-- A path whose clean form is neither the root nor empty is hidden, or excluded, exactly if a path of
-- the set is its clean form or is followed by a slash in it: "/a" covers "/a/b" but not "/ab".
pub is_covered_by_iff :
    (tops : List Text) (path : Text)
    → clean_vfs_path path ≢ slash
    → clean_vfs_path path ≢ []
    → (is_covered_by tops path ≡ true) ↔ AnyOf (IsAtOrBelow (clean_vfs_path path)) tops
unfolding is_covered_by
is_covered_by_iff tops path h k =
    let p = clean_vfs_path path in
    rw (text_eq_of_ne p slash h, text_eq_of_ne p [] k)
      (any_iff (IsAtOrBelow p) (at_or_below p) tops (at_or_below_iff p))
