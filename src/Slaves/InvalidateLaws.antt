-- ===== src/Slaves/InvalidateLaws.antt =====
-- What the master forgets of a release when its path goes.
use weave_ftpd.Base.{
  text_eq_sym, ◌≡◌, refl, ◌∙◌, sym, ap, ◌↔◌, ◌⊎◌, ℕ, ◌==◌, ◌++◌, trim_right, trim_left, reverse, [],
  ◌∷◌, Bool, true, false, ◌||◌, none, if◌then◌else◌, Text, text_eq, text_eq_iff, has_prefix, Dict,
  lookup, delete, lookup-delete, Bool-cases, inl, inr, arith, subst,
}
use mathlib.Core.List.{reverse-append, reverse-reverse}
use weave_ftpd.GoPath.Clean.{clean, slash}
use weave_ftpd.Vfs.Paths.{at_or_below}
use weave_ftpd.Vfs.CoverLaws.{IsAtOrBelow, at_or_below_iff}
use weave_ftpd.Slaves.Releases.{
  ReleaseState, delete_below, below_prefix, invalidate_release_state_for_path,
}

moved :
    (path prefix key q : Text) (b : Bool)
    → text_eq key q ≡ true
    → (text_eq key path || has_prefix key prefix) ≡ b
    → (text_eq q path || has_prefix q prefix) ≡ b
moved path prefix key q b same h =
    subst (λ k. (text_eq k path || has_prefix k prefix) ≡ b) ((text_eq_iff key q).0 same) h

lookup-delete_below {ℓ} :
    {V : Type ℓ} (path prefix q : Text) (m : Dict V)
    → lookup q (delete_below path prefix m)
      ≡ (if text_eq q path || has_prefix q prefix then none else lookup q m)
unfolding lookup delete_below
lookup-delete_below path prefix q [] = ground arith
lookup-delete_below path prefix q ((key, v) ∷ m) =
    let ih = lookup-delete_below path prefix q m in
    elim (Bool-cases (text_eq key q)) [
      | inl same ↦ elim (Bool-cases (text_eq key path || has_prefix key prefix)) [
        | inl gone ↦ rw (gone, ih, moved path prefix key q true same gone) refl
        | inr kept ↦ rw (kept, same, moved path prefix key q false same kept) refl
      ]
      | inr other ↦ elim (Bool-cases (text_eq key path || has_prefix key prefix)) [
        | inl gone ↦ rw (gone, ih, other) refl
        | inr kept ↦ rw (kept, other, ih) refl
      ]
    ]

abbrev forgotten : Text → Text → Bool
forgotten p q = text_eq q p || has_prefix q (below_prefix p)

forget {ℓ} :
    {V : Type ℓ} (p q : Text) (m : Dict V)
    → lookup q (delete_below p (below_prefix p) (delete p m))
      ≡ (if forgotten p q then none else lookup q m)
forget p q m =
    lookup-delete_below p (below_prefix p) q (delete p m) ∙ elim (Bool-cases (text_eq p q)) [
      | inl same ↦ rw (text_eq_sym q p, same) refl
      | inr other ↦ rw (lookup-delete p q m, text_eq_sym q p, other) refl
    ]

trim_right_last :
    (p : ℕ → Bool) (d : Text) (c : ℕ) → p c ≡ false → trim_right p (d ++ c ∷ []) ≡ d ++ c ∷ []
unfolding trim_right trim_left
trim_right_last p d c h =
    ap (λ s. reverse (trim_left p s)) (reverse-append d (c ∷ []))
    ∙ rw h (ap reverse (sym (reverse-append d (c ∷ []))) ∙ reverse-reverse (d ++ c ∷ []))

-- A path that does not end in a slash: what lies below it begins with it and a slash.
forgotten-at_or_below :
    (p d q : Text) (c : ℕ) → p ≡ d ++ c ∷ [] → (c == b'/') ≡ false → forgotten p q ≡ at_or_below q p
unfolding below_prefix
forgotten-at_or_below p d q c e h =
    ap (λ s. text_eq q p || has_prefix q (s ++ slash))
      (ap (trim_right (λ b. b == b'/')) e ∙ (trim_right_last (λ b. b == b'/') d c h ∙ sym e))

-- What is known of a release under the path `q`, before and after.
pub record IsForgotten (q : Text) (t : ReleaseState) : Type 0 where
  pub media : lookup q t.media ≡ none
  pub announcements : lookup q t.announcements ≡ none
  pub race_windows : lookup q t.race_windows ≡ none

pub record IsKept (q : Text) (s t : ReleaseState) : Type 0 where
  pub media : lookup q t.media ≡ lookup q s.media
  pub announcements : lookup q t.announcements ≡ lookup q s.announcements
  pub race_windows : lookup q t.race_windows ≡ lookup q s.race_windows

IsForgotten-or_IsKept :
    (p q : Text) (s t : ReleaseState) (b : Bool)
    → (lookup q t.media ≡ (if b then none else lookup q s.media))
    → (lookup q t.announcements ≡ (if b then none else lookup q s.announcements))
    → (lookup q t.race_windows ≡ (if b then none else lookup q s.race_windows))
    → ((b ≡ true) ↔ IsAtOrBelow q p)
    → (IsAtOrBelow q p × IsForgotten q t) ⊎ (¬ IsAtOrBelow q p × IsKept q s t)
IsForgotten-or_IsKept p q s t true m a r same =
    inl (same.0 refl, record { media = m; announcements = a; race_windows = r })
IsForgotten-or_IsKept p q s t false m a r same =
    inr (λ k. cc (same.1 k), record { media = m; announcements = a; race_windows = r })

-- Invalidating a directory whose clean form does not end in a slash, which only the root's does, drops
-- the media information, the announcements and the race windows of the paths that are its clean form
-- or begin with it and a slash, and keeps those of all other paths.
pub invalidate_release_state_for_path_lem :
    (file_path d q : Text) (c : ℕ) (s : ReleaseState)
    → clean file_path ≡ d ++ c ∷ []
    → (c == b'/') ≡ false
    → let t = invalidate_release_state_for_path file_path true s in
      (IsAtOrBelow q (clean file_path) × IsForgotten q t)
      ⊎ (¬ IsAtOrBelow q (clean file_path) × IsKept q s t)
unfolding invalidate_release_state_for_path
invalidate_release_state_for_path_lem file_path d q c s e h =
    let p = clean file_path in
    IsForgotten-or_IsKept p q s (invalidate_release_state_for_path file_path true s) (forgotten p q)
      (forget p q s.media) (forget p q s.announcements) (forget p q s.race_windows)
      (subst (λ b. (b ≡ true) ↔ IsAtOrBelow q p) (sym (forgotten-at_or_below p d q c e h))
        (at_or_below_iff q p))
