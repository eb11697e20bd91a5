-- ===== src/Base/Trim.antt =====
-- The laws of strings.TrimSpace.
use mathlib.Core.Path.{◌≡◌, refl, sym, ap, ◌∙◌}
use mathlib.Core.Bool.{Bool, false}
use mathlib.Core.List.{[], ◌∷◌, ◌++◌, reverse, reverse-append, reverse-reverse}
use mathlib.Core.Logic.{inl, inr}
use Prim.Native.Nat.{ℕ}
use weave_ftpd.Base.Tests.{Bool-cases}
use weave_ftpd.Base.Strings.{Text, is_space, trim_left, trim_right, trim_space}

-- The first byte, if there is one, is not cut off.
abbrev pub Starts : (ℕ → Bool) → Text → Type 0
Starts p [] = Unit
Starts p (a ∷ s) = p a ≡ false

trim_left-Starts : (p : ℕ → Bool) (s : Text) → Starts p (trim_left p s)
unfolding trim_left
trim_left-Starts p [] = tt
trim_left-Starts p (a ∷ s) = elim (Bool-cases (p a)) [
  | inl cut ↦ rw cut (trim_left-Starts p s)
  | inr kept ↦ rw kept kept
]

pub trim_left_of_Starts : (p : ℕ → Bool) (s : Text) → Starts p s → trim_left p s ≡ s
unfolding trim_left
trim_left_of_Starts p [] h = refl
trim_left_of_Starts p (a ∷ s) h = rw h

trim_left_suffix : (p : ℕ → Bool) (s : Text) → (d : Text) × (s ≡ d ++ trim_left p s)
unfolding trim_left
trim_left_suffix p [] = ([], refl)
trim_left_suffix p (a ∷ s) = elim (Bool-cases (p a)) [
  | inl cut ↦ let (d, e) = trim_left_suffix p s in (a ∷ d, rw cut (ap (λ t. a ∷ t) e))
  | inr kept ↦ ([], rw kept)
]

Starts-of_append : (p : ℕ → Bool) (x y : Text) → Starts p (x ++ y) → Starts p x
Starts-of_append p [] y h = tt
Starts-of_append p (a ∷ x) y h = h

trim_right_prefix : (p : ℕ → Bool) (s : Text) → (d : Text) × (s ≡ trim_right p s ++ d)
unfolding trim_right
trim_right_prefix p s =
    let (d, e) = trim_left_suffix p (reverse s) in
    (reverse d, sym (reverse-reverse s) ∙ (ap reverse e ∙ reverse-append d _))

trim_right-Starts : (p : ℕ → Bool) (s : Text) → Starts p s → Starts p (trim_right p s)
trim_right-Starts p s h =
    let (d, e) = trim_right_prefix p s in Starts-of_append p (trim_right p s) d (rw e at h)

-- No white space at either end.
abbrev pub IsTrimmed : Text → Type 0
IsTrimmed s = Starts is_space s × Starts is_space (reverse s)

pub trim_space_of_IsTrimmed : (s : Text) → IsTrimmed s → trim_space s ≡ s
unfolding trim_space
trim_space_of_IsTrimmed s h =
    ap (trim_right is_space) (trim_left_of_Starts is_space s h.0)
    ∙ (ap reverse (trim_left_of_Starts is_space (reverse s) h.1) ∙ reverse-reverse s)

pub trim_space-IsTrimmed : (s : Text) → IsTrimmed (trim_space s)
unfolding trim_space
trim_space-IsTrimmed s = (
  trim_right-Starts is_space _ (trim_left-Starts is_space s),
  rw reverse-reverse (trim_left-Starts is_space (reverse (trim_left is_space s))),
)

pub trim_space-trim_space : (s : Text) → trim_space (trim_space s) ≡ trim_space s
trim_space-trim_space s = trim_space_of_IsTrimmed (trim_space s) (trim_space-IsTrimmed s)
