-- ===== src/Base/Lists.antt =====
-- Lists measured by native numbers, under the library's names, and Boolean quantifiers over them.
use Prim.Native.Nat.{ℕ, suc, ◌+◌}
use mathlib.Core.Path.{◌≡◌, refl}
use mathlib.Core.Logic.{◌↔◌, ◌⊎◌, inl, inr}
use mathlib.Core.Bool.{Bool, true, false, ◌&&◌, ◌||◌}
use mathlib.Core.List.{List, [], ◌∷◌, ◌++◌, reverse, reverse-cons}
use native.Mathlib.Omega.{arith}
use weave_ftpd.Base.Tests.{Bool-cases}

module _ {ℓ} {A : Type ℓ} where
  abbrev pub length : List A → ℕ
  length [] = 0
  length (x ∷ xs) = suc (length xs)

  -- `for _, x := range xs { if p(x) { return true } }; return false`
  unfoldable pub any : (A → Bool) → List A → Bool
  any p [] = false
  any p (x ∷ xs) = p x || any p xs

  unfoldable pub all : (A → Bool) → List A → Bool
  all p [] = true
  all p (x ∷ xs) = p x && all p xs

  pub length-append : (xs ys : List A) → length (xs ++ ys) ≡ length xs + length ys
  length-append [] ys = omega arith
  length-append (x ∷ xs) ys = omega (arith, length-append xs ys)

module _ {ℓ κ} {A : Type ℓ} where
  abbrev pub All : (A → Type κ) → List A → Type κ
  All P [] = Unit
  All P (x ∷ xs) = P x × All P xs

  pub All-append : (P : A → Type κ) (xs ys : List A) → All P xs → All P ys → All P (xs ++ ys)
  All-append P [] ys h k = k
  All-append P (x ∷ xs) ys (p, h) k = (p, All-append P xs ys h k)

  pub All-reverse : (P : A → Type κ) (xs : List A) → All P xs → All P (reverse xs)
  All-reverse P [] h = tt
  All-reverse P (x ∷ xs) (p, h) =
      simp reverse-cons (All-append P (reverse xs) (x ∷ []) (All-reverse P xs h) (p, tt))

module _ {ℓ} {A : Type ℓ} where
  abbrev pub AnyOf : (A → Type 0) → List A → Type 0
  AnyOf P [] = ⊥
  AnyOf P (x ∷ xs) = P x ⊎ AnyOf P xs

pub or_left : (a b : Bool) → a ≡ true → (a || b) ≡ true
or_left a b h = ground arith

pub or_right : (a b : Bool) → b ≡ true → (a || b) ≡ true
or_right a b h = ground arith

or_true_right : (b : Bool) {c : Bool} → c ≡ true → (b || c) ≡ true
or_true_right b h = ground arith

pub and_parts : (a b : Bool) → ((a && b) ≡ true) ↔ ((a ≡ true) × (b ≡ true))
and_parts a b = ground arith

module _ {ℓ} {A : Type ℓ} (P : A → Type 0) (p : A → Bool) where
  -- A loop that looks for an element decides whether there is one.
  pub any_iff : (xs : List A) → ((x : A) → (p x ≡ true) ↔ P x) → (any p xs ≡ true) ↔ AnyOf P xs
  unfolding any
  any_iff [] e = (λ h. cc, λ a. absurd a)
  any_iff (x ∷ xs) e =
      let ih = any_iff xs e in
      (
        λ h. elim (Bool-cases (p x)) [ inl t ↦ inl ((e x).0 t) | inr f ↦ inr (ih.0 (rw f at h)) ],
        λ a. elim a [ inl y ↦ rw ((e x).1 y) | inr z ↦ or_true_right (p x) (ih.1 z) ],
      )

  pub all_iff : (xs : List A) → ((x : A) → (p x ≡ true) ↔ P x) → (all p xs ≡ true) ↔ All P xs
  unfolding all
  all_iff [] e = (λ h. tt, λ a. refl)
  all_iff (x ∷ xs) e =
      let ih = all_iff xs e in
      let parts = and_parts (p x) (all p xs) in
      (λ h. ((e x).0 (parts.0 h).0, ih.0 (parts.0 h).1), λ a. parts.1 ((e x).1 a.0, ih.1 a.1))
