-- ===== src/Acl/RequirementLaws.antt =====
-- What checkRequirement of internal/acl/acl.go decides, stated without its loops.
use weave_ftpd.Base.{
  ◌≡◌, ◌↔◌, ◌⊎◌, inl, inr, refl, List, [], ◌∷◌, Bool, true, false, ◌&&◌, ◌||◌, not, arith, Text,
  text_eq, text_eq_iff, equal_fold, any, all, All, AnyOf, any_iff, all_iff, and_parts, Bool-cases,
  if◌then◌else◌,
}
use weave_ftpd.User.Account.{User, has_flag, is_in_group}
use weave_ftpd.Acl.Requirement.{
  Terms, Requirement, requirement, Requirements, nil, cons, has_all_flags, one_of, check_terms,
  is_nil, check_requirement, check_all, check_any,
}

not_both : (b : Bool) → not b ≡ true → b ≡ true → ⊥
not_both b h k = ground arith

and_iff :
    {P Q : Type 0} (a b : Bool) → (a ≡ true) ↔ P → (b ≡ true) ↔ Q → ((a && b) ≡ true) ↔ (P × Q)
and_iff a b i j =
    let parts = and_parts a b in
    (λ h. (i.0 (parts.0 h).0, j.0 (parts.0 h).1), λ p. parts.1 (i.1 p.0, j.1 p.1))

or_parts : (a b : Bool) → ((a || b) ≡ true) ↔ ((a ≡ true) ⊎ (b ≡ true))
or_parts a b = ground arith

or_iff : {P Q : Type 0} (a b : Bool) → (a ≡ true) ↔ P → (b ≡ true) ↔ Q → ((a || b) ≡ true) ↔ (P ⊎ Q)
or_iff a b i j =
    let parts = or_parts a b in
    (
      λ h. elim (parts.0 h) [ inl x ↦ inl (i.0 x) | inr y ↦ inr (j.0 y) ],
      λ p. elim p [ inl x ↦ parts.1 (inl (i.1 x)) | inr y ↦ parts.1 (inr (j.1 y)) ],
    )

module _ (u : User) where
  abbrev pub HasFlag : Text → Type 0
  HasFlag f = has_flag u f ≡ true

  abbrev pub InGroup : Text → Type 0
  InGroup g = is_in_group u g ≡ true

  abbrev pub IsCalled : Text → Type 0
  IsCalled n = equal_fold u.name n ≡ true

  -- A list that asks for one of its elements, if it has any.
  abbrev pub OneOf : (Text → Type 0) → List Text → Type 0
  OneOf P [] = Unit
  OneOf P (x ∷ xs) = AnyOf P (x ∷ xs)

  -- The account has what the terms ask for, and nothing that they exclude.
  pub record SatisfiesTerms (t : Terms) : Type 0 where
    pub no_bad_flag : ¬ AnyOf HasFlag t.not_flags
    pub no_bad_group : ¬ AnyOf InGroup t.not_groups
    pub no_bad_name : ¬ AnyOf IsCalled t.not_users
    pub every_flag : All (λ f. (f ≡ []) ⊎ HasFlag f) t.all_flags
    pub some_flag : OneOf HasFlag t.any_flags
    pub every_group : All InGroup t.all_groups
    pub some_group : OneOf InGroup t.any_groups
    pub some_name : OneOf IsCalled t.users

  no_any_iff :
      (p : Text → Bool) (xs : List Text) → (not (any p xs) ≡ true) ↔ (¬ AnyOf (λ x. p x ≡ true) xs)
  no_any_iff p xs =
      let i = any_iff (λ y. p y ≡ true) p xs (λ y. (λ h. h, λ h. h)) in
      (
        λ h a. not_both (any p xs) h (i.1 a),
        λ h. elim (Bool-cases (any p xs)) [ inl t ↦ absurd (h (i.0 t)) | inr f ↦ rw f ],
      )

  one_of_iff :
      (p : Text → Bool) (xs : List Text) → (one_of p xs ≡ true) ↔ OneOf (λ x. p x ≡ true) xs
  unfolding one_of
  one_of_iff p [] = (λ h. tt, λ h. refl)
  one_of_iff p (x ∷ xs) = any_iff (λ y. p y ≡ true) p (x ∷ xs) (λ y. (λ h. h, λ h. h))

  flag_iff : (f : Text) → ((text_eq f [] || has_flag u f) ≡ true) ↔ ((f ≡ []) ⊎ HasFlag f)
  flag_iff f = or_iff (text_eq f []) (has_flag u f) (text_eq_iff f []) (λ h. h, λ h. h)

  every_flag_iff :
      (flags : List Text) → (has_all_flags u flags ≡ true) ↔ All (λ f. (f ≡ []) ⊎ HasFlag f) flags
  unfolding has_all_flags
  every_flag_iff flags = all_iff _ _ flags flag_iff

  terms_of_parts :
      (t : Terms)
      → (¬ AnyOf HasFlag t.not_flags)
        × ((¬ AnyOf InGroup t.not_groups)
            × ((¬ AnyOf IsCalled t.not_users)
                × (All (λ f. (f ≡ []) ⊎ HasFlag f) t.all_flags
                    × (OneOf HasFlag t.any_flags
                        × (All InGroup t.all_groups
                            × (OneOf InGroup t.any_groups × OneOf IsCalled t.users))))))
      → SatisfiesTerms t
  terms_of_parts t p = record {
    no_bad_flag = p.0;
    no_bad_group = p.1.0;
    no_bad_name = p.1.1.0;
    every_flag = p.1.1.1.0;
    some_flag = p.1.1.1.1.0;
    every_group = p.1.1.1.1.1.0;
    some_group = p.1.1.1.1.1.1.0;
    some_name = p.1.1.1.1.1.1.1;
  }

  check_terms_iff : (t : Terms) → (check_terms u t ≡ true) ↔ SatisfiesTerms t
  unfolding check_terms
  check_terms_iff t =
      let i = and_iff (not (any (has_flag u) t.not_flags)) _ (no_any_iff (has_flag u) t.not_flags) (
        and_iff (not (any (is_in_group u) t.not_groups)) _ (no_any_iff (is_in_group u) t.not_groups)
          (and_iff (not (any (equal_fold u.name) t.not_users)) _
            (no_any_iff (equal_fold u.name) t.not_users)
            (and_iff (has_all_flags u t.all_flags) _ (every_flag_iff t.all_flags) (
              and_iff (one_of (has_flag u) t.any_flags) _ (one_of_iff (has_flag u) t.any_flags) (
                and_iff (all (is_in_group u) t.all_groups) _
                  (all_iff InGroup (is_in_group u) t.all_groups (λ g. (λ h. h, λ h. h)))
                  (and_iff (one_of (is_in_group u) t.any_groups)
                    (one_of (equal_fold u.name) t.users) (one_of_iff (is_in_group u) t.any_groups)
                    (one_of_iff (equal_fold u.name) t.users))))))) in
      (
        λ h. terms_of_parts t (i.0 h),
        λ s. i.1 (
          s.no_bad_flag,
          (
            s.no_bad_group,
            (
              s.no_bad_name,
              (s.every_flag, (s.some_flag, (s.every_group, (s.some_group, s.some_name)))),
            ),
          ),
        ),
      )

-- The account satisfies a requirement: not with `nobody`, and with all of one list of further
-- requirements and one of the other, if that has any.
unfoldable mutual
  pub Satisfies : User → Requirement → Type 0
  Satisfies u (requirement t any_of all_of) =
      (t.nobody ≡ false) × (SatisfiesTerms u t × (SatisfiesAll u all_of × SatisfiesOne u any_of))

  pub SatisfiesAll : User → Requirements → Type 0
  SatisfiesAll u nil = Unit
  SatisfiesAll u (cons r rs) = Satisfies u r × SatisfiesAll u rs

  pub SatisfiesOne : User → Requirements → Type 0
  SatisfiesOne u nil = Unit
  SatisfiesOne u (cons r rs) = Satisfies u r ⊎ SatisfiesAny u rs

  pub SatisfiesAny : User → Requirements → Type 0
  SatisfiesAny u nil = ⊥
  SatisfiesAny u (cons r rs) = Satisfies u r ⊎ SatisfiesAny u rs

not_nobody_iff : (b c : Bool) → ((if b then false else c) ≡ true) ↔ ((b ≡ false) × (c ≡ true))
not_nobody_iff b c = ground arith

mutual
  unfolding check_requirement Satisfies is_nil

  check_iff : (u : User) (r : Requirement) → (check_requirement u r ≡ true) ↔ Satisfies u r
  check_iff u (requirement t any_of all_of) =
      let i = and_iff (check_terms u t) _ (check_terms_iff u t) (
        and_iff (check_all u all_of) (is_nil any_of || check_any u any_of) (check_all_iff u all_of)
          (check_one_iff u any_of)) in
      let j = not_nobody_iff t.nobody _ in
      (λ h. ((j.0 h).0, i.0 (j.0 h).1), λ s. j.1 (s.0, i.1 s.1))

  check_all_iff : (u : User) (rs : Requirements) → (check_all u rs ≡ true) ↔ SatisfiesAll u rs
  check_all_iff u nil = (λ h. tt, λ h. refl)
  check_all_iff u (cons r rs) =
      and_iff (check_requirement u r) (check_all u rs) (check_iff u r) (check_all_iff u rs)

  check_one_iff :
      (u : User) (rs : Requirements) → ((is_nil rs || check_any u rs) ≡ true) ↔ SatisfiesOne u rs
  check_one_iff u nil = (λ h. tt, λ h. refl)
  check_one_iff u (cons r rs) =
      or_iff (check_requirement u r) (check_any u rs) (check_iff u r) (check_any_iff u rs)

  check_any_iff : (u : User) (rs : Requirements) → (check_any u rs ≡ true) ↔ SatisfiesAny u rs
  check_any_iff u nil = (λ h. cc, λ h. absurd h)
  check_any_iff u (cons r rs) =
      or_iff (check_requirement u r) (check_any u rs) (check_iff u r) (check_any_iff u rs)

-- checkRequirement accepts an account exactly if the account satisfies the requirement, at every
-- depth of nested requirements.
pub check_requirement_iff :
    (u : User) (r : Requirement) → (check_requirement u r ≡ true) ↔ Satisfies u r
check_requirement_iff u r = check_iff u r
