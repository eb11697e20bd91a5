-- ===== src/Slaves/SelectLaws.antt =====
-- What the choice of a slave for an upload guarantees.
use weave_ftpd.Base.{
  ℕ, ◌≡◌, ◌⊎◌, inl, inr, refl, List, [], ◌∷◌, Bool, true, false, ◌&&◌, ◌||◌, not, Option, none,
  some, Text, text_eq, text_eq_iff, trim_space, AnyOf, any, Dict, All, and_parts, arith, Bool-cases,
  Option-cases, subst,
}
use mathlib.Core.Option.{some-injective}
use weave_ftpd.Base.Int.{ℤ}
use weave_ftpd.GoPath.Clean.{slash, dot}
use weave_ftpd.Vfs.CoverLaws.{IsAtOrBelow, at_or_below_iff}
use weave_ftpd.Slaves.Policy.{
  mount_holds, is_empty, RemoteSlave, SlaveRoutePolicy, SlaveManager, get_policy, is_read_only,
  is_slave_read_only, rooted, slave_can_store_path,
}
use weave_ftpd.Slaves.Select.{
  keep_available, get_available_slaves, Weighted, policy_weight, fallback_weight, weigh, or_else,
  eligible_slaves, beats, best_of, pick, first_owner, directory_owner, fit_owner,
  select_owned_ancestor_slave_for_upload, select_slave_for_upload, weight_by,
}

-- A root of the slave is at or above the clean path.
pub Holds : Text → Text → Type 0
Holds p m = (m ≡ dot) ⊎ (m ≡ []) ⊎ (m ≡ slash) ⊎ IsAtOrBelow p m

-- The clean path is the root, ".", or blank, or the slave has reported no roots or one at or above it.
pub CanStore : RemoteSlave → Text → Type 0
CanStore rs p =
    (p ≡ dot)
    ⊎ (p ≡ slash)
    ⊎ (trim_space p ≡ [])
    ⊎ (rs.mount_paths ≡ [])
    ⊎ AnyOf (λ m. Holds p (rooted m)) rs.mount_paths

or3 : (a b c : Bool) → (a || (b || c)) ≡ true → (a ≡ true) ⊎ (b ≡ true) ⊎ (c ≡ true)
or3 a b c h = ground arith

Holds-of_mount : (p m : Text) → mount_holds p m ≡ true → Holds p m
unfolding mount_holds Holds
Holds-of_mount p m h = elim (Bool-cases (text_eq m dot)) [
  | inl e ↦ inl ((text_eq_iff m dot).0 e)
  | inr d ↦ elim (Bool-cases (text_eq m [])) [
    | inl e ↦ inr (inl ((text_eq_iff m []).0 e))
    | inr n ↦ elim (Bool-cases (text_eq m slash)) [
      | inl e ↦ inr (inr (inl ((text_eq_iff m slash).0 e)))
      | inr s ↦ inr (inr (inr ((at_or_below_iff p m).0 (rw (d, n, s) at h))))
    ]
  ]
]

AnyOf-of_test :
    (test : Text → Bool) (P : Text → Type 0) (ms : List Text)
    → ((m : Text) → test m ≡ true → P m)
    → any test ms ≡ true
    → AnyOf P ms
unfolding any
AnyOf-of_test test P [] holds h = cc h
AnyOf-of_test test P (m ∷ ms) holds h = elim (Bool-cases (test m)) [
  | inl here ↦ inl (holds m here)
  | inr later ↦ inr (AnyOf-of_test test P ms holds (rw later at h))
]

empty_list : (ms : List Text) → is_empty ms ≡ true → ms ≡ []
empty_list [] h = refl
empty_list (m ∷ ms) h = cc h

CanStore-of_test :
    (rs : RemoteSlave) (path : Text)
    → slave_can_store_path rs path ≡ true
    → CanStore rs (rooted path)
unfolding slave_can_store_path CanStore
CanStore-of_test rs path h =
    let p = rooted path in
    elim (Bool-cases (text_eq p dot || (text_eq p slash || text_eq (trim_space p) []))) [
      | inl top ↦ elim (or3 _ _ _ top) [
        | inl e ↦ inl ((text_eq_iff p dot).0 e)
        | inr (inl e) ↦ inr (inl ((text_eq_iff p slash).0 e))
        | inr (inr e) ↦ inr (inr (inl ((text_eq_iff (trim_space p) []).0 e)))
      ]
      | inr below ↦ elim (Bool-cases (is_empty rs.mount_paths)) [
        | inl none_there ↦ inr (inr (inr (inl (empty_list rs.mount_paths none_there))))
        | inr listed ↦ inr (
            inr (
              inr (
                inr (
                  AnyOf-of_test (λ m. mount_holds p (rooted m)) (λ m. Holds p (rooted m))
                    rs.mount_paths (λ m. Holds-of_mount p (rooted m)) (rw (below, listed) at h)))))
      ]
    ]

-- A slave that may take an upload to this path. The choice by the directory above cleans the path
-- twice.
pub record IsFit (sm : SlaveManager) (path : Text) (rs : RemoteSlave) : Type 0 where
  pub available : rs.available ≡ true
  pub writable : is_slave_read_only rs.name sm ≡ false
  pub has_mount : CanStore rs (rooted path) ⊎ CanStore rs (rooted (rooted path))

module _ (P Q : RemoteSlave → Type 0) (f : RemoteSlave → Option ℤ)
    (fit : (rs : RemoteSlave) (w : ℤ) → Q rs → f rs ≡ some w → P rs) where
  weigh-All : (slaves : List RemoteSlave) → All Q slaves → All (λ e. P e.0) (weigh f slaves)
  unfolding weigh
  weigh-All [] h = tt
  weigh-All (rs ∷ rest) (q, h) = elim (Option-cases (f rs)) [
    | inl out ↦ rw out (weigh-All rest h)
    | inr (w, in_list) ↦ rw in_list (fit rs w q in_list, weigh-All rest h)
  ]

keep_available-All :
    (slaves : Dict RemoteSlave) → All (λ rs. rs.available ≡ true) (keep_available slaves)
unfolding keep_available
keep_available-All [] = tt
keep_available-All ((name, rs) ∷ rest) = elim (Bool-cases rs.available) [
  | inl up ↦ rw up (refl, keep_available-All rest)
  | inr down ↦ rw down (keep_available-All rest)
]

weight_by-writable :
    (o : Option SlaveRoutePolicy) (section path : Text) (w : ℤ)
    → weight_by o section path ≡ some w
    → is_read_only o ≡ false
weight_by-writable none section path w h = refl
weight_by-writable (some policy) section path w h = elim (Bool-cases policy.read_only) [
  | inl closed ↦ cc (rw closed at h)
  | inr writes ↦ writes
]

module _ (sm : SlaveManager) (path : Text) where
  policy_weight-IsFit :
      (rs : RemoteSlave) (w : ℤ)
      → rs.available ≡ true
      → policy_weight sm path rs ≡ some w
      → IsFit sm path rs
  unfolding policy_weight is_slave_read_only
  policy_weight-IsFit rs w up h = elim (Bool-cases (slave_can_store_path rs path)) [
    | inl fits ↦ record {
      available = up;
      writable = weight_by-writable (get_policy rs.name sm) _ path w (rw fits at h);
      has_mount = inl (CanStore-of_test rs path fits);
    }
    | inr full ↦ cc (rw full at h)
  ]

  fallback_weight-IsFit :
      (rs : RemoteSlave) (w : ℤ)
      → rs.available ≡ true
      → fallback_weight sm path rs ≡ some w
      → IsFit sm path rs
  unfolding fallback_weight
  fallback_weight-IsFit rs w up h = elim (Bool-cases (slave_can_store_path rs path)) [
    | inl fits ↦ elim (Bool-cases (is_slave_read_only rs.name sm)) [
      | inl closed ↦ cc (rw (fits, closed) at h)
      | inr writes ↦ record {
        available = up;
        writable = writes;
        has_mount = inl (CanStore-of_test rs path fits);
      }
    ]
    | inr full ↦ cc (rw full at h)
  ]

or_else-All :
    (P : Weighted → Type 0) (a b : List Weighted) → All P a → All P b → All P (or_else a b)
or_else-All P [] b h k = k
or_else-All P (e ∷ a) b h k = h

eligible_slaves-IsFit :
    (sm : SlaveManager) (path : Text) → All (λ e. IsFit sm path e.0) (eligible_slaves sm path)
unfolding eligible_slaves get_available_slaves
eligible_slaves-IsFit sm path =
    or_else-All _ _ _
      (weigh-All (IsFit sm path) _ _ (policy_weight-IsFit sm path) _ (keep_available-All sm.slaves))
      (weigh-All (IsFit sm path) _ _ (fallback_weight-IsFit sm path) _
        (keep_available-All sm.slaves))

of_not : (b : Bool) → not b ≡ true → b ≡ false
of_not b h = ground arith

-- The choice by the directories above.
fit_owner-IsFit :
    (sm : SlaveManager) (path : Text) (o : Option RemoteSlave) (rs : RemoteSlave)
    → fit_owner sm (rooted path) o ≡ some rs
    → IsFit sm path rs
unfolding fit_owner
fit_owner-IsFit sm path none rs h = cc h
fit_owner-IsFit sm path (some rs') rs h =
    elim (Bool-cases (
      rs'.available
      && (not (is_slave_read_only rs'.name sm) && slave_can_store_path rs' (rooted path)))) [
        | inl fits ↦
            let e = some-injective _ _ (rw fits at h) in
            let parts = (and_parts rs'.available _).0 fits in
            let more = (and_parts (not (is_slave_read_only rs'.name sm)) _).0 parts.1 in
            subst (IsFit sm path) e (record {
              available = parts.0;
              writable = of_not _ more.0;
              has_mount = inr (CanStore-of_test rs' (rooted path) more.1);
            })
        | inr unfit ↦ cc (rw unfit at h)
      ]

directory_owner-IsFit :
    (sm : SlaveManager) (path d : Text) (rs : RemoteSlave)
    → directory_owner sm (rooted path) d ≡ some rs
    → IsFit sm path rs
unfolding directory_owner
directory_owner-IsFit sm path d rs h = fit_owner-IsFit sm path _ rs h

first_owner-IsFit :
    (sm : SlaveManager) (path : Text) (ds : List Text) (rs : RemoteSlave)
    → first_owner sm (rooted path) ds ≡ some rs
    → IsFit sm path rs
unfolding first_owner
first_owner-IsFit sm path [] rs h = cc h
first_owner-IsFit sm path (d ∷ ds) rs h = elim (Option-cases (directory_owner sm (rooted path) d)) [
  | inl nobody ↦ first_owner-IsFit sm path ds rs (rw nobody at h)
  | inr (rs', e) ↦
      subst (IsFit sm path) (some-injective _ _ (rw e at h)) (directory_owner-IsFit sm path d rs' e)
]

owner-IsFit :
    (sm : SlaveManager) (path : Text) (rs : RemoteSlave)
    → select_owned_ancestor_slave_for_upload sm path ≡ some rs
    → IsFit sm path rs
unfolding select_owned_ancestor_slave_for_upload
owner-IsFit sm path rs h =
    elim (Bool-cases (text_eq (rooted path) slash || text_eq (rooted path) dot)) [
      | inl root ↦ cc (rw root at h)
      | inr below ↦ first_owner-IsFit sm path _ rs (rw below at h)
    ]

module _ (quotient_bits : ℤ → ℤ → ℕ) where
  best_of-All :
      (P : Weighted → Type 0) (best : Weighted) (rest : List Weighted)
      → P best
      → All P rest
      → P (best_of quotient_bits best rest)
  unfolding best_of
  best_of-All P best [] p h = p
  best_of-All P best (e ∷ rest) p (q, h) = elim (Bool-cases (beats quotient_bits e best)) [
    | inl better ↦ rw better (best_of-All P e rest q h)
    | inr worse ↦ rw worse (best_of-All P best rest p h)
  ]

  pick-All :
      (P : RemoteSlave → Type 0) (es : List Weighted) (rs : RemoteSlave)
      → All (λ e. P e.0) es
      → pick quotient_bits es ≡ some rs
      → P rs
  unfolding pick
  pick-All P [] rs h k = cc k
  pick-All P (e ∷ rest) rs (p, h) k =
      subst P (some-injective _ _ k) (best_of-All (λ x. P x.0) e rest p h)

  -- The slave that is chosen for an upload is available, is not read-only, and has reported no roots or
  -- one at or above the path, unless the path cleans to the root or a blank.
  pub select_slave_for_upload-IsFit :
      (sm : SlaveManager) (path : Text) (rs : RemoteSlave)
      → select_slave_for_upload quotient_bits sm path ≡ some rs
      → IsFit sm path rs
  unfolding select_slave_for_upload
  select_slave_for_upload-IsFit sm path rs h =
      elim (Option-cases (select_owned_ancestor_slave_for_upload sm path)) [
        | inl nobody ↦
            pick-All (IsFit sm path) (eligible_slaves sm path) rs (eligible_slaves-IsFit sm path)
              (rw nobody at h)
        | inr (rs', e) ↦
            subst (IsFit sm path) (some-injective _ _ (rw e at h)) (owner-IsFit sm path rs' e)
      ]
