-- ===== src/Slaves/BestLaws.antt =====
-- The order of the eligible slaves, and the choice among them.
use weave_ftpd.Base.{
  ℕ, ◌≡◌, ◌≢◌, ◌<◌, ◌⊎◌, refl, sym, ap, ◌∙◌, List, [], ◌∷◌, true, false, ◌&&◌, ◌||◌, Option, none,
  some, if◌then◌else◌, ltb, ◌==◌, Text, text_eq, Dict, lookup, All, arith, Bool-cases, inl, inr,
  is_some, subst, AnyOf,
}
use mathlib.Core.Option.{some-injective}
use weave_ftpd.Base.Int.{ℤ, pos, ltb_ℤ, max_ℤ, ◌≤ℤ◌}
use weave_ftpd.Slaves.Policy.{RemoteSlave, SlaveManager, is_slave_read_only, slave_can_store_path}
use weave_ftpd.Slaves.Select.{
  keep_available, get_available_slaves, Weighted, fallback_weight, weigh, or_else, eligible_slaves,
  score, beats, best_of, pick, or_next, select_owned_ancestor_slave_for_upload,
  select_slave_for_upload, put_weighted,
}

lex_refl : (n : ℕ) (a : ℤ) → (ltb n n || (n == n && ltb_ℤ a a)) ≡ false
lex_refl n a = ground arith

lex_trans :
    (q b e : ℕ) (x y z : ℤ)
    → (ltb q b || (q == b && ltb_ℤ y x)) ≡ false
    → (ltb e b || (e == b && ltb_ℤ y z)) ≡ true
    → (ltb q e || (q == e && ltb_ℤ z x)) ≡ false
lex_trans q b e x y z h k = ground arith

lex_least :
    (q b : ℕ) (x y : ℤ)
    → (ltb q b || (q == b && ltb_ℤ y x)) ≡ false
    → (b < q) ⊎ ((b ≡ q) × (x ≤ℤ y))
lex_least q b x y h = elim (Bool-cases (ltb b q)) [
  | inl less ↦ inl (ground arith)
  | inr least ↦ inr (ground arith, ground arith)
]

at_least_one : (w : ℤ) → max_ℤ (pos 1) w ≡ (if ltb_ℤ w (pos 1) then pos 1 else w)
at_least_one w = ground arith

module _ (quotient_bits : ℤ → ℤ → ℕ) where
  -- The order of scores, then of free space.
  beats_refl : (e : Weighted) → beats quotient_bits e e ≡ false
  unfolding beats
  beats_refl e = lex_refl (score quotient_bits e) e.0.space_available

  beats_trans :
      (q best e : Weighted)
      → beats quotient_bits q best ≡ false
      → beats quotient_bits e best ≡ true
      → beats quotient_bits q e ≡ false
  unfolding beats
  beats_trans q best e h k =
      lex_trans (score quotient_bits q) (score quotient_bits best) (score quotient_bits e)
        q.0.space_available best.0.space_available e.0.space_available h k

  best_of_better :
      (best e : Weighted) (rest : List Weighted)
      → beats quotient_bits e best ≡ true
      → best_of quotient_bits best (e ∷ rest) ≡ best_of quotient_bits e rest
  unfolding best_of
  best_of_better best e rest h = ap (λ b. best_of quotient_bits (if b then e else best) rest) h

  best_of_worse :
      (best e : Weighted) (rest : List Weighted)
      → beats quotient_bits e best ≡ false
      → best_of quotient_bits best (e ∷ rest) ≡ best_of quotient_bits best rest
  unfolding best_of
  best_of_worse best e rest h = ap (λ b. best_of quotient_bits (if b then e else best) rest) h

  best_of_nil : (best : Weighted) → best_of quotient_bits best [] ≡ best
  unfolding best_of
  best_of_nil best = refl

  best_of_nil_beats :
      (q best : Weighted)
      → beats quotient_bits q best ≡ false
      → beats quotient_bits q (best_of quotient_bits best []) ≡ false
  unfolding best_of
  best_of_nil_beats q best h = h

  best_of-beats :
      (q best : Weighted) (rest : List Weighted)
      → beats quotient_bits q best ≡ false
      → beats quotient_bits q (best_of quotient_bits best rest) ≡ false
  best_of-beats q best [] h = best_of_nil_beats q best h
  best_of-beats q best (e ∷ rest) h = elim (Bool-cases (beats quotient_bits e best)) [
    | inl better ↦
        rw (best_of_better best e rest better)
          (best_of-beats q e rest (beats_trans q best e h better))
    | inr worse ↦ rw (best_of_worse best e rest worse) (best_of-beats q best rest h)
  ]

  abbrev Unbeaten : List Weighted → Weighted → Type 0
  Unbeaten es best = All (λ q. beats quotient_bits q best ≡ false) es

  best_of-rest :
      (best : Weighted) (rest : List Weighted) → Unbeaten rest (best_of quotient_bits best rest)
  best_of-rest best [] = tt
  best_of-rest best (e ∷ rest) = elim (Bool-cases (beats quotient_bits e best)) [
    | inl better ↦
        subst (Unbeaten (e ∷ rest)) (sym (best_of_better best e rest better))
          (best_of-beats e e rest (beats_refl e), best_of-rest e rest)
    | inr worse ↦
        subst (Unbeaten (e ∷ rest)) (sym (best_of_worse best e rest worse))
          (best_of-beats e best rest worse, best_of-rest best rest)
  ]

  abbrev Among : List Weighted → Weighted → Type 0
  Among es best = AnyOf (λ e. best ≡ e) es

  Among-skip :
      (a b : Weighted) (rest : List Weighted) (x : Weighted)
      → Among (b ∷ rest) x
      → Among (b ∷ a ∷ rest) x
  Among-skip a b rest x (inl e) = inl e
  Among-skip a b rest x (inr i) = inr (inr i)

  best_of-Among :
      (best : Weighted) (rest : List Weighted)
      → Among (best ∷ rest) (best_of quotient_bits best rest)
  best_of-Among best [] = inl (best_of_nil best)
  best_of-Among best (e ∷ rest) = elim (Bool-cases (beats quotient_bits e best)) [
    | inl better ↦
        subst (Among (best ∷ e ∷ rest)) (sym (best_of_better best e rest better))
          (inr (best_of-Among e rest))
    | inr worse ↦
        subst (Among (best ∷ e ∷ rest)) (sym (best_of_worse best e rest worse))
          (Among-skip e best rest _ (best_of-Among best rest))
  ]

  -- The transfers of a slave per unit of its weight, which counts as 1 where it is less.
  pub load : Weighted → ℕ
  load e = quotient_bits e.0.active_transfers (max_ℤ (pos 1) e.1)

  -- `best` has a lower load than `q`, or the same with at least as much free space.
  pub IsAsGood : Weighted → Weighted → Type 0
  IsAsGood best q =
      (load best < load q)
      ⊎ ((load best ≡ load q) × (q.0.space_available ≤ℤ best.0.space_available))

  load-score : (e : Weighted) → load e ≡ score quotient_bits e
  unfolding load score
  load-score (rs, weight) = ap (quotient_bits rs.active_transfers) (at_least_one weight)

  IsAsGood-of_unbeaten : (best q : Weighted) → beats quotient_bits q best ≡ false → IsAsGood best q
  unfolding beats IsAsGood
  IsAsGood-of_unbeaten best q h =
      rw (load-score best, load-score q)
        (lex_least (score quotient_bits q) (score quotient_bits best) q.0.space_available
          best.0.space_available h)

  IsAsGood-of_All :
      (best : Weighted) (es : List Weighted) → Unbeaten es best → All (IsAsGood best) es
  IsAsGood-of_All best [] h = tt
  IsAsGood-of_All best (q ∷ es) (h, hs) =
      (IsAsGood-of_unbeaten best q h, IsAsGood-of_All best es hs)

  -- The slave is eligible with some weight with which it is as good as every eligible one.
  pub IsBest : List Weighted → RemoteSlave → Type 0
  IsBest es rs =
      (best : Weighted) × (best.0 ≡ rs) × AnyOf (λ e. best ≡ e) es × All (IsAsGood best) es

  pick-IsBest :
      (es : List Weighted) (rs : RemoteSlave) → pick quotient_bits es ≡ some rs → IsBest es rs
  unfolding pick IsBest
  pick-IsBest [] rs h = cc h
  pick-IsBest (e ∷ rest) rs h =
      let best = best_of quotient_bits e rest in
      (
        best,
        some-injective _ _ h,
        best_of-Among e rest,
        IsAsGood-of_All best (e ∷ rest)
            (best_of-beats e e rest (beats_refl e), best_of-rest e rest),
      )

or_next-none :
    (a b : Option RemoteSlave) (rs : RemoteSlave) → a ≡ none → or_next a b ≡ some rs → b ≡ some rs
or_next-none a b rs e h = rw e at h

weighted_ne :
    (rs : RemoteSlave) (w : ℤ) (o : Option ℤ) (rest : List Weighted)
    → o ≡ some w
    → put_weighted rs o rest ≢ []
weighted_ne rs w o rest e h = cc (rw e at h)

put_weighted_nil :
    (rs : RemoteSlave) (o : Option ℤ) (rest : List Weighted)
    → put_weighted rs o rest ≡ []
    → rest ≡ []
put_weighted_nil rs none rest h = h
put_weighted_nil rs (some w) rest h = cc h

module _ (f : RemoteSlave → Option ℤ) where
  weigh-head :
      (key : Text) (rs : RemoteSlave) (rest : Dict RemoteSlave) (w : ℤ)
      → rs.available ≡ true
      → f rs ≡ some w
      → weigh f (keep_available ((key, rs) ∷ rest)) ≢ []
  unfolding weigh keep_available
  weigh-head key rs rest w up e h =
      weighted_ne rs w (f rs) (weigh f (keep_available rest)) e (
        ap (λ b. weigh f (if b then rs ∷ keep_available rest else keep_available rest)) (sym up)
        ∙ h)

  weigh-tail :
      (key : Text) (rs : RemoteSlave) (rest : Dict RemoteSlave)
      → weigh f (keep_available ((key, rs) ∷ rest)) ≡ []
      → weigh f (keep_available rest) ≡ []
  unfolding weigh keep_available
  weigh-tail key rs rest h = elim (Bool-cases rs.available) [
    | inl up ↦ put_weighted_nil rs (f rs) (weigh f (keep_available rest)) (
        ap (λ b. weigh f (if b then rs ∷ keep_available rest else keep_available rest)) (sym up)
        ∙ h)
    | inr down ↦
        ap (λ b. weigh f (if b then rs ∷ keep_available rest else keep_available rest)) (sym down)
        ∙ h
  ]

  -- A slave of the map that is available and gets a weight is among the weighted ones.
  weigh-keep_available :
      (slaves : Dict RemoteSlave) (name : Text) (rs : RemoteSlave) (w : ℤ)
      → lookup name slaves ≡ some rs
      → rs.available ≡ true
      → f rs ≡ some w
      → weigh f (keep_available slaves) ≢ []
  unfolding lookup
  weigh-keep_available [] name rs w h up e k = cc h
  weigh-keep_available ((key, other) ∷ rest) name rs w h up e k =
      elim (Bool-cases (text_eq key name)) [
        | inl same ↦
            subst (λ x. weigh f (keep_available ((key, x) ∷ rest)) ≢ [])
              (sym (some-injective _ _ (rw same at h))) (weigh-head key rs rest w up e) k
        | inr differs ↦
            weigh-keep_available rest name rs w (rw differs at h) up e (weigh-tail key other rest k)
      ]

fallback_weight_of_fit :
    (sm : SlaveManager) (path : Text) (rs : RemoteSlave)
    → slave_can_store_path rs path ≡ true
    → is_slave_read_only rs.name sm ≡ false
    → fallback_weight sm path rs ≡ some (pos 1)
unfolding fallback_weight
fallback_weight_of_fit sm path rs fits writes = rw (fits, writes) refl

or_else-ne : (a b : List Weighted) → b ≢ [] → or_else a b ≢ []
or_else-ne [] b h = h
or_else-ne (e ∷ a) b h = λ k. cc k

pick-is_some : (q : ℤ → ℤ → ℕ) (es : List Weighted) → es ≢ [] → is_some (pick q es) ≡ true
unfolding pick
pick-is_some q [] h = absurd (h refl)
pick-is_some q (e ∷ es) h = refl

or_next-is_some : (a b : Option RemoteSlave) → is_some b ≡ true → is_some (or_next a b) ≡ true
or_next-is_some none b h = h
or_next-is_some (some rs) b h = refl

-- Where the map of slaves has one that is available, is not read-only, and can store the path, a
-- slave is chosen for an upload to it.
pub select_slave_for_upload-is_some :
    (quotient_bits : ℤ → ℤ → ℕ) (sm : SlaveManager) (path name : Text) (rs : RemoteSlave)
    → lookup name sm.slaves ≡ some rs
    → rs.available ≡ true
    → is_slave_read_only rs.name sm ≡ false
    → slave_can_store_path rs path ≡ true
    → is_some (select_slave_for_upload quotient_bits sm path) ≡ true
unfolding select_slave_for_upload eligible_slaves get_available_slaves
select_slave_for_upload-is_some quotient_bits sm path name rs found up writes fits =
    or_next-is_some _ _ (
      pick-is_some quotient_bits (eligible_slaves sm path) (
        or_else-ne _ _ (
          weigh-keep_available (fallback_weight sm path) sm.slaves name rs (pos 1) found up
            (fallback_weight_of_fit sm path rs fits writes))))

-- Where no directory above the path settles the choice, the slave that is chosen is an eligible one
-- whose load, the quotient of its transfers and its weight or 1, is less than that of any other
-- eligible one, or the same with at least as much free space.
pub select_slave_for_upload-IsBest :
    (quotient_bits : ℤ → ℤ → ℕ) (sm : SlaveManager) (path : Text) (rs : RemoteSlave)
    → select_owned_ancestor_slave_for_upload sm path ≡ none
    → select_slave_for_upload quotient_bits sm path ≡ some rs
    → IsBest quotient_bits (eligible_slaves sm path) rs
unfolding select_slave_for_upload
select_slave_for_upload-IsBest quotient_bits sm path rs nobody h =
    pick-IsBest quotient_bits (eligible_slaves sm path) rs (or_next-none _ _ rs nobody h)
