-- ===== src/Vfs/SortLaws.antt =====
-- The paths that the index lists for a slave, as the list over which the loops run.
use weave_ftpd.Base.{
  ◌≡◌, ◌⊎◌, inl, inr, refl, List, [], ◌∷◌, true, false, is_some, Text, text_eq, text_eq_iff,
  trim_space, lookup, map, All, AnyOf, Bool-cases,
}
use weave_ftpd.Vfs.State.{TextSet, Vfs}
use weave_ftpd.Vfs.Index.{text_leb, insert_sorted, sort_texts, slave_set, paths_for_slave}
use weave_ftpd.Vfs.IndexLaws.{is_indexed}

module _ (P : Text → Type 0) where
  insert_sorted-All : (s : Text) (ts : List Text) → P s → All P ts → All P (insert_sorted s ts)
  unfolding insert_sorted
  insert_sorted-All s [] p h = (p, tt)
  insert_sorted-All s (t ∷ ts) p (q, h) = elim (Bool-cases (text_leb s t)) [
    | inl first ↦ rw first (p, (q, h))
    | inr later ↦ rw later (q, insert_sorted-All s ts p h)
  ]

  sort_texts-All : (ts : List Text) → All P ts → All P (sort_texts ts)
  unfolding sort_texts
  sort_texts-All [] h = tt
  sort_texts-All (t ∷ ts) (p, h) = insert_sorted-All t (sort_texts ts) p (sort_texts-All ts h)

  insert_sorted-AnyOf :
      (s : Text) (ts : List Text) → P s ⊎ AnyOf P ts → AnyOf P (insert_sorted s ts)
  unfolding insert_sorted
  insert_sorted-AnyOf s [] h = h
  insert_sorted-AnyOf s (t ∷ ts) h = elim (Bool-cases (text_leb s t)) [
    | inl first ↦ rw first h
    | inr later ↦ rw later (elim h [
      | inl p ↦ inr (insert_sorted-AnyOf s ts (inl p))
      | inr (inl q) ↦ inl q
      | inr (inr k) ↦ inr (insert_sorted-AnyOf s ts (inr k))
    ])
  ]

  sort_texts-AnyOf : (ts : List Text) → AnyOf P ts → AnyOf P (sort_texts ts)
  unfolding sort_texts
  sort_texts-AnyOf [] h = h
  sort_texts-AnyOf (t ∷ ts) (inl p) = insert_sorted-AnyOf t (sort_texts ts) (inl p)
  sort_texts-AnyOf (t ∷ ts) (inr k) =
      insert_sorted-AnyOf t (sort_texts ts) (inr (sort_texts-AnyOf ts k))

key_listed :
    (q : Text) (set : TextSet)
    → is_some (lookup q set) ≡ true
    → AnyOf (λ p. p ≡ q) (map (λ e. e.0) set)
unfolding lookup
key_listed q [] h = cc h
key_listed q ((k, e) ∷ set) h = elim (Bool-cases (text_eq k q)) [
  | inl same ↦ inl ((text_eq_iff k q).0 same)
  | inr other ↦ inr (key_listed q set (rw other at h))
]

module _ (P : Text → Type 0) where
  keys-All :
      (set : TextSet)
      → ((q : Text) → is_some (lookup q set) ≡ true → P q)
      → All P (map (λ e. e.0) set)
  unfolding lookup
  keys-All [] h = tt
  keys-All ((k, e) ∷ set) h = (
    h k (rw ((text_eq_iff k k).1 refl) refl),
    keys-All set (λ q i.
        h q (elim (Bool-cases (text_eq k q)) [ inl same ↦ rw same refl | inr other ↦ rw other i ])),
  )

-- The loops visit every path that the index lists for the slave, and nothing else.
pub paths_for_slave-listed :
    (s q : Text) (v : Vfs)
    → text_eq (trim_space s) [] ≡ false
    → is_indexed (trim_space s) q v ≡ true
    → AnyOf (λ p. p ≡ q) (paths_for_slave s v)
unfolding paths_for_slave is_indexed
paths_for_slave-listed s q v named h =
    rw named (sort_texts-AnyOf (λ p. p ≡ q) _ (key_listed q (slave_set (trim_space s) v) h))

pub paths_for_slave-All :
    (P : Text → Type 0) (s : Text) (v : Vfs)
    → ((q : Text) → is_indexed (trim_space s) q v ≡ true → P q)
    → All P (paths_for_slave s v)
unfolding paths_for_slave is_indexed
paths_for_slave-All P s v h = elim (Bool-cases (text_eq (trim_space s) [])) [
  | inl blank ↦ rw blank tt
  | inr named ↦ rw named (sort_texts-All P _ (keys-All P (slave_set (trim_space s) v) h))
]
