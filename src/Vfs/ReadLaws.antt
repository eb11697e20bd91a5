-- ===== src/Vfs/ReadLaws.antt =====
-- The laws of the operations that look entries up.
use weave_ftpd.Base.{
  ◌≡◌, ◌≢◌, ◌⊎◌, inl, inr, refl, sym, ap, ◌∙◌, List, [], ◌∷◌, ◌++◌, true, false, ◌||◌, not, some,
  Text, text_eq, text_eq_iff, has_prefix, trim_prefix, drop_prefix, contains, lookup, All,
  Bool-cases, Option-cases, append_assoc, and_parts, ◌==◌, arith,
}
use weave_ftpd.GoPath.Clean.{slash}
use weave_ftpd.Vfs.CoverLaws.{has_prefix_parts}
use weave_ftpd.Vfs.Paths.{clean_vfs_path, is_covered_by, is_direct_vfs_child_path, no_more_slash}
use weave_ftpd.Vfs.State.{TextSet, Vfs, VfsFile}
use weave_ftpd.Vfs.Tree.{child_set}
use weave_ftpd.Vfs.Read.{list_directory, list_children, listed}

pub IsName : Text → Type 0
IsName name = (name ≢ []) × All (λ c. (c == b'/') ≡ false) name

-- The path of the directory, a slash, and a name; in the root, the name may stand alone.
pub IsDirectChild : Text → Text → Type 0
IsDirectChild d child =
    (name : Text) × IsName name
    × ((child ≡ d ++ (b'/' ∷ name)) ⊎ ((d ≡ slash) × ((child ≡ slash ++ name) ⊎ (child ≡ name))))

slash_free : (s : Text) → contains s slash ≡ false → All (λ c. (c == b'/') ≡ false) s
unfolding contains has_prefix
slash_free [] h = tt
slash_free (a ∷ s) h = (ground arith, slash_free s (ground arith))

IsName-of_test : (s : Text) → no_more_slash s ≡ true → IsName s
unfolding no_more_slash IsName text_eq
IsName-of_test s h =
    let parts = (and_parts (not (text_eq s [])) (not (contains s slash))).0 h in
    (λ e. cc (ap (λ t. not (text_eq t [])) e, parts.0), slash_free s (ground arith))

drop_prefix-append : (p r : Text) → drop_prefix (p ++ r) p ≡ r
unfolding drop_prefix
drop_prefix-append [] r = refl
drop_prefix-append (a ∷ p) r = drop_prefix-append p r

trim_prefix_parts : (s p : Text) → has_prefix s p ≡ true → s ≡ p ++ trim_prefix s p
unfolding trim_prefix
trim_prefix_parts s p h =
    let (r, e) = has_prefix_parts s p h in
    rw h (e ∙ ap (λ t. p ++ t) (sym (ap (λ t. drop_prefix t p) e ∙ drop_prefix-append p r)))

trim_prefix_none : (s p : Text) → has_prefix s p ≡ false → trim_prefix s p ≡ s
unfolding trim_prefix
trim_prefix_none s p h = rw h refl

IsDirectChild-of_test :
    (d child : Text) → is_direct_vfs_child_path d child ≡ true → IsDirectChild d child
unfolding is_direct_vfs_child_path IsDirectChild
IsDirectChild-of_test d child h = elim (Bool-cases (text_eq d slash)) [
  | inl root ↦ (
    trim_prefix child slash,
    IsName-of_test (trim_prefix child slash) (rw root at h),
    inr (
      (text_eq_iff d slash).0 root,
      elim (Bool-cases (has_prefix child slash)) [
        | inl led ↦ inl (trim_prefix_parts child slash led)
        | inr bare ↦ inr (sym (trim_prefix_none child slash bare))
      ],
    ),
  )
  | inr below ↦ elim (Bool-cases (has_prefix child (d ++ slash))) [
    | inl led ↦ (
      trim_prefix child (d ++ slash),
      IsName-of_test (trim_prefix child (d ++ slash)) (rw (below, led) at h),
      inl (trim_prefix_parts child (d ++ slash) led ∙ append_assoc d slash _),
    )
    | inr bare ↦ cc (rw (below, bare) at h)
  ]
]

-- A listed file is the entry of a path that is not hidden and a direct child of the directory.
pub IsListed : Text → Vfs → VfsFile → Type 0
IsListed d v f =
    (child : Text) × (lookup child v.files ≡ some f)
    × (is_covered_by v.hidden_paths child ≡ false)
    × IsDirectChild d child

listed-IsListed :
    (d : Text) (v : Vfs) (child : Text) (rest : List VfsFile)
    → All (IsListed d v) rest
    → All (IsListed d v) (listed d v child rest)
unfolding listed IsListed
listed-IsListed d v child rest h =
    elim (Bool-cases
      (is_covered_by v.hidden_paths child || not (is_direct_vfs_child_path d child))) [
        | inl e ↦ rw e h
        | inr e ↦ elim (Option-cases (lookup child v.files)) [
          | inl l ↦ rw (e, l) h
          | inr (f, l) ↦
              rw (e, l) ((child, l, ground arith, IsDirectChild-of_test d child (ground arith)), h)
        ]
      ]

list_children-IsListed :
    (d : Text) (v : Vfs) (s : TextSet) → All (IsListed d v) (list_children d v s)
unfolding list_children
list_children-IsListed d v [] = tt
list_children-IsListed d v ((child, x) ∷ s) =
    listed-IsListed d v child (list_children d v s) (list_children-IsListed d v s)

-- Every file that ListDirectory returns is the entry of a path that is not hidden and is that of the
-- directory, a slash and a name without slashes; in the root, the name may stand alone.
pub list_directory-IsListed :
    (dir_path : Text) (v : Vfs)
    → All (IsListed (clean_vfs_path dir_path) v) (list_directory dir_path v)
unfolding list_directory
list_directory-IsListed dir_path v =
    list_children-IsListed (clean_vfs_path dir_path) v (child_set (clean_vfs_path dir_path) v)
