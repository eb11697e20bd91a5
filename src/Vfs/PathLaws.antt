-- ===== src/Vfs/PathLaws.antt =====
-- The laws of the paths of the file system: a tidy path is clean, and its ancestors are shorter.
use weave_ftpd.Base.{
  subst, ℕ, zero, suc, ◌+◌, ◌≤◌, ◌<◌, ◌≡◌, ◌≢◌, refl, ap, ◌∙◌, List, [], ◌∷◌, ◌++◌, Bool, false,
  arith, reverse, Text, text_eq, text_eq_iff, text_eq_refl, has_prefix, is_space, All, All-reverse,
  Starts, trim_space_of_IsTrimmed, length, length-append, Bool-cases, inl, inr,
}
use mathlib.Core.List.{reverse-cons}
use weave_ftpd.GoPath.Clean.{slash, clean, dir}
use weave_ftpd.GoPath.CleanLaws.{IsPlain, flat, path_of, clean-path_of}
use weave_ftpd.GoPath.DirLaws.{dir-path_of, path_of-concat, reverse_around}
use weave_ftpd.Vfs.Paths.{clean_vfs_path, parent, walk_up, ancestors, absolute}

-- An element of a path that no operation changes: it also has no white space at its end.
pub record IsTidy (s : Text) : Type 0 where
  pub plain : IsPlain s
  pub end : Starts is_space (reverse s)

-- The path that goes down to the last of these elements, the last one first.
abbrev pub path_to : List Text → Text
path_to up = path_of (reverse up)

All-IsPlain : (segs : List Text) → All IsTidy segs → All IsPlain segs
All-IsPlain [] h = tt
All-IsPlain (s ∷ segs) (p, h) = (p.plain, All-IsPlain segs h)

IsPlain-up : (up : List Text) → All IsTidy up → All IsPlain (reverse up)
IsPlain-up up h = All-reverse IsPlain up (All-IsPlain up h)

pub path_to-cons : (x : Text) (up : List Text) → path_to (x ∷ up) ≡ flat (reverse up) ++ b'/' ∷ x
path_to-cons x up = ap path_of (reverse-cons x up) ∙ path_of-concat (reverse up) x

Starts-append :
    (p : ℕ → Bool) (a r : Text) (b : ℕ) → Starts p a → p b ≡ false → Starts p (a ++ b ∷ r)
Starts-append p [] r b h k = k
Starts-append p (c ∷ a) r b h k = h

path_to-end : (up : List Text) → All IsTidy up → Starts is_space (reverse (path_to up))
unfolding is_space
path_to-end [] h = refl
path_to-end (x ∷ up) (p, h) =
    rw (path_to-cons x up, reverse_around (flat (reverse up)) x)
      (Starts-append is_space (reverse x) (reverse (flat (reverse up))) b'/' p.end refl)

path_of-start : (segs : List Text) → Starts is_space (path_of segs)
unfolding is_space
path_of-start [] = refl
path_of-start (a ∷ segs) = refl

absolute-path_of : (segs : List Text) → absolute (path_of segs) ≡ path_of segs
unfolding absolute text_eq has_prefix
absolute-path_of [] = refl
absolute-path_of (a ∷ segs) = refl

-- A tidy path is clean.
pub clean_vfs_path-path_to :
    (up : List Text) → All IsTidy up → clean_vfs_path (path_to up) ≡ path_to up
unfolding clean_vfs_path
clean_vfs_path-path_to up h =
    ap (λ s. absolute (clean s))
      (trim_space_of_IsTrimmed (path_to up) (path_of-start (reverse up), path_to-end up h))
    ∙ (ap absolute (clean-path_of (reverse up) (IsPlain-up up h)) ∙ absolute-path_of (reverse up))

-- A path whose elements are tidy.
abbrev pub IsTidyPath : Text → Type 0
IsTidyPath q = (up : List Text) × All IsTidy up × (path_to up ≡ q)

pub clean_vfs_path-IsTidyPath : (q : Text) → IsTidyPath q → clean_vfs_path q ≡ q
clean_vfs_path-IsTidyPath q (up, h, e) =
    subst (λ x. clean_vfs_path x ≡ x) e (clean_vfs_path-path_to up h)

pub parent-path_to :
    (x : Text) (up : List Text) → IsTidy x → All IsTidy up → parent (path_to (x ∷ up)) ≡ path_to up
unfolding parent
parent-path_to x up p h =
    ap (λ segs. clean_vfs_path (dir (path_of segs))) (reverse-cons x up)
    ∙ (ap clean_vfs_path (dir-path_of (reverse up) x (IsPlain-up up h) p.plain)
        ∙ clean_vfs_path-path_to up h)

-- The paths of the directories above, from the nearest up to the root.
abbrev pub paths_above : List Text → List Text
paths_above [] = []
paths_above (x ∷ up) = path_to up ∷ paths_above up

length-path_of : (segs : List Text) → length (path_of segs) ≤ length (flat segs) + 1
length-path_of [] = omega arith
length-path_of (a ∷ segs) = omega arith

length_pos : (s : Text) → s ≢ [] → 0 < length s
length_pos [] h = absurd (h refl)
length_pos (a ∷ s) h = omega arith

pub length-path_to : (up : List Text) → 0 < length (path_to up)
length-path_to [] = omega arith
length-path_to (x ∷ up) =
    rw (path_to-cons x up, length-append (flat (reverse up)) (b'/' ∷ x)) (omega arith)

pub longer_below :
    (x : Text) (up : List Text) → IsTidy x → length (path_to up) < length (path_to (x ∷ up))
longer_below x up p =
    rw (path_to-cons x up, length-append (flat (reverse up)) (b'/' ∷ x))
      (omega (arith, length-path_of (reverse up), length_pos x p.plain.not_empty))

depth_le : (up : List Text) → All IsTidy up → length up < length (path_to up)
depth_le [] h = omega arith
depth_le (x ∷ up) (p, h) = omega (arith, longer_below x up p, depth_le up h)

pub below_root : (x : Text) (up : List Text) → IsTidy x → text_eq (path_to (x ∷ up)) slash ≡ false
below_root x up p = elim (Bool-cases (text_eq (path_to (x ∷ up)) slash)) [
  | inl e ↦ absurd (
      omega (
        arith,
        ap length ((text_eq_iff (path_to (x ∷ up)) slash).0 e),
        longer_below x up p,
        length-path_to up,
      ))
  | inr e ↦ e
]

walk_up-path_to :
    (n : ℕ) (up : List Text)
    → All IsTidy up
    → length up ≤ n
    → walk_up n (path_to up) ≡ path_to up ∷ paths_above up
unfolding walk_up
walk_up-path_to zero [] h k = refl
walk_up-path_to zero (x ∷ up) h k = absurd (omega arith)
walk_up-path_to (suc n) [] h k = rw (text_eq_refl slash) refl
walk_up-path_to (suc n) (x ∷ up) (p, h) k =
    rw (below_root x up p, parent-path_to x up p h, walk_up-path_to n up h (omega arith)) refl

-- The loops over the ancestors of a tidy path visit the path, then each directory above it up to the
-- root: as many rounds as the path has bytes are enough.
pub ancestors-path_to :
    (up : List Text) → All IsTidy up → ancestors (path_to up) ≡ path_to up ∷ paths_above up
unfolding ancestors
ancestors-path_to up h = walk_up-path_to (length (path_to up)) up h (omega (arith, depth_le up h))
