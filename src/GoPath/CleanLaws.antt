-- ===== src/GoPath/CleanLaws.antt =====
-- The laws of path.Clean and path.Dir on absolute paths: these are lists of plain elements, Clean
-- returns one, and is the identity on it, and Dir drops the last element.
use weave_ftpd.Base.{
  ℕ, ◌≡◌, ◌≢◌, refl, sym, ap, ◌∙◌, List, [], ◌∷◌, ◌++◌, Bool, true, false, ◌||◌, arith, reverse,
  append-nil, append_assoc, ◌==◌, Text, text_eq, text_eq_iff, text_ne, split_byte, add_to_head,
  join, All, All-reverse, Bool-cases, inl, inr,
}
use mathlib.Core.List.{reverse-cons}
use weave_ftpd.GoPath.Clean.{
  slash, dot, dot_dot, go_up, resolve, resolve_all, rebuild, clean, is_rooted,
}

abbrev pub NoSlash : Text → Type 0
NoSlash s = All (λ c. (c == b'/') ≡ false) s

-- An element that Clean keeps.
pub record IsPlain (s : Text) : Type 0 where
  pub not_empty : s ≢ []
  pub not_dot : s ≢ dot
  pub not_dot_dot : s ≢ dot_dot
  pub no_slash : NoSlash s

-- "/a/b" for the elements "a" and "b"; nothing for none.
abbrev pub flat : List Text → Text
flat [] = []
flat (a ∷ segs) = b'/' ∷ (a ++ flat segs)

-- The absolute path with these elements.
abbrev pub path_of : List Text → Text
path_of [] = slash
path_of (a ∷ segs) = flat (a ∷ segs)

pub split_append :
    (x y w : Text) (ws : List Text)
    → NoSlash x
    → split_byte b'/' y ≡ w ∷ ws
    → split_byte b'/' (x ++ y) ≡ (x ++ w) ∷ ws
unfolding split_byte
split_append [] y w ws h e = e
split_append (c ∷ x) y w ws (p, h) e = rw (p, split_append x y w ws h e)

split-flat : (segs : List Text) → All IsPlain segs → split_byte b'/' (flat segs) ≡ [] ∷ segs
unfolding split_byte
split-flat [] h = refl
split-flat (a ∷ segs) (p, h) =
    ap (λ ws. [] ∷ ws) (split_append a (flat segs) [] segs p.no_slash (split-flat segs h))
    ∙ rw append-nil

pub resolve_of_IsPlain :
    (rooted : Bool) (stack : List Text) (s : Text) → IsPlain s → resolve rooted stack s ≡ s ∷ stack
unfolding resolve
resolve_of_IsPlain rooted stack s p = ground (
  arith,
  p.not_empty,
  p.not_dot,
  p.not_dot_dot,
  text_eq_iff s [],
  text_eq_iff s dot,
  text_eq_iff s dot_dot,
)

resolve_all_of_IsPlain :
    (rooted : Bool) (stack segs : List Text)
    → All IsPlain segs
    → resolve_all rooted stack segs ≡ reverse stack ++ segs
unfolding resolve_all
resolve_all_of_IsPlain rooted stack [] h = sym (append-nil _)
resolve_all_of_IsPlain rooted stack (s ∷ segs) (p, h) =
    ap (λ st. resolve_all rooted st segs) (resolve_of_IsPlain rooted stack s p)
    ∙ (resolve_all_of_IsPlain rooted (s ∷ stack) segs h ∙ simp (reverse-cons, append_assoc))

pub resolve_all-skip :
    (rooted : Bool) (stack segs : List Text)
    → resolve_all rooted stack ([] ∷ segs) ≡ resolve_all rooted stack segs
unfolding resolve_all resolve text_eq
resolve_all-skip rooted stack segs = refl

join-flat : (a : Text) (segs : List Text) → slash ++ join slash (a ∷ segs) ≡ flat (a ∷ segs)
unfolding join
join-flat a [] = ap (λ s. b'/' ∷ s) (sym (append-nil a))
join-flat a (b ∷ segs) = ap (λ s. b'/' ∷ (a ++ s)) (join-flat b segs)

pub rebuild_lem : (segs : List Text) → rebuild true segs ≡ path_of segs
unfolding rebuild join
rebuild_lem [] = refl
rebuild_lem (a ∷ segs) = join-flat a segs

-- Clean changes nothing about an absolute path of plain elements.
pub clean-path_of : (segs : List Text) → All IsPlain segs → clean (path_of segs) ≡ path_of segs
unfolding clean
clean-path_of [] h = refl
clean-path_of (a ∷ segs) h =
    ap (λ ws. rebuild true (resolve_all true [] ws)) (split-flat (a ∷ segs) h)
    ∙ (ap (rebuild true)
          (resolve_all-skip true [] (a ∷ segs) ∙ resolve_all_of_IsPlain true [] (a ∷ segs) h)
        ∙ rebuild_lem (a ∷ segs))

add_to_head-NoSlash :
    (c : ℕ) (ws : List Text) → (c == b'/') ≡ false → All NoSlash ws → All NoSlash (add_to_head c ws)
unfolding add_to_head
add_to_head-NoSlash c [] h hs = ((h, tt), tt)
add_to_head-NoSlash c (w ∷ ws) h (k, hs) = ((h, k), hs)

split-NoSlash : (s : Text) → All NoSlash (split_byte b'/' s)
unfolding split_byte
split-NoSlash [] = (tt, tt)
split-NoSlash (c ∷ s) = elim (Bool-cases (c == b'/')) [
  | inl sep ↦ rw sep (tt, split-NoSlash s)
  | inr other ↦ rw other (add_to_head-NoSlash c (split_byte b'/' s) other (split-NoSlash s))
]

go_up-IsPlain : (stack : List Text) → All IsPlain stack → All IsPlain (go_up true stack)
unfolding go_up
go_up-IsPlain [] h = tt
go_up-IsPlain (top ∷ stack) (p, h) = elim (Bool-cases (text_eq top dot_dot)) [
  | inl up ↦ absurd (p.not_dot_dot ((text_eq_iff top dot_dot).0 up))
  | inr other ↦ rw other h
]

IsPlain-of_tests :
    (s : Text)
    → NoSlash s
    → (text_eq s [] || text_eq s dot) ≡ false
    → text_eq s dot_dot ≡ false
    → IsPlain s
IsPlain-of_tests s n h k = record {
  not_empty = λ e. ground (arith, text_eq_iff s []);
  not_dot = λ e. ground (arith, text_eq_iff s dot);
  not_dot_dot = text_ne s dot_dot k;
  no_slash = n;
}

resolve-IsPlain :
    (stack : List Text) (s : Text)
    → All IsPlain stack
    → NoSlash s
    → All IsPlain (resolve true stack s)
unfolding resolve
resolve-IsPlain stack s h n = elim (Bool-cases (text_eq s [] || text_eq s dot)) [
  | inl skipped ↦ rw skipped h
  | inr kept ↦ elim (Bool-cases (text_eq s dot_dot)) [
    | inl up ↦ rw (kept, up) (go_up-IsPlain stack h)
    | inr plain ↦ rw (kept, plain) (IsPlain-of_tests s n kept plain, h)
  ]
]

resolve_all-IsPlain :
    (stack parts : List Text)
    → All IsPlain stack
    → All NoSlash parts
    → All IsPlain (resolve_all true stack parts)
unfolding resolve_all
resolve_all-IsPlain stack [] h n = All-reverse IsPlain stack h
resolve_all-IsPlain stack (s ∷ parts) h (n, ns) =
    resolve_all-IsPlain (resolve true stack s) parts (resolve-IsPlain stack s h n) ns

-- Clean makes of any absolute path one of plain elements: none is empty, "." or "..", so that the
-- path stays below the root.
pub clean_absolute :
    (p : Text)
    → is_rooted p ≡ true
    → (segs : List Text) × All IsPlain segs × (clean p ≡ path_of segs)
unfolding clean
clean_absolute p h =
    let segs = resolve_all true [] (split_byte b'/' p) in
    (segs, resolve_all-IsPlain [] (split_byte b'/' p) tt (split-NoSlash p), rw h (rebuild_lem segs))

-- Cleaning an absolute path a second time changes nothing.
pub clean_idempotent : (p : Text) → is_rooted p ≡ true → clean (clean p) ≡ clean p
clean_idempotent p h = let (segs, plain, e) = clean_absolute p h in rw e (clean-path_of segs plain)
