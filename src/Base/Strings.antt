-- ===== src/Base/Strings.antt =====
-- Go's strings as lists of bytes, with the functions of package `strings` that the program uses.
-- White space and letters are those of ASCII; the text of commands, paths and names is ASCII.
use Prim.Native.Nat.{ℕ, ◌+◌, ◌-◌}
use Prim.Native.Char.{code}
use Prim.Native.String.{String}
use mathlib.Core.Path.{◌≡◌, refl}
use mathlib.Core.Logic.{◌↔◌, ◌≢◌, inl, inr}
use mathlib.Core.Bool.{Bool, true, false, ◌&&◌, ◌||◌}
use mathlib.Core.List.{List, [], ◌∷◌, ◌++◌, reverse, map}
use native.Mathlib.Omega.{arith}
use weave_ftpd.Base.Tests.{◌==◌, leb, if◌then◌else◌, Bool-cases}

abbrev pub Text : Type 0
Text = List ℕ

-- The bytes of a literal.
abbrev pub codes : String → Text
codes String.[] = []
codes (String.◌∷◌ c s) = code c ∷ codes s

unfoldable pub text_eq : Text → Text → Bool
text_eq [] [] = true
text_eq (a ∷ s) (b ∷ t) = a == b && text_eq s t
text_eq [] (b ∷ t) = false
text_eq (a ∷ s) [] = false

pub text_eq_refl : (s : Text) → text_eq s s ≡ true
unfolding text_eq
text_eq_refl [] = refl
text_eq_refl (a ∷ s) = ground (arith, text_eq_refl s)

eq_of_text_eq : (s t : Text) → text_eq s t ≡ true → s ≡ t
unfolding text_eq
eq_of_text_eq [] [] h = refl
eq_of_text_eq (a ∷ s) (b ∷ t) h = ground (arith, eq_of_text_eq s t)
eq_of_text_eq [] (b ∷ t) h = cc
eq_of_text_eq (a ∷ s) [] h = cc

pub text_eq_iff : (s t : Text) → (text_eq s t ≡ true) ↔ (s ≡ t)
text_eq_iff s t = (eq_of_text_eq s t, λ e. rw e (text_eq_refl t))

pub text_eq_sym : (s t : Text) → text_eq s t ≡ text_eq t s
text_eq_sym s t = ground (arith, text_eq_iff s t, text_eq_iff t s)

pub text_ne : (a b : Text) → text_eq a b ≡ false → a ≢ b
text_ne a b h e = cc ((text_eq_iff a b).1 e)

pub text_eq_of_ne : (a b : Text) → a ≢ b → text_eq a b ≡ false
text_eq_of_ne a b h = elim (Bool-cases (text_eq a b)) [
  | inl e ↦ absurd (h ((text_eq_iff a b).0 e))
  | inr e ↦ e
]

-- strings.HasPrefix(s, prefix)
unfoldable pub has_prefix : Text → Text → Bool
has_prefix s [] = true
has_prefix [] (b ∷ p) = false
has_prefix (a ∷ s) (b ∷ p) = a == b && has_prefix s p

-- strings.TrimPrefix(s, prefix): what follows the prefix, or all of `s`.
unfoldable pub drop_prefix : Text → Text → Text
drop_prefix s [] = s
drop_prefix [] (b ∷ p) = []
drop_prefix (a ∷ s) (b ∷ p) = drop_prefix s p

unfoldable pub trim_prefix : Text → Text → Text
unfolding drop_prefix
trim_prefix s p = if has_prefix s p then drop_prefix s p else s

-- strings.HasSuffix(s, suffix)
unfoldable pub has_suffix : Text → Text → Bool
unfolding has_prefix
has_suffix s p = has_prefix (reverse s) (reverse p)

-- strings.Contains(s, substr)
unfoldable pub contains : Text → Text → Bool
unfolding has_prefix
contains [] p = has_prefix [] p
contains (a ∷ s) p = has_prefix (a ∷ s) p || contains s p

unfoldable pub is_space : ℕ → Bool
is_space c = c == 32 || leb 9 c && leb c 13

unfoldable pub trim_left : (ℕ → Bool) → Text → Text
trim_left p [] = []
trim_left p (a ∷ s) = if p a then trim_left p s else a ∷ s

unfoldable pub trim_right : (ℕ → Bool) → Text → Text
unfolding trim_left
trim_right p s = reverse (trim_left p (reverse s))

-- strings.TrimSpace(s)
unfoldable pub trim_space : Text → Text
unfolding trim_left trim_right is_space
trim_space s = trim_right is_space (trim_left is_space s)

-- strings.ToLower(s)
unfoldable pub lower_byte : ℕ → ℕ
lower_byte c = if leb b'A' c && leb c b'Z' then c + 32 else c

unfoldable pub to_lower : Text → Text
unfolding lower_byte
to_lower s = map lower_byte s

-- strings.ToUpper(s)
unfoldable pub upper_byte : ℕ → ℕ
upper_byte c = if leb b'a' c && leb c b'z' then c - 32 else c

unfoldable pub to_upper : Text → Text
unfolding upper_byte
to_upper s = map upper_byte s

-- strings.EqualFold(s, t)
unfoldable pub equal_fold : Text → Text → Bool
unfolding to_lower text_eq
equal_fold s t = text_eq (to_lower s) (to_lower t)

-- strings.ReplaceAll(s, old, new) for one byte
unfoldable pub replace_byte : ℕ → ℕ → Text → Text
replace_byte old new [] = []
replace_byte old new (a ∷ s) = (if a == old then new else a) ∷ replace_byte old new s

-- strings.Split(s, sep) for one byte: never empty.
unfoldable pub add_to_head : ℕ → List Text → List Text
add_to_head a [] = (a ∷ []) ∷ []
add_to_head a (w ∷ ws) = (a ∷ w) ∷ ws

unfoldable pub split_byte : ℕ → Text → List Text
unfolding add_to_head
split_byte sep [] = [] ∷ []
split_byte sep (a ∷ s) =
    let rest = split_byte sep s in if a == sep then [] ∷ rest else add_to_head a rest

-- strings.Join(parts, sep)
unfoldable pub join : Text → List Text → Text
join sep [] = []
join sep (w ∷ []) = w
join sep (w ∷ v ∷ ws) = w ++ (sep ++ join sep (v ∷ ws))

-- strings.Fields(s): the longest runs without white space.
non_empty : Text → Bool
non_empty [] = false
non_empty (a ∷ s) = true

keep_non_empty : List Text → List Text
keep_non_empty [] = []
keep_non_empty ([] ∷ ws) = keep_non_empty ws
keep_non_empty ((a ∷ w) ∷ ws) = (a ∷ w) ∷ keep_non_empty ws

split_spaces : Text → List Text
split_spaces [] = [] ∷ []
split_spaces (a ∷ s) =
    let rest = split_spaces s in if is_space a then [] ∷ rest else add_to_head a rest

unfoldable pub fields : Text → List Text
unfolding keep_non_empty split_spaces add_to_head is_space
fields s = keep_non_empty (split_spaces s)

fields_example : fields (codes " 1  =SiteOP ") ≡ codes "1" ∷ codes "=SiteOP" ∷ []
unfolding fields
fields_example = refl
