-- ===== src/GoPath/Glob.antt =====
-- path.Match. A pattern is parsed first, and a malformed one matches nothing: the program reads the
-- result with the error dropped. Characters are bytes.
use weave_ftpd.Base.{
  ℕ, zero, suc, List, [], ◌∷◌, ◌++◌, Bool, true, false, not, ◌&&◌, ◌||◌, Option, none, some,
  if◌then◌else◌, ◌==◌, leb, Text, length, any,
}

infixl 5 ◌>>=◌
abbrev pub ◌>>=◌ {ℓ κ} : {A : Type ℓ} {B : Type κ} → Option A → (A → Option B) → Option B
none >>= f = none
some a >>= f = f a

pub data Item : Type 0 where
  star any_char : Item
  lit : ℕ → Item
  char_class : Bool → List (ℕ × ℕ) → Item

abbrev is_empty {ℓ} : {A : Type ℓ} → List A → Bool
is_empty [] = true
is_empty (x ∷ xs) = false

-- What `getEsc` returns: a character, if the class goes on behind it.
goes_on : ℕ → Text → Option (ℕ × Text)
goes_on c [] = none
goes_on c (d ∷ t) = some (c, d ∷ t)

escaped : Text → Option (ℕ × Text)
escaped [] = none
escaped (c ∷ t) = goes_on c t

get_esc : Text → Option (ℕ × Text)
get_esc [] = none
get_esc (c ∷ t) =
    if c == b'-' || c == b']' then none else if c == 92 then escaped t else goes_on c t

range_end : ℕ → Text → Option (ℕ × Text)
range_end lo [] = none
range_end lo (c ∷ t) = if c == b'-' then get_esc t else some (lo, c ∷ t)

class_closed : List (ℕ × ℕ) → Text → Option Text
class_closed [] t = none
class_closed (r ∷ rs) [] = none
class_closed (r ∷ rs) (c ∷ t) = if c == b']' then some t else none

-- The ranges of a class, up to the bracket that closes it.
class_ranges : ℕ → List (ℕ × ℕ) → Text → Option (List (ℕ × ℕ) × Text)
class_ranges zero rs t = none
class_ranges (suc fuel) rs t = elim (class_closed rs t) [
  | some rest ↦ some (rs, rest)
  | none ↦ do
    (lo, t₁) ← get_esc t
    (hi, t₂) ← range_end lo t₁
    class_ranges fuel (rs ++ (lo, hi) ∷ []) t₂
]

class_negated : Text → Bool × Text
class_negated [] = (false, [])
class_negated (c ∷ t) = if c == b'^' then (true, t) else (false, c ∷ t)

parse_items : ℕ → Text → Option (List Item)
parse_items zero [] = some []
parse_items zero (c ∷ t) = none
parse_items (suc fuel) [] = some []
parse_items (suc fuel) (c ∷ t) =
    let after_star : Option (List Item) = (do its ← parse_items fuel t; some (star ∷ its)) in
    let after_char : Option (List Item) = (do its ← parse_items fuel t; some (any_char ∷ its)) in
    let after_lit : Option (List Item) = (do its ← parse_items fuel t; some (lit c ∷ its)) in
    let after_escape : Option (List Item) = elim t [
      | [] ↦ none
      | d ∷ u ↦ (do its ← parse_items fuel u; some (lit d ∷ its))
    ] in
    let (negated, body) = class_negated t in
    let after_class : Option (List Item) = (do
      (rs, u) ← class_ranges (length t) [] body
      its ← parse_items fuel u
      some (char_class negated rs ∷ its)) in
    if c == b'*'
    then after_star
    else if c == b'?'
    then after_char
    else if c == b'['
    then after_class
    else if c == 92
    then after_escape
    else after_lit

unfoldable pub parse : Text → Option (List Item)
unfolding goes_on escaped get_esc range_end class_closed class_ranges class_negated parse_items
parse p = parse_items (length p) p

-- `scanChunk`: the pattern as chunks without stars, each with whether a star stands before it.
put_star : List (Bool × List Item) → List (Bool × List Item)
put_star [] = (true, []) ∷ []
put_star ((starred, chunk) ∷ gs) = (true, chunk) ∷ gs

put_item : Item → List (Bool × List Item) → List (Bool × List Item)
put_item it [] = (false, it ∷ []) ∷ []
put_item it ((true, chunk) ∷ gs) = (false, it ∷ []) ∷ (true, chunk) ∷ gs
put_item it ((false, chunk) ∷ gs) = (false, it ∷ chunk) ∷ gs

unfoldable pub chunks : List Item → List (Bool × List Item)
unfolding put_star put_item
chunks [] = []
chunks (star ∷ its) = put_star (chunks its)
chunks (any_char ∷ its) = put_item any_char (chunks its)
chunks (lit c ∷ its) = put_item (lit c) (chunks its)
chunks (char_class n rs ∷ its) = put_item (char_class n rs) (chunks its)

in_class : Bool → List (ℕ × ℕ) → ℕ → Bool
unfolding any
in_class negated rs c =
    let found = any (λ r. leb r.0 c && leb c r.1) rs in if negated then not found else found

-- A class may match a slash, "?" may not.
unfoldable pub fits : Item → ℕ → Bool
unfolding in_class
fits star c = false
fits any_char c = not (c == b'/')
fits (lit d) c = d == c
fits (char_class negated rs) c = in_class negated rs c

-- `matchChunk`: what is left of the name behind a match of the chunk.
unfoldable pub match_chunk : List Item → Text → Option Text
unfolding fits
match_chunk [] s = some s
match_chunk (it ∷ its) [] = none
match_chunk (it ∷ its) (a ∷ s) = if fits it a then match_chunk its s else none

-- The last chunk must match up to the end of the name.
ends_there : Bool → Text → Option Text
ends_there true (a ∷ s) = none
ends_there _ s = some s

unfoldable pub accept : List Item → Bool → Text → Option Text
unfolding ends_there match_chunk
accept chunk last s = match_chunk chunk s >>= ends_there last

-- A star skips one byte or more, and no slash; the first place that fits is taken.
unfoldable pub slide : List Item → Bool → Text → Option Text
unfolding accept
slide chunk last [] = none
slide chunk last (a ∷ s) = elim (a == b'/') [
  | true ↦ none
  | false ↦ elim (accept chunk last s) [ some t ↦ some t | none ↦ slide chunk last s ]
]

unfoldable pub match_chunks : List (Bool × List Item) → Text → Bool
unfolding any accept slide
match_chunks [] name = is_empty name
match_chunks ((starred, []) ∷ gs) name = not (any (λ c. c == b'/') name)
match_chunks ((starred, it ∷ its) ∷ gs) name = elim (accept (it ∷ its) (is_empty gs) name) [
  | some t ↦ match_chunks gs t
  | none ↦ elim starred [
    | true ↦ elim (slide (it ∷ its) (is_empty gs) name) [
      | some t ↦ match_chunks gs t
      | none ↦ false
    ]
    | false ↦ false
  ]
]

unfoldable pub match_items : Option (List Item) → Text → Bool
unfolding chunks match_chunks
match_items none name = false
match_items (some its) name = match_chunks (chunks its) name

-- The first result of path.Match(pattern, name).
unfoldable pub glob : Text → Text → Bool
unfolding parse match_items
glob pattern name = match_items (parse pattern) name
