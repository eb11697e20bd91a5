-- ===== src/GoPath/Clean.antt =====
-- path.Clean, path.Dir and path.Base.
use weave_ftpd.Base.{
  List, [], ◌∷◌, ◌++◌, Bool, true, false, ◌||◌, reverse, if◌then◌else◌, ◌==◌, Text, codes, text_eq,
  has_prefix, split_byte, join, trim_right,
}

abbrev pub slash : Text
slash = codes "/"

abbrev pub dot : Text
dot = codes "."

abbrev pub dot_dot : Text
dot_dot = codes ".."

-- ".." removes the element before it; at the root it is dropped, and a relative path keeps it.
unfoldable pub go_up : Bool → List Text → List Text
go_up rooted [] = if rooted then [] else dot_dot ∷ []
go_up rooted (top ∷ stack) = if text_eq top dot_dot then dot_dot ∷ top ∷ stack else stack

-- One element of the path; the stack has its top at the head.
unfoldable pub resolve : Bool → List Text → Text → List Text
unfolding go_up
resolve rooted stack part =
    if text_eq part [] || text_eq part dot
    then stack
    else if text_eq part dot_dot
    then go_up rooted stack
    else part ∷ stack

unfoldable pub resolve_all : Bool → List Text → List Text → List Text
unfolding resolve
resolve_all rooted stack [] = reverse stack
resolve_all rooted stack (part ∷ parts) = resolve_all rooted (resolve rooted stack part) parts

abbrev pub is_rooted : Text → Bool
is_rooted p = has_prefix p slash

or_dot : List Text → Text
or_dot [] = dot
or_dot (part ∷ parts) = join slash (part ∷ parts)

unfoldable pub rebuild : Bool → List Text → Text
unfolding join or_dot
rebuild true parts = slash ++ join slash parts
rebuild false parts = or_dot parts

unfoldable pub clean : Text → Text
unfolding resolve_all rebuild split_byte has_prefix text_eq
clean p = rebuild (is_rooted p) (resolve_all (is_rooted p) [] (split_byte b'/' p))

-- The part of a path before and with its last slash; the path is given backwards.
unfoldable pub dir_part : Text → Text
dir_part [] = []
dir_part (a ∷ s) = if a == b'/' then a ∷ s else dir_part s

unfoldable pub dir : Text → Text
unfolding dir_part clean
dir p = clean (reverse (dir_part (reverse p)))

-- The part after the last slash; the path is given backwards.
unfoldable pub last_part : Text → Text
last_part [] = []
last_part (a ∷ s) = let rest = last_part s in if a == b'/' then [] else a ∷ rest

unfoldable pub base_of_trimmed : Text → Text
base_of_trimmed [] = slash
base_of_trimmed (a ∷ s) = reverse (last_part (reverse (a ∷ s)))

unfoldable pub base : Text → Text
unfolding base_of_trimmed last_part trim_right text_eq
base p = if text_eq p [] then dot else base_of_trimmed (trim_right (λ c. c == b'/') p)

-- path.Join of two elements
unfoldable pub join_path : Text → Text → Text
join_path a b =
    if text_eq a [] then (if text_eq b [] then [] else clean b) else clean (a ++ slash ++ b)
