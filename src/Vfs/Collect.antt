-- ===== src/Vfs/Collect.antt =====
-- internal/master/vfs.go: the paths of a subtree, by a walk over the links with a stack.
use weave_ftpd.Base.{
  ℕ, zero, suc, ◌+◌, max, List, [], ◌∷◌, ◌++◌, if◌then◌else◌, Text, Dict, map, length,
}
use weave_ftpd.Vfs.State.{TextSet, Vfs, has_key}
use weave_ftpd.Vfs.Tree.{child_set}

abbrev pub keys_of : TextSet → List Text
keys_of set = map (λ e. e.0) set

unfoldable pub children_of : Text → Vfs → List Text
children_of d v = keys_of (child_set d v)

-- The children that have a set of their own go onto the stack; its top comes first.
unfoldable pub push_dirs : Vfs → List Text → List Text → List Text
push_dirs v [] stack = stack
push_dirs v (c ∷ cs) stack = push_dirs v cs (if has_key c v.children then c ∷ stack else stack)

-- The paths found, and the stack that is left when the rounds are used up.
abbrev pub prepend : List Text → List Text × List Text → List Text × List Text
prepend cs (out, left) = (cs ++ out, left)

unfoldable pub collect_from : ℕ → Vfs → List Text → List Text × List Text
unfolding push_dirs children_of
collect_from zero v stack = ([], stack)
collect_from (suc rounds) v [] = ([], [])
collect_from (suc rounds) v (d ∷ stack) =
    prepend (children_of d v) (collect_from rounds v (push_dirs v (children_of d v) stack))

-- Rounds that are enough: one for each directory within this depth.
unfoldable pub sum_by : (Text → ℕ) → List Text → ℕ
sum_by f [] = 0
sum_by f (d ∷ ds) = f d + sum_by f ds

unfoldable pub rounds_for : ℕ → Vfs → Text → ℕ
unfolding push_dirs children_of sum_by
rounds_for zero v d = 1
rounds_for (suc depth) v d = suc (sum_by (rounds_for depth v) (push_dirs v (children_of d v) []))

-- No child's path is longer.
unfoldable pub longest : List Text → ℕ
longest [] = 0
longest (p ∷ ps) = max (length p) (longest ps)

unfoldable pub longest_child : Dict TextSet → ℕ
unfolding longest
longest_child [] = 0
longest_child ((d, set) ∷ rest) = max (longest (keys_of set)) (longest_child rest)

unfoldable pub collect_subtree : Text → Vfs → List Text
unfolding collect_from rounds_for longest_child
collect_subtree root v =
    root ∷ (collect_from (rounds_for (longest_child v.children) v root) v (root ∷ [])).0
