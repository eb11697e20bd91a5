-- ===== src/Vfs/Paths.antt =====
-- internal/master/vfs.go: the paths that key the virtual file system.
use weave_ftpd.Base.{
  ℕ, zero, suc, List, [], ◌∷◌, ◌++◌, Bool, false, ◌&&◌, ◌||◌, not, if◌then◌else◌, ◌==◌, Text, codes,
  text_eq, has_prefix, trim_prefix, trim_space, contains, equal_fold, any, length,
}
use weave_ftpd.GoPath.Clean.{slash, dot, clean, dir}

unfoldable pub absolute : Text → Text
absolute p =
    if text_eq p dot || text_eq p [] then slash else if has_prefix p slash then p else slash ++ p

unfoldable pub clean_vfs_path : Text → Text
unfolding absolute
clean_vfs_path p = absolute (clean (trim_space p))

-- `cleanVFSPath(filepath.Dir(p))`
unfoldable pub parent : Text → Text
parent p = clean_vfs_path (dir p)

-- The walk of the loops over the ancestors of a path: `p`, its parent, and so on up to the root.
unfoldable pub walk_up : ℕ → Text → List Text
walk_up zero p = p ∷ []
walk_up (suc fuel) p =
    let rest = walk_up fuel (parent p) in if text_eq p slash then p ∷ [] else p ∷ rest

-- A path has no more ancestors than bytes.
unfoldable pub ancestors : Text → List Text
ancestors p = walk_up (length p) p

-- `p` is `top` or lies below it.
abbrev pub at_or_below : Text → Text → Bool
at_or_below p top = text_eq p top || has_prefix p (top ++ slash)

-- isHiddenPathLocked and isExcludedPathLocked, for one of the two sets of paths.
unfoldable pub is_covered_by : List Text → Text → Bool
unfolding any
is_covered_by tops path =
    let p = clean_vfs_path path in
    if text_eq p slash || text_eq p [] then false else any (at_or_below p) tops

unfoldable pub no_more_slash : Text → Bool
no_more_slash rest = not (text_eq rest []) && not (contains rest slash)

unfoldable pub is_direct_vfs_child_path : Text → Text → Bool
unfolding no_more_slash
is_direct_vfs_child_path top child =
    if text_eq top slash
    then no_more_slash (trim_prefix child slash)
    else if has_prefix child (top ++ slash)
    then no_more_slash (trim_prefix child (top ++ slash))
    else false

-- The last case compares a text of six bytes with a word of nine.
unfoldable pub is_weak_metadata_value : Text → Bool
is_weak_metadata_value value =
    let v = trim_space value in
    text_eq v []
    || (text_eq v (codes "0")
        || ((length v == 3 && equal_fold v (codes "ftp"))
            || ((length v == 4 && equal_fold v (codes "root"))
                || (length v == 6 && equal_fold v (codes "weaveftpd")))))
