-- ===== src/Vfs/Read.antt =====
-- internal/master/vfs.go: the operations that look entries up.
use weave_ftpd.Base.{
  List, [], ◌∷◌, Bool, ◌&&◌, ◌||◌, not, Option, none, some, if◌then◌else◌, ◌++◌, Text, text_eq,
  trim_space, trim_prefix, split_byte, lookup,
}
use weave_ftpd.GoPath.Clean.{slash, clean}
use weave_ftpd.Vfs.Paths.{clean_vfs_path, is_covered_by, is_direct_vfs_child_path}
use weave_ftpd.Vfs.State.{TextSet, Vfs, VfsFile, has_key}
use weave_ftpd.Vfs.Tree.{child_set}

unfoldable pub get_file : Text → Vfs → Option VfsFile
get_file path v =
    let p = clean_vfs_path path in
    if is_covered_by v.exclude_paths p || is_covered_by v.hidden_paths p
    then none
    else lookup p v.files

unfoldable pub file_exists : Text → Vfs → Bool
file_exists path v = has_key (clean path) v.files

unfoldable pub listed : Text → Vfs → Text → List VfsFile → List VfsFile
listed d v child rest =
    if is_covered_by v.hidden_paths child || not (is_direct_vfs_child_path d child)
    then rest
    else elim (lookup child v.files) [ none ↦ rest | some f ↦ f ∷ rest ]

unfoldable pub list_children : Text → Vfs → TextSet → List VfsFile
unfolding listed
list_children d v [] = []
list_children d v ((child, x) ∷ rest) = listed d v child (list_children d v rest)

unfoldable pub list_directory : Text → Vfs → List VfsFile
unfolding list_children
list_directory dir_path v = let d = clean_vfs_path dir_path in list_children d v (child_set d v)

-- One element of ResolvePath: filepath.Join cleans what it joins.
unfoldable pub follow : Vfs → Text → Option VfsFile → Text → Text
follow v next none current = next
follow v next (some f) current =
    if f.is_symlink && not (text_eq (trim_space f.link_target) [])
    then clean_vfs_path f.link_target
    else next

unfoldable pub resolve_parts : Vfs → Text → List Text → Text
unfolding follow
resolve_parts v current [] = current
resolve_parts v current (part ∷ parts) =
    let next = clean_vfs_path (clean (current ++ (slash ++ part))) in
    resolve_parts v
      (if text_eq (trim_space part) []
        then current
        else follow v next (lookup next v.files) current)
      parts

unfoldable pub resolve_path : Text → Vfs → Text
unfolding resolve_parts
resolve_path p v =
    let current = clean_vfs_path p in
    if text_eq current slash
    then current
    else resolve_parts v slash (split_byte b'/' (trim_prefix current slash))
