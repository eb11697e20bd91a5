-- ===== src/Vfs/Index.antt =====
-- internal/master/vfs.go: the index from slaves to the paths of their files.
use weave_ftpd.Base.{
  ◌+◌, ◌%◌, ◌^◌, List, [], ◌∷◌, Bool, true, false, Option, none, some, if◌then◌else◌, Text, text_eq,
  trim_space, Dict, lookup, insert, delete, map, ltb, ◌==◌,
}
use weave_ftpd.Vfs.Paths.{clean_vfs_path}
use weave_ftpd.Vfs.State.{TextSet, Vfs}

abbrev pub set_or_empty : Option TextSet → TextSet
set_or_empty none = []
set_or_empty (some s) = s

-- vfs.slavePaths[name]; a missing set is empty.
unfoldable pub slave_set : Text → Vfs → TextSet
slave_set name v = set_or_empty (lookup name v.slave_paths)

unfoldable pub add_slave_path : Text → Text → Vfs → Vfs
add_slave_path slave_name path v =
    let s = trim_space slave_name in
    if text_eq s [] then v else record v {
      slave_paths = insert s (insert (clean_vfs_path path) tt (slave_set s v)) v.slave_paths;
    }

-- The set is deleted with its last path.
unfoldable pub put_set : Text → TextSet → Dict TextSet → Dict TextSet
put_set s [] m = delete s m
put_set s (p ∷ ps) m = insert s (p ∷ ps) m

unfoldable pub remove_slave_path : Text → Text → Vfs → Vfs
unfolding put_set
remove_slave_path slave_name path v =
    let s = trim_space slave_name in
    if text_eq s [] then v else elim (lookup s v.slave_paths) [
      | none ↦ v
      | some paths ↦ record v {
        slave_paths = put_set s (delete (clean_vfs_path path) paths) v.slave_paths;
      }
    ]

unfoldable pub reindex_slave_path : Text → Text → Text → Vfs → Vfs
reindex_slave_path path old_slave new_slave v =
    if text_eq (trim_space old_slave) (trim_space new_slave)
    then add_slave_path new_slave path v
    else add_slave_path new_slave path (remove_slave_path old_slave path v)

unfoldable pub delete_file_entry_only : Text → Vfs → Vfs
delete_file_entry_only path v =
    let p = clean_vfs_path path in
    let v' : Vfs = elim (lookup p v.files) [
      | none ↦ v
      | some file ↦ remove_slave_path file.slave_name p v
    ] in
    record v' { files = delete p v'.files }

-- The order of texts by their bytes, and sort.Strings.
unfoldable pub text_leb : Text → Text → Bool
text_leb [] t = true
text_leb (a ∷ s) [] = false
text_leb (a ∷ s) (b ∷ t) = if ltb a b then true else if a == b then text_leb s t else false

unfoldable pub insert_sorted : Text → List Text → List Text
insert_sorted s [] = s ∷ []
insert_sorted s (t ∷ ts) = if text_leb s t then s ∷ t ∷ ts else t ∷ insert_sorted s ts

unfoldable pub sort_texts : List Text → List Text
unfolding text_leb insert_sorted
sort_texts [] = []
sort_texts (s ∷ ts) = insert_sorted s (sort_texts ts)

unfoldable pub paths_for_slave : Text → Vfs → List Text
unfolding sort_texts
paths_for_slave slave_name v =
    if text_eq (trim_space slave_name) []
    then []
    else sort_texts (map (λ e. e.0) (slave_set (trim_space slave_name) v))

-- persistVersion is a uint64.
unfoldable pub mark_persist_dirty : Vfs → Vfs
mark_persist_dirty v = record v { persist_version = (v.persist_version + 1) % 2 ^ 64 }
