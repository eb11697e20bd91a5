-- ===== src/Vfs/Examples.antt =====
-- The laws of the file system at a concrete tree.
use weave_ftpd.Base.{
  ◌≡◌, ◌≢◌, ◌↔◌, AnyOf, any, has_prefix, refl, [], ◌∷◌, List, true, false, some, Text, codes,
  text_ne, All, lookup, text_eq, trim_space, is_space,
}
use weave_ftpd.Base.Int.{pos}
use weave_ftpd.GoPath.Clean.{slash, clean, dot, dot_dot}
use weave_ftpd.Vfs.Paths.{clean_vfs_path, is_covered_by}
use weave_ftpd.Vfs.PathLaws.{IsTidy, path_to, paths_above}
use weave_ftpd.Vfs.State.{Vfs, VfsFile, made_dir, new_vfs, has_key}
use weave_ftpd.Vfs.Merge.{merge_existing}
use weave_ftpd.Vfs.MergeLaws.{
  is_verified, has_no_evidence, merge_existing-size, Grown, update_file_transfer_size-Grown,
}
use weave_ftpd.Vfs.Write.{add_file, update_file_transfer_size}
use weave_ftpd.Vfs.Read.{get_file, list_directory}
use weave_ftpd.Vfs.ReadLaws.{IsListed, list_directory-IsListed}
use weave_ftpd.Vfs.WriteLaws.{Avoids, IsShown, add_file-get_file_other}
use weave_ftpd.Vfs.NewEntryLaws.{Overrides, placed, add_file-get_file-placed}
use weave_ftpd.Vfs.DirLaws.{IsDir}
use weave_ftpd.Vfs.CoverLaws.{IsAtOrBelow, is_covered_by_iff}
use weave_ftpd.Vfs.AddDirs.{add_file-IsDir_above}

-- The path "/a/b".
abbrev up : List Text
up = codes "a" ∷ []

abbrev file_path : Text
file_path = path_to (codes "b" ∷ up)

a_IsTidy : IsTidy (codes "a")
unfolding text_eq is_space
a_IsTidy = record {
  plain = record {
    not_empty = text_ne (codes "a") [] refl;
    not_dot = text_ne (codes "a") dot refl;
    not_dot_dot = text_ne (codes "a") dot_dot refl;
    no_slash = (refl, tt);
  };
  end = refl;
}

b_IsTidy : IsTidy (codes "b")
unfolding text_eq is_space
b_IsTidy = record {
  plain = record {
    not_empty = text_ne (codes "b") [] refl;
    not_dot = text_ne (codes "b") dot refl;
    not_dot_dot = text_ne (codes "b") dot_dot refl;
    no_slash = (refl, tt);
  };
  end = refl;
}

up_AreTidy : All IsTidy up
up_AreTidy = (a_IsTidy, tt)

-- An uploaded file, and what a scan finds in its place.
abbrev uploaded : VfsFile
uploaded = record (made_dir file_path (codes "s1")) {
  is_dir = false;
  size = pos 500;
  xfer_time = pos 7;
  checksum = 77;
  last_modified = pos 3;
}

abbrev scanned : VfsFile
scanned = record uploaded { size = pos 200; xfer_time = pos 0; checksum = 0 }

file_IsShown : IsShown file_path new_vfs
unfolding is_covered_by text_eq clean_vfs_path clean trim_space new_vfs
file_IsShown = refl

file_is_open : has_key file_path new_vfs.protected_dirs ≡ false
unfolding new_vfs lookup
file_is_open = refl

nothing_there : Overrides (lookup file_path new_vfs.files) uploaded
unfolding new_vfs lookup text_eq Overrides
nothing_there = tt

add_file-get_file-placed_example :
    get_file file_path (add_file (pos 9) file_path uploaded new_vfs)
    ≡ some (placed file_path uploaded)
add_file-get_file-placed_example =
    add_file-get_file-placed (codes "b") up b_IsTidy up_AreTidy (pos 9) uploaded new_vfs
      file_IsShown file_is_open refl refl nothing_there

other_path : file_path ≢ clean_vfs_path (codes "/c")
unfolding clean_vfs_path clean trim_space text_eq
other_path = text_ne file_path (clean_vfs_path (codes "/c")) refl

other_Avoids : Avoids (clean_vfs_path (codes "/c")) (paths_above (codes "b" ∷ up))
unfolding clean_vfs_path clean trim_space text_eq
other_Avoids = (
  text_ne (codes "/a") (clean_vfs_path (codes "/c")) refl,
  (text_ne slash (clean_vfs_path (codes "/c")) refl, tt),
)

add_file-get_file_other_example :
    get_file (codes "/c") (add_file (pos 9) file_path uploaded new_vfs)
    ≡ get_file (codes "/c") new_vfs
add_file-get_file_other_example =
    add_file-get_file_other (codes "b") up b_IsTidy up_AreTidy (codes "/c") (pos 9) uploaded new_vfs
      other_path other_Avoids

add_file-IsDir_above_example :
    All (λ d. IsDir d (add_file (pos 9) file_path uploaded new_vfs)) (codes "/a" ∷ slash ∷ [])
add_file-IsDir_above_example =
    add_file-IsDir_above (codes "b") up b_IsTidy up_AreTidy (pos 9) uploaded new_vfs file_IsShown

uploaded-is_verified : is_verified uploaded ≡ true
unfolding is_verified
uploaded-is_verified = refl

scanned-has_no_evidence : has_no_evidence scanned ≡ true
unfolding has_no_evidence
scanned-has_no_evidence = refl

merge_existing-size_example : (merge_existing (some uploaded) scanned).size ≡ pos 500
merge_existing-size_example =
    merge_existing-size uploaded scanned refl refl uploaded-is_verified scanned-has_no_evidence

update_file_transfer_size-Grown_example :
    Grown
      (lookup (codes "/a/b") new_vfs.files)
      (lookup (codes "/a/b") (update_file_transfer_size (codes "/a/b") (pos 4) new_vfs).0.files)
update_file_transfer_size-Grown_example =
    update_file_transfer_size-Grown (codes "/a/b") (pos 4) new_vfs (codes "/a/b")

abbrev small_tree : Vfs
small_tree = record new_vfs {
  files = (codes "/x", made_dir (codes "/x") []) ∷ [];
  children = (slash, (codes "/x", tt) ∷ []) ∷ [];
}

list_directory-IsListed_example :
    All (IsListed (clean_vfs_path slash) small_tree) (list_directory slash small_tree)
list_directory-IsListed_example = list_directory-IsListed slash small_tree

ab_is_no_root : clean_vfs_path (codes "/ab/") ≢ slash
unfolding clean_vfs_path clean trim_space text_eq
ab_is_no_root = text_ne (clean_vfs_path (codes "/ab/")) slash refl

ab_is_not_empty : clean_vfs_path (codes "/ab/") ≢ []
unfolding clean_vfs_path clean trim_space text_eq
ab_is_not_empty = text_ne (clean_vfs_path (codes "/ab/")) [] refl

is_covered_by_iff_example :
    (is_covered_by (codes "/a" ∷ []) (codes "/ab/") ≡ true)
    ↔ AnyOf (IsAtOrBelow (clean_vfs_path (codes "/ab/"))) (codes "/a" ∷ [])
is_covered_by_iff_example =
    is_covered_by_iff (codes "/a" ∷ []) (codes "/ab/") ab_is_no_root ab_is_not_empty

is_covered_by_run :
    (is_covered_by (codes "/a" ∷ []) (codes "/ab/") ≡ false)
    × (is_covered_by (codes "/a" ∷ []) (codes "/a/b") ≡ true)
unfolding is_covered_by clean_vfs_path clean trim_space text_eq any has_prefix
is_covered_by_run = (refl, refl)

-- The tree after the upload, which s1 is to confirm.
abbrev uploaded_tree : Vfs
uploaded_tree = add_file (pos 9) file_path uploaded new_vfs
