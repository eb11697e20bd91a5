-- ===== src/Vfs/Start.antt =====
-- internal/master/vfs.go: the file system that cmd/weaveftpd/main.go starts with, which is
-- NewVirtualFileSystem followed by SetProtectedDirs, SetHiddenPaths and SetExcludePaths. Of a file
-- system that has only its root the first makes nothing but the set and a change of the version, since
-- it rebuilds the links of the root, and the others prune nothing. No snapshot is read from disk.
use weave_ftpd.Base.{List, [], ◌∷◌, ◌||◌, if◌then◌else◌, Text, text_eq, any, insert}
use weave_ftpd.GoPath.Clean.{slash, dot}
use weave_ftpd.Vfs.Paths.{clean_vfs_path}
use weave_ftpd.Vfs.State.{TextSet, Vfs, new_vfs}
use weave_ftpd.Vfs.Index.{mark_persist_dirty}

unfoldable pub protect_all : List Text → TextSet → TextSet
protect_all [] set = set
protect_all (path ∷ rest) set =
    let p = clean_vfs_path path in
    protect_all rest (if text_eq p [] || text_eq p dot then set else insert p tt set)

-- A set of paths that is only searched is a list.
unfoldable pub cover_all : List Text → List Text → List Text
unfolding any
cover_all [] set = set
cover_all (path ∷ rest) set =
    let p = clean_vfs_path path in
    cover_all rest (
      if (text_eq p [] || (text_eq p dot || text_eq p slash)) || any (text_eq p) set
      then set
      else p ∷ set)

unfoldable pub configured_vfs : List Text → List Text → List Text → Vfs
unfolding protect_all cover_all
configured_vfs protected hidden excluded =
    let v = mark_persist_dirty new_vfs in
    record v {
      protected_dirs = protect_all protected (insert slash tt []);
      hidden_paths = cover_all hidden [];
      exclude_paths = cover_all excluded [];
    }
