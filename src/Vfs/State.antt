-- ===== src/Vfs/State.antt =====
-- internal/master/vfs.go: the state of the virtual file system. The caches of race results in the
-- metadata of a directory, which the operations here only drop, are left out. A nil map of SFV entries
-- is `none`.
use weave_ftpd.Base.{ℕ, List, [], Bool, true, false, Option, Text, Dict, lookup, insert, is_some}
use weave_ftpd.Base.Int.{ℤ, pos}
use weave_ftpd.GoPath.Clean.{slash}

pub record VfsFile : Type 0 where
  pub path : Text
  pub size : ℤ
  pub is_dir : Bool
  pub is_symlink : Bool
  pub link_target : Text
  pub mode : ℕ
  pub last_modified : ℤ
  pub slave_name : Text
  pub owner : Text
  pub group : Text
  pub seen : Bool
  pub xfer_time : ℤ
  pub checksum : ℕ

pub record RequestRecord : Type 0 where
  pub release : Text
  pub by : Text
  pub mode : Text
  pub for : Text
  pub date : Text

pub record RequestFillRecord : Type 0 where
  pub release : Text
  pub requested_by : Text
  pub filled_by : Text
  pub date : Text

pub record VfsDirMeta : Type 0 where
  pub sfv_entries : Option (Dict ℕ)
  pub sfv_name : Text
  pub sfv_checksum : ℕ
  pub sfv_allow_without_file : Bool
  pub zip_expected_parts : ℤ
  pub zip_diz_checksum : ℕ
  pub request_entries : List RequestRecord
  pub request_fill_entries : List RequestFillRecord

-- A set of texts is a map to the type with one element.
abbrev pub TextSet : Type 0
TextSet = Dict (Unit {0})

pub record Vfs : Type 0 where
  pub files : Dict VfsFile
  pub children : Dict TextSet
  pub slave_paths : Dict TextSet
  pub dir_meta : Dict VfsDirMeta
  pub protected_dirs : TextSet
  pub hidden_paths : List Text
  pub exclude_paths : List Text
  pub persist_version : ℕ

-- A directory that the master makes up.
abbrev pub made_dir : Text → Text → VfsFile
made_dir path slave_name = record {
  path = path;
  size = pos 0;
  is_dir = true;
  is_symlink = false;
  link_target = [];
  mode = 0;
  last_modified = pos 0;
  slave_name = slave_name;
  owner = [];
  group = [];
  seen = true;
  xfer_time = pos 0;
  checksum = 0;
}

unfoldable pub new_vfs : Vfs
unfolding insert
new_vfs = record {
  files = insert slash (made_dir slash []) [];
  children = insert slash [] [];
  slave_paths = [];
  dir_meta = [];
  protected_dirs = [];
  hidden_paths = [];
  exclude_paths = [];
  persist_version = 0;
}

abbrev pub has_key {ℓ} : {V : Type ℓ} → Text → Dict V → Bool
has_key k m = is_some (lookup k m)
