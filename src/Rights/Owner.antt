-- ===== src/Rights/Owner.antt =====
-- internal/core/owner_acl.go: what a session may delete, remove and rename. The master's bridge, of
-- which only ListDir is used, is the function `list_dir`, `none` where there is none.
use weave_ftpd.Base.{
  List, [], ◌∷◌, Bool, true, false, ◌&&◌, not, Option, none, some, if◌then◌else◌, Text, codes,
  text_eq, trim_space, equal_fold,
}
use weave_ftpd.GoPath.Clean.{clean, dir, base, join_path}
use weave_ftpd.User.Account.{User}
use weave_ftpd.Acl.Engine.{Engine, can_perform}

-- The parts of an entry that are read.
pub record MasterFileEntry : Type 0 where
  pub name : Text
  pub owner : Text

-- The parts of a session and its configuration that are read.
pub record OwnerSession : Type 0 where
  pub acl_engine : Option Engine
  pub user : Option User
  pub acl_base_path : Text
  pub mode : Text
  pub list_dir : Option (Text → List MasterFileEntry)

unfoldable pub owner_is : Text → Text → List MasterFileEntry → Bool
owner_is user name [] = false
owner_is user name (entry ∷ rest) =
    if equal_fold entry.name name then equal_fold entry.owner user else owner_is user name rest

abbrev entries_of : Option (Text → List MasterFileEntry) → Text → List MasterFileEntry
entries_of none parent = []
entries_of (some list_dir) parent = list_dir parent

abbrev name_of : Option User → Text
name_of none = []
name_of (some u) = u.name

unfoldable pub path_owned_by_user : OwnerSession → Text → Bool
unfolding owner_is
path_owned_by_user s vpath =
    not (text_eq (trim_space (name_of s.user)) [])
    && (text_eq s.mode (codes "master")
        && owner_is (name_of s.user) (base (clean vpath))
            (entries_of s.list_dir (dir (clean vpath))))

-- s.ACLEngine.CanPerform(s.User, action, path.Join(s.Config.ACLBasePath, vpath)), where there is an
-- engine.
unfoldable pub may : OwnerSession → Text → Text → Bool
may s action vpath = elim s.acl_engine [
  | none ↦ false
  | some e ↦ can_perform e s.user action (join_path s.acl_base_path vpath)
]

unfoldable pub can_delete_path : OwnerSession → Text → Bool
unfolding may
can_delete_path s vpath =
    if may s (codes "DELETE") vpath
    then true
    else if not (may s (codes "DELETEOWN") vpath)
    then false
    else path_owned_by_user s vpath

unfoldable pub can_remove_dir_path : OwnerSession → Text → Bool
unfolding may
can_remove_dir_path s vpath =
    if may s (codes "RMD") vpath && may s (codes "DELETE") vpath
    then true
    else if not (may s (codes "RMD") vpath)
    then false
    else if not (may s (codes "DELETEOWN") vpath)
    then false
    else path_owned_by_user s vpath

unfoldable pub can_rename_path : OwnerSession → Text → Text → Bool
unfolding may
can_rename_path s from_path to_path =
    if may s (codes "RENAME") to_path
    then true
    else if not (may s (codes "RENAMEOWN") from_path)
    then false
    else if not (may s (codes "RENAMEOWN") to_path)
    then false
    else path_owned_by_user s from_path
