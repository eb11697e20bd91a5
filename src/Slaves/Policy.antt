-- ===== src/Slaves/Policy.antt =====
-- internal/master/slave_manager.go: which slaves may take an upload.
use weave_ftpd.Base.{
  List, [], ◌∷◌, ◌++◌, Bool, true, false, ◌&&◌, ◌||◌, not, Option, none, some, if◌then◌else◌, Text,
  codes, text_eq, has_prefix, has_suffix, trim_space, trim_prefix, to_lower, to_upper, split_byte,
  any, Dict, lookup, reverse, equal_fold,
}
use weave_ftpd.Base.Int.{ℤ}
use weave_ftpd.GoPath.Clean.{slash, dot, clean}
use weave_ftpd.GoPath.Glob.{glob}
use weave_ftpd.Vfs.State.{Vfs}

-- The parts of a slave that the choice reads; `mount_paths` are those of the roots that it reported.
pub record RemoteSlave : Type 0 where
  pub name : Text
  pub available : Bool
  pub active_transfers : ℤ
  pub space_available : ℤ
  pub mount_paths : List Text

pub record SlaveRoutePolicy : Type 0 where
  pub sections : List Text
  pub paths : List Text
  pub weight : ℤ
  pub read_only : Bool

pub record SlaveManager : Type 0 where
  pub slaves : Dict RemoteSlave
  pub policies : Dict SlaveRoutePolicy
  pub vfs : Vfs

-- `none` for a name without a policy.
unfoldable pub get_policy : Text → SlaveManager → Option SlaveRoutePolicy
get_policy name sm = lookup name sm.policies

abbrev pub is_read_only : Option SlaveRoutePolicy → Bool
is_read_only none = false
is_read_only (some policy) = policy.read_only

unfoldable pub is_slave_read_only : Text → SlaveManager → Bool
unfolding get_policy
is_slave_read_only name sm = is_read_only (get_policy name sm)

unfoldable pub find_fold : Text → Dict RemoteSlave → Option RemoteSlave
find_fold name [] = none
find_fold name ((key, rs) ∷ rest) = if equal_fold key name then some rs else find_fold name rest

abbrev or_fold : Option RemoteSlave → Option RemoteSlave → Option RemoteSlave
or_fold none other = other
or_fold (some rs) other = some rs

unfoldable pub get_slave : Text → SlaveManager → Option RemoteSlave
get_slave name sm = or_fold (lookup name sm.slaves) (find_fold name sm.slaves)

-- path.Clean("/" + strings.TrimSpace(p))
abbrev pub rooted : Text → Text
rooted p = clean (slash ++ trim_space p)

unfoldable pub mount_holds : Text → Text → Bool
mount_holds path mount_path =
    let m = (if text_eq mount_path dot || text_eq mount_path [] then slash else mount_path) in
    text_eq m slash || (text_eq path m || has_prefix path (m ++ slash))

abbrev pub is_empty : List Text → Bool
is_empty [] = true
is_empty (x ∷ xs) = false

unfoldable pub slave_can_store_path : RemoteSlave → Text → Bool
unfolding mount_holds any
slave_can_store_path rs upload_path =
    let p = rooted upload_path in
    if text_eq p dot || (text_eq p slash || text_eq (trim_space p) [])
    then true
    else if is_empty rs.mount_paths
    then true
    else any (λ m. mount_holds p (rooted m)) rs.mount_paths

abbrev pub first_part : List Text → Text
first_part [] = []
first_part (p ∷ ps) = p

unfoldable pub section_from_upload_path : Text → Text
section_from_upload_path path =
    let p = trim_space path in
    if text_eq p [] || text_eq p slash
    then []
    else let q = (if has_prefix p slash then p else slash ++ p) in
      to_upper (first_part (split_byte b'/' (trim_prefix q slash)))

-- strings.TrimSuffix(s, "*") of a text that ends in "*"
abbrev without_last : Text → Text
without_last [] = []
without_last (a ∷ s) = s

unfoldable pub pattern_accepts : Text → Text → Bool
pattern_accepts path pattern =
    let pat = to_lower (trim_space pattern) in
    if text_eq (trim_space pattern) []
    then false
    else glob pat path
      || (has_suffix pat (codes "/*") && has_prefix path (reverse (without_last (reverse pat))))

unfoldable pub slave_policy_accepts : SlaveRoutePolicy → Text → Text → Bool
unfolding pattern_accepts any
slave_policy_accepts policy section upload_path =
    if is_empty policy.sections && is_empty policy.paths
    then true
    else if not (text_eq section []) && any (λ s. text_eq s section) policy.sections
    then true
    else not (text_eq upload_path []) && any (pattern_accepts (to_lower upload_path)) policy.paths
