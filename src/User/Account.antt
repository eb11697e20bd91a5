-- ===== src/User/Account.antt =====
-- internal/user/user.go: the account and the questions that are asked of it.
use weave_ftpd.Base.{
  List, [], ◌∷◌, Bool, true, false, ◌||◌, Option, none, some, if◌then◌else◌, ◌==◌, Text, codes,
  text_eq, contains, trim_space, Dict, lookup, any, is_some,
}
use weave_ftpd.Base.Int.{ℤ, pos, ltb_ℤ, leb_ℤ, eqb_ℤ}
use weave_ftpd.GoPath.Glob.{glob}

pub record StatLine : Type 0 where
  pub files : ℤ
  pub bytes : ℤ
  pub meta : ℤ

abbrev pub no_traffic : StatLine
no_traffic = record { files = pos 0; bytes = pos 0; meta = pos 0 }

-- `groups` maps a group to 1 for its administrators; a nil map is an empty one.
pub record User : Type 0 where
  pub name : Text
  pub password : Text
  pub uid : ℤ
  pub gid : ℤ
  pub flags : Text
  pub tagline : Text
  pub home_root : Text
  pub home_dir : Text
  pub current_dir : Text
  pub added : ℤ
  pub last_login : ℤ
  pub period_anchor : ℤ
  pub file_mod_time : ℤ
  pub expires : ℤ
  pub credits : ℤ
  pub ratio : ℤ
  pub groups : Dict ℤ
  pub primary_group : Text
  pub ips : List Text
  pub all_up : StatLine
  pub all_dn : StatLine
  pub wk_up : StatLine
  pub wk_dn : StatLine
  pub day_up : StatLine
  pub day_dn : StatLine
  pub month_up : StatLine
  pub month_dn : StatLine
  pub nuke_stat : StatLine
  pub login_slots : ℤ
  pub max_sim : ℤ
  pub upload_slots : ℤ
  pub download_slots : ℤ
  pub weekly_allotment : ℤ

unfoldable pub has_flag : User → Text → Bool
has_flag u flag = contains u.flags flag

unfoldable pub is_in_group : User → Text → Bool
is_in_group u group = text_eq u.primary_group group || is_some (lookup group u.groups)

is_one : Option ℤ → Bool
is_one none = false
is_one (some v) = eqb_ℤ v (pos 1)

unfoldable pub is_group_admin : User → Text → Bool
unfolding is_one
is_group_admin u group = is_one (lookup group u.groups)

unfoldable pub is_expired : ℤ → User → Bool
is_expired now u = if eqb_ℤ u.expires (pos 0) then false else ltb_ℤ u.expires now

unfoldable pub is_disabled : User → Bool
unfolding has_flag
is_disabled u = has_flag u (codes "6")

-- What stands behind the first "@", if there is one.
after_at : Text → Option Text
after_at [] = none
after_at (c ∷ s) = let rest = after_at s in if c == b'@' then some s else rest

unfoldable pub host_mask : Text → Text
unfolding after_at
host_mask mask = elim (after_at (trim_space mask)) [ none ↦ trim_space mask | some host ↦ host ]

unfoldable pub mask_allows : Text → Text → Bool
unfolding host_mask
mask_allows remote_ip mask =
    text_eq (host_mask mask) (codes "*")
    || text_eq (host_mask mask) remote_ip
    || glob (host_mask mask) remote_ip

unfoldable pub ip_allowed : User → Text → Bool
ip_allowed u remote_ip = any (mask_allows remote_ip) u.ips

unfoldable pub has_enough_credits : User → ℤ → Bool
has_enough_credits u file_bytes = if eqb_ℤ u.ratio (pos 0) then true else leb_ℤ file_bytes u.credits

unfoldable pub has_download_access : User → Bool
unfolding has_flag
has_download_access u = has_flag u (codes "3")

-- The section is not looked at.
unfoldable pub can_download : User → ℤ → Bool
unfolding has_download_access has_enough_credits
can_download u file_bytes = if has_download_access u then has_enough_credits u file_bytes else false
