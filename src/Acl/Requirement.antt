-- ===== src/Acl/Requirement.antt =====
-- internal/acl/acl.go: requirements and the check of one against an account.
use weave_ftpd.Base.{
  List, [], ◌∷◌, Bool, true, false, ◌&&◌, ◌||◌, not, if◌then◌else◌, Text, text_eq, equal_fold, any,
  all,
}
use weave_ftpd.User.Account.{User, has_flag, is_in_group}

-- The fields of a Requirement that are no requirements themselves.
pub record Terms : Type 0 where
  pub role_ref : Text
  pub anyone : Bool
  pub nobody : Bool
  pub all_flags : List Text
  pub any_flags : List Text
  pub not_flags : List Text
  pub all_groups : List Text
  pub any_groups : List Text
  pub not_groups : List Text
  pub users : List Text
  pub not_users : List Text

-- `requirement terms any_of all_of`; the two lists of pointers are of the second type.
mutual
  pub data Requirement : Type 0 where
    requirement : Terms → Requirements → Requirements → Requirement

  pub data Requirements : Type 0 where
    nil : Requirements
    cons : Requirement → Requirements → Requirements

abbrev pub no_terms : Terms
no_terms = record {
  role_ref = [];
  anyone = false;
  nobody = false;
  all_flags = [];
  any_flags = [];
  not_flags = [];
  all_groups = [];
  any_groups = [];
  not_groups = [];
  users = [];
  not_users = [];
}

-- An empty flag asks for nothing.
unfoldable pub has_all_flags : User → List Text → Bool
unfolding all
has_all_flags u flags = all (λ f. text_eq f [] || has_flag u f) flags

-- A list that asks for one of its elements, if it has any.
unfoldable pub one_of : (Text → Bool) → List Text → Bool
unfolding any
one_of p [] = true
one_of p (x ∷ xs) = any p (x ∷ xs)

unfoldable pub check_terms : User → Terms → Bool
unfolding any all one_of has_all_flags
check_terms u t =
    not (any (has_flag u) t.not_flags)
    && (not (any (is_in_group u) t.not_groups)
        && (not (any (equal_fold u.name) t.not_users)
            && (has_all_flags u t.all_flags
                && (one_of (has_flag u) t.any_flags
                    && (all (is_in_group u) t.all_groups
                        && (one_of (is_in_group u) t.any_groups
                            && one_of (equal_fold u.name) t.users))))))

unfoldable pub is_nil : Requirements → Bool
is_nil nil = true
is_nil (cons r rs) = false

-- checkRequirement for an account that is not nil.
unfoldable mutual
  unfolding is_nil check_terms

  pub check_requirement : User → Requirement → Bool
  check_requirement u (requirement t any_of all_of) =
      if t.nobody
      then false
      else check_terms u t && (check_all u all_of && (is_nil any_of || check_any u any_of))

  pub check_all : User → Requirements → Bool
  check_all u nil = true
  check_all u (cons r rs) = check_requirement u r && check_all u rs

  pub check_any : User → Requirements → Bool
  check_any u nil = false
  check_any u (cons r rs) = check_requirement u r || check_any u rs
