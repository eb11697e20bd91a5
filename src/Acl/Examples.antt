-- ===== src/Acl/Examples.antt =====
-- The laws of requirements at a concrete account.
use weave_ftpd.Base.{◌≡◌, ◌↔◌, refl, [], ◌∷◌, true, codes, text_eq, contains}
use weave_ftpd.User.Account.{has_flag, is_in_group}
use weave_ftpd.User.Sample.{ann}
use weave_ftpd.Acl.Requirement.{no_terms, Requirement, requirement, cons, nil, check_requirement}
use weave_ftpd.Acl.RequirementLaws.{Satisfies, check_requirement_iff}

abbrev three_of_staff : Requirement
three_of_staff =
    requirement (record no_terms { all_flags = codes "3" ∷ [] })
      (cons (requirement (record no_terms { any_groups = codes "staff" ∷ [] }) nil nil) nil) nil

check_requirement_iff_example :
    (check_requirement ann three_of_staff ≡ true) ↔ Satisfies ann three_of_staff
check_requirement_iff_example = check_requirement_iff ann three_of_staff

check_run : check_requirement ann three_of_staff ≡ true
unfolding check_requirement text_eq has_flag contains is_in_group
check_run = refl
