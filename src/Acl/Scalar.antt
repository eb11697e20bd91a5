-- ===== src/Acl/Scalar.antt =====
-- internal/acl/acl.go: the text form of a requirement, read and written.
use weave_ftpd.Base.{
  String, List, [], ◌∷◌, ◌++◌, true, if◌then◌else◌, Text, codes, text_eq, has_prefix, trim_prefix,
  trim_space, fields, join, map,
}
use weave_ftpd.Acl.Requirement.{Terms, Requirement, requirement, Requirements, nil}

-- `if name != "" { list = append(list, name) }`
add_name : List Text → Text → List Text
add_name names [] = names
add_name names (c ∷ s) = names ++ (c ∷ s) ∷ []

abbrev after : String → Text → Text
after prefix token = trim_space (trim_prefix token (codes prefix))

parse_token : Terms → Text → Terms
unfolding add_name
parse_token t token =
    if text_eq token (codes "*")
    then record t { anyone = true }
    else if text_eq token (codes "!*")
    then record t { nobody = true }
    else if has_prefix token (codes "!@")
    then record t { not_users = add_name t.not_users (after "!@" token) }
    else if has_prefix token (codes "!=")
    then record t { not_groups = add_name t.not_groups (after "!=" token) }
    else if has_prefix token (codes "!")
    then record t { not_flags = add_name t.not_flags (after "!" token) }
    else if has_prefix token (codes "@")
    then record t { users = add_name t.users (after "@" token) }
    else if has_prefix token (codes "=")
    then record t { any_groups = add_name t.any_groups (after "=" token) }
    else record t { all_flags = t.all_flags ++ token ∷ [] }

parse_tokens : Terms → List Text → Terms
parse_tokens t [] = t
parse_tokens t (token ∷ rest) =
    parse_tokens (if text_eq (trim_space token) [] then t else parse_token t (trim_space token))
      rest

-- parseRequirementScalar, which never fails.
unfoldable pub parse_requirement_scalar : Terms → Text → Terms
unfolding parse_token parse_tokens
parse_requirement_scalar t text =
    let trimmed = trim_space text in
    if text_eq trimmed []
    then t
    else if text_eq trimmed (codes "*")
    then record t { anyone = true }
    else if text_eq trimmed (codes "!*")
    then record t { nobody = true }
    else parse_tokens t (fields trimmed)

marked : String → List Text → List Text
marked prefix names = map (λ n. codes prefix ++ n) names

braced : String → List Text → List Text
braced prefix names = map (λ n. codes prefix ++ (n ++ codes "}")) names

structured : Requirements → Requirements → List Text
structured nil nil = []
structured _ _ = codes "{structured}" ∷ []

or_star : List Text → Text
or_star [] = codes "*"
or_star (p ∷ ps) = join (codes " ") (p ∷ ps)

-- requirementToLegacyString
unfoldable pub requirement_to_legacy_string : Requirement → Text
unfolding marked braced structured or_star join
requirement_to_legacy_string (requirement t any_of all_of) =
    if t.nobody
    then codes "!*"
    else or_star (
        (if t.anyone then codes "*" ∷ [] else [])
        ++ (t.all_flags
            ++ (braced "{anyflag:" t.any_flags
                ++ (marked "!" t.not_flags
                    ++ (braced "{allgroup:" t.all_groups
                        ++ (marked "=" t.any_groups
                            ++ (marked "!=" t.not_groups
                                ++ (marked "@" t.users
                                    ++ (marked "!@" t.not_users ++ structured any_of all_of)))))))))
