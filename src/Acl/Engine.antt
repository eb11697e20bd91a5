-- ===== src/Acl/Engine.antt =====
-- internal/acl/acl.go: the engine that decides who may do what where.
use weave_ftpd.Base.{
  List, [], ◌∷◌, ◌++◌, Bool, false, ◌||◌, Option, none, some, if◌then◌else◌, is_some, Text, codes,
  text_eq, has_prefix, trim_space, to_lower, fields, join, any, Dict, lookup, insert,
}
use weave_ftpd.User.Account.{User, has_flag}
use weave_ftpd.Acl.Rules.{
  Rule, prepare_rule, normalize_check_path, rule_matches_path, rule_allows, compile_rule_paths,
  path_matches_compiled,
}

-- RulesByType; a missing key has no rules.
pub record Engine : Type 0 where
  pub rules_by_type : Dict (List Rule)

or_empty : Option (List Rule) → List Rule
or_empty none = []
or_empty (some rules) = rules

unfoldable pub rules_of : Engine → Text → List Rule
unfolding or_empty lookup
rules_of e type = or_empty (lookup type e.rules_by_type)

-- The first rule of a list that covers the path.
unfoldable pub first_match : Text → List Rule → Option Rule
first_match vpath [] = none
first_match vpath (rule ∷ rules) =
    if rule_matches_path rule vpath then some rule else first_match vpath rules

unfoldable pub rule_type_for_action : Text → Text
rule_type_for_action action =
    let a = to_lower action in
    if text_eq a (codes "mkd") || text_eq a (codes "rmd")
    then codes "makedir"
    else if text_eq a (codes "dele")
    then codes "delete"
    else if text_eq a (codes "rnfr") || text_eq a (codes "rnto")
    then codes "rename"
    else a

-- What the loops return: the answer of the first rule that covers the path, or `otherwise`.
unfoldable pub decide_by : List Rule → User → Text → Bool → Bool
unfolding first_match
decide_by rules u vpath otherwise = elim (first_match vpath rules) [
  | none ↦ otherwise
  | some rule ↦ rule_allows rule u
]

unfoldable pub can_perform : Engine → Option User → Text → Text → Bool
unfolding decide_by rules_of
can_perform e none action vpath = false
can_perform e (some u) action vpath =
    let path = normalize_check_path vpath in
    decide_by (rules_of e (codes "privpath")) u path (
      decide_by (rules_of e (rule_type_for_action (to_lower action))) u path
        (has_flag u (codes "1")))

unfoldable pub can_perform_rule_only : Engine → Option User → Text → Text → Bool
unfolding decide_by rules_of
can_perform_rule_only e none action vpath = false
can_perform_rule_only e (some u) action vpath =
    decide_by (rules_of e (rule_type_for_action action)) u (normalize_check_path vpath) false

unfoldable pub path_matches : Text → Text → Bool
unfolding any
path_matches pattern vpath =
    any (λ c. path_matches_compiled c (normalize_check_path vpath)) (compile_rule_paths pattern)

unfoldable pub has_rule_type : Engine → Text → Bool
unfolding lookup
has_rule_type e type = is_some (lookup (to_lower (trim_space type)) e.rules_by_type)

unfoldable pub matches_rule_path : Engine → Text → Text → Bool
unfolding any rules_of
matches_rule_path e type vpath =
    any (λ rule. rule_matches_path rule (normalize_check_path vpath))
      (rules_of e (to_lower (trim_space type)))

-- One line of the text format of LoadEngine: type, path and, if given, what is required.
required_text : List Text → Text
required_text [] = codes "*"
required_text (w ∷ ws) = join (codes " ") (w ∷ ws)

line_rule : List Text → Option (Text × Rule)
unfolding required_text
line_rule (type ∷ path ∷ rest) = some (
  to_lower type,
  prepare_rule (record {
    type = to_lower type;
    path = path;
    required = required_text rest;
    requirement = none;
    paths = [];
  }),
)
line_rule _ = none

add_rule : Engine → Text → Rule → Engine
unfolding rules_of
add_rule e type rule = record {
  rules_by_type = insert type (rules_of e type ++ rule ∷ []) e.rules_by_type;
}

-- The loop of LoadEngine over the lines of a file that is no YAML.
unfoldable pub load_lines : Engine → List Text → Engine
unfolding line_rule add_rule
load_lines e [] = e
load_lines e (raw ∷ rest) =
    let line = trim_space raw in
    load_lines
      (if text_eq line [] || has_prefix line (codes "#")
        then e
        else elim (line_rule (fields line)) [ none ↦ e | some (type, rule) ↦ add_rule e type rule ])
      rest
