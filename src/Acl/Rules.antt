-- ===== src/Acl/Rules.antt =====
-- internal/acl/acl.go: rules, the compilation of their paths, and when a rule covers a path.
use weave_ftpd.Base.{
  ℕ, zero, suc, List, [], ◌∷◌, ◌++◌, Bool, false, ◌&&◌, ◌||◌, Option, none, some, if◌then◌else◌,
  ◌==◌, Text, codes, text_eq, has_prefix, has_suffix, contains, trim_space, trim_right, to_lower,
  replace_byte, split_byte, any, length,
}
use weave_ftpd.GoPath.Clean.{clean}
use weave_ftpd.GoPath.Glob.{glob, ◌>>=◌}
use weave_ftpd.User.Account.{User}
use weave_ftpd.Acl.Requirement.{no_terms, Requirement, requirement, nil, check_requirement}
use weave_ftpd.Acl.Scalar.{parse_requirement_scalar}

pub record CompiledRulePath : Type 0 where
  pub pattern : Text
  pub parent : Text
  pub trailing_slash : Bool

pub record Rule : Type 0 where
  pub type : Text
  pub path : Text
  pub required : Text
  pub requirement : Option Requirement
  pub paths : List CompiledRulePath

-- The text before and behind the first byte `sep`.
unfoldable pub cut_at : ℕ → Text → Option (Text × Text)
cut_at sep [] = none
cut_at sep (a ∷ s) =
    let rest : Option (Text × Text) = (do
      (before, behind) ← cut_at sep s
      some (a ∷ before, behind)) in
    if a == sep then some ([], s) else rest

-- The loop over the parts between braces: an empty one is passed over.
expand_parts : (Text → Option (List Text)) → Text → Text → List Text → Option (List Text)
expand_parts expand prefix suffix [] = some []
expand_parts expand prefix suffix (part ∷ parts) = do
  rest ← expand_parts expand prefix suffix parts
  if text_eq (trim_space part) []
      then some rest
      else do expanded ← expand (prefix ++ (trim_space part ++ suffix)); some (expanded ++ rest)

or_whole : Text → List Text → List Text
or_whole pattern [] = pattern ∷ []
or_whole pattern (p ∷ ps) = p ∷ ps

-- expandBracePatterns; `none` means that the fuel ran out. Each call removes a closing brace.
unfoldable pub expand_brace_patterns : ℕ → Text → Option (List Text)
unfolding cut_at expand_parts or_whole
expand_brace_patterns zero pattern = none
expand_brace_patterns (suc fuel) pattern =
    let trimmed = trim_space pattern in
    elim (cut_at b'{' trimmed) [
      | none ↦ some (trimmed ∷ [])
      | some (prefix, tail) ↦ elim (cut_at b'}' tail) [
        | none ↦ some (trimmed ∷ [])
        | some (body, suffix) ↦ (do
          out ← expand_parts (expand_brace_patterns fuel) prefix suffix (split_byte b',' body)
          some (or_whole trimmed out))
      ]
    ]

-- Enough fuel for any pattern: no pattern has more braces than bytes.
unfoldable pub expand : Text → List Text
unfolding expand_brace_patterns
expand pattern = elim (expand_brace_patterns (suc (length pattern)) pattern) [
  | none ↦ []
  | some out ↦ out
]

unfoldable pub compile_rule_path : Text → Option CompiledRulePath
compile_rule_path pattern =
    let raw = replace_byte 92 b'/' (trim_space pattern) in
    let trailing = has_suffix raw (codes "/") in
    if text_eq raw []
    then none
    else some (record {
      pattern = if trailing then raw else clean raw;
      parent = clean raw;
      trailing_slash = trailing;
    })

same_key : CompiledRulePath → CompiledRulePath → Bool
same_key a b = text_eq (a.pattern ++ (0 ∷ []) ++ a.parent) (b.pattern ++ (0 ∷ []) ++ b.parent)

compile_all : List CompiledRulePath → List Text → List CompiledRulePath
compile_all out [] = out
compile_all out (p ∷ ps) =
    compile_all
      (elim (compile_rule_path p) [
        | none ↦ out
        | some c ↦ if any (same_key c) out then out else out ++ c ∷ []
      ])
      ps

unfoldable pub compile_rule_paths : Text → List CompiledRulePath
unfolding compile_rule_path expand same_key compile_all any
compile_rule_paths pattern = compile_all [] (expand pattern)

star_if_empty : Text → Text
star_if_empty [] = codes "*"
star_if_empty (c ∷ s) = c ∷ s

parsed_if_missing : Option Requirement → Text → Option Requirement
parsed_if_missing none required =
    some (requirement (parse_requirement_scalar no_terms required) nil nil)
parsed_if_missing (some r) required = some r

unfoldable pub prepare_rule : Rule → Rule
unfolding star_if_empty parsed_if_missing compile_rule_paths
prepare_rule rule =
    let required = star_if_empty (trim_space rule.required) in
    record {
      type = to_lower (trim_space rule.type);
      path = trim_space rule.path;
      required = required;
      requirement = parsed_if_missing rule.requirement required;
      paths = compile_rule_paths (trim_space rule.path);
    }

unfoldable pub normalize_check_path : Text → Text
normalize_check_path vpath = clean (replace_byte 92 b'/' (trim_space vpath))

-- A pattern with exactly one star, split there: as a prefix and a suffix.
one_star : List Text → Text → Bool
one_star (prefix ∷ suffix ∷ []) vpath =
    if text_eq suffix []
    then has_prefix vpath prefix
    else if text_eq prefix []
    then has_suffix vpath suffix
    else has_prefix vpath prefix && has_suffix vpath suffix
one_star _ vpath = false

unfoldable pub path_matches_compiled : CompiledRulePath → Text → Bool
unfolding one_star
path_matches_compiled c vpath =
    if c.trailing_slash
    then glob c.pattern (trim_right (λ b. b == b'/') vpath ++ codes "/")
    else text_eq c.pattern vpath
      || (glob c.pattern vpath
          || (contains c.pattern (codes "*") && one_star (split_byte b'*' c.pattern) vpath))

unfoldable pub path_is_below : Text → Text → Bool
path_is_below vpath parent =
    if text_eq parent [] || (text_eq parent (codes ".") || contains parent (codes "*"))
    then false
    else let top = trim_right (λ b. b == b'/') parent in
      text_eq vpath top || has_prefix vpath (top ++ codes "/")

unfoldable pub compiled_paths_for_rule : Rule → List CompiledRulePath
compiled_paths_for_rule rule = elim rule.paths [
  | [] ↦ compile_rule_paths rule.path
  | c ∷ cs ↦ c ∷ cs
]

unfoldable pub rule_matches_path : Rule → Text → Bool
unfolding any path_matches_compiled path_is_below compiled_paths_for_rule
rule_matches_path rule vpath =
    any (λ c. path_matches_compiled c vpath || path_is_below vpath c.parent)
      (compiled_paths_for_rule rule)

-- checkRequired without its cache, which holds what the parser returns for the same text.
unfoldable pub check_required : Text → User → Bool
check_required required u =
    check_requirement u (requirement (parse_requirement_scalar no_terms required) nil nil)

unfoldable pub rule_allows : Rule → User → Bool
unfolding check_required
rule_allows rule u = elim rule.requirement [
  | none ↦ check_required rule.required u
  | some r ↦ check_requirement u r
]
