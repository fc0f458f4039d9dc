-- ===== src/Template.antt =====
-- internal/templating/engine.go: variables in annotation values, `${name}` and `{{name}}`.
-- A search of the package `regexp` is a scan of the text from the left; a match is not scanned again.
mod Scan
pub mod Laws
unfoldable pub use Scan.*
use mathlib.Core.List.{reverse, map}
use dynamic_annotation_contr.Base.{
  drop_prefix, has_prefix, ℕ, ◌+◌, ◌==◌, Bool, true, false, not, ◌&&◌, ◌||◌, Option, none, some,
  List, [], ◌∷◌, ◌++◌, if◌then◌else◌, leb, Bytes, codes, str_eq, trim_space, is_empty, any, all,
  length, Assoc, lookup, insert,
}
use dynamic_annotation_contr.Api.{Object}

-- What `time.Time.Format` and `Unix` print of the execution time.
pub record TimeTexts : Type 0 where
  pub timestamp : Bytes
  pub date : Bytes
  pub time : Bytes
  pub unix : Bytes

pub record TemplateContext : Type 0 where
  pub variables : Assoc Bytes
  pub resource : Option Object
  pub rule_name : Bytes
  pub rule_namespace : Bytes
  pub rule_id : Bytes
  pub execution_time : TimeTexts
  pub action : Bytes

-- for k, v := range m { variables[prefix + k] = v }
pub set_all : Bytes → Assoc Bytes → Assoc Bytes → Assoc Bytes
set_all prefix [] variables = variables
set_all prefix ((k, v) ∷ m) variables = insert (prefix ++ k) v (set_all prefix m variables)

-- NewTemplateEngine: no built-in variables
unfoldable new_template_engine : Assoc Bytes
new_template_engine = []

abbrev pub some_or_nil : Option (Assoc Bytes) → Assoc Bytes
some_or_nil none = []
some_or_nil (some m) = m

unfoldable set_system : TemplateContext → Assoc Bytes → Assoc Bytes
set_system ctx m = insert (codes "action") ctx.action (
    insert (codes "rule.id") ctx.rule_id (
      insert (codes "rule.namespace") ctx.rule_namespace (
        insert (codes "rule.name") ctx.rule_name (
          insert (codes "unix") ctx.execution_time.unix (
            insert (codes "time") ctx.execution_time.time (
              insert (codes "date") ctx.execution_time.date
                (insert (codes "timestamp") ctx.execution_time.timestamp m)))))))

unfoldable set_resource : Option Object → Assoc Bytes → Assoc Bytes
set_resource none m = m
set_resource (some r) m = set_all (codes "resource.annotations.") (some_or_nil r.annotations) (
    set_all (codes "resource.labels.") r.labels (
      insert (codes "resource.uid") r.uid (
        insert (codes "resource.namespace") r.namespace (insert (codes "resource.name") r.name m))))

build_variable_map : Assoc Bytes → TemplateContext → Assoc Bytes
build_variable_map builtin_vars ctx =
    set_all [] ctx.variables
      (set_resource ctx.resource (set_system ctx (set_all [] builtin_vars [])))

-- the value of a variable, or the match itself if there is none
abbrev value_or : Bytes → Option Bytes → Bytes
value_or match none = match
value_or match (some v) = v

pub process_template : Assoc Bytes → Bytes → TemplateContext → Bytes
process_template builtin_vars template ctx =
    let variables = build_variable_map builtin_vars ctx in
    let dollars =
      replace match_dollar (λ m. value_or m.text (lookup m.content variables)) 0 template in
    if is_empty template
    then []
    else replace match_brace (λ m. value_or m.text (lookup (trim_space m.content) variables)) 0
        dollars

pub is_template : Bytes → Bool
is_template s = found match_dollar s || found match_brace s

-- append the names that have not been seen
unfoldable add_unseen : List Bytes → List Bytes → List Bytes
add_unseen [] seen = seen
add_unseen (x ∷ xs) seen =
    let fresh = add_unseen xs (seen ++ x ∷ []) in
    let old = add_unseen xs seen in if any (λ s. str_eq s x) seen then old else fresh

unfoldable get_template_variables : Bytes → List Bytes
get_template_variables template =
    add_unseen (map (λ m. trim_space m.content) (find_all match_brace 0 template))
      (add_unseen (map (λ m. trim_space m.content) (find_all match_dollar 0 template)) [])

pub data TemplateError : Type 0 where
  unmatched_braces empty_names : TemplateError
  invalid_name : Bytes → TemplateError

-- [a-zA-Z0-9._-]
abbrev is_variable_char : ℕ → Bool
is_variable_char c =
    (leb b'a' c && leb c b'z')
    || ((leb b'A' c && leb c b'Z')
        || ((leb b'0' c && leb c b'9') || (c == b'.' || (c == b'_' || c == b'-'))))

unfoldable pub validate_variable_name : Bytes → Bool
validate_variable_name name = not (is_empty name) && all is_variable_char name

-- strings.TrimSuffix
abbrev trim_suffix : Bytes → Bytes → Bytes
trim_suffix s suffix =
    if has_prefix (reverse s) (reverse suffix)
    then reverse (drop_prefix (reverse s) (reverse suffix))
    else s

unfoldable pub extract_variable_name : Bytes → Bytes
extract_variable_name match =
    if has_prefix match (codes "${")
    then trim_space (trim_suffix (drop_prefix match (codes "${")) (codes "}"))
    else if has_prefix match (codes "{{")
    then trim_space (trim_suffix (drop_prefix match (codes "{{")) (codes "}}"))
    else match

-- the first match whose name is not valid
unfoldable pub check_names : List Match → Option TemplateError
check_names [] = none
check_names (m ∷ ms) =
    let rest = check_names ms in
    let name = extract_variable_name m.text in
    if validate_variable_name name then rest else some (invalid_name name)

unfoldable pub validate_template : Bytes → Option TemplateError
validate_template template =
    if is_empty template
    then none
    else if unmatched template
    then some unmatched_braces
    else if found empty_dollar template || found empty_brace template
    then some empty_names
    else check_names
        (find_all match_dollar_or_empty 0 template ++ find_all match_brace_or_empty 0 template)

unfoldable set_builtin_variable : Assoc Bytes → Bytes → Bytes → Assoc Bytes
set_builtin_variable builtin_vars name value = insert name value builtin_vars

-- GetBuiltinVariables: a copy
unfoldable get_builtin_variables : Assoc Bytes → Assoc Bytes
get_builtin_variables builtin_vars = set_all [] builtin_vars []
