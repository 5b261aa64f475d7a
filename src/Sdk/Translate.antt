-- ===== src/Sdk/Translate.antt =====
-- The query builder's translations of a lambda: by capture, and otherwise from its source
-- (casys_db/query.py: `_lambda_to_gql`, `_lambda_to_expr_with_alias`, `_extract_relation_name`).
pub mod Dropped
use kuzu_event_bus.Prelude.{
  ℕ, Bool, true, false, Option, none, some, List, [], ◌∷◌, ◌++◌, if◌then◌else◌, contains, ◌==◌,
  nat_key,
}
use kuzu_event_bus.Text.{Text, text, text_key, strip, split_once}
use kuzu_event_bus.Text.Parts.{format, has}
use kuzu_event_bus.Sdk.Entities.{EntityClass}
use kuzu_event_bus.Sdk.Expr.{Expr, to_gql}
use kuzu_event_bus.Sdk.Lambdas.{
  Term, parameter, attribute, constant, operator, both, either, negated, called, Python, Lambda,
  capture,
}
use kuzu_event_bus.Sdk.Source.{
  keyword, lambda_body, until_close, cut, operators, quotes, condition_from_source,
}

abbrev pub name_or : Option Text → Text → Text
name_or none s = s
name_or (some x) s = x

abbrev pub text_or : Option Expr → Text → Text
text_or none s = s
text_or (some e) s = to_gql e

-- _lambda_to_gql
unfoldable pub lambda_to_gql : Python → EntityClass → Option Text → Lambda → Text
lambda_to_gql py c x f =
    text_or (capture py (name_or x f.name) f) (condition_from_source c x f.source)

-- `co_names` of the compiled lambda: the names of its attributes, each once.
abbrev pub noted : List Text → Text → List Text
noted ns n = if contains n ns then ns else ns ++ n ∷ []

abbrev pub names_from : List Text → Term → List Text
names_from ns parameter = ns
names_from ns (attribute t n) = noted (names_from ns t) n
names_from ns (constant a) = ns
names_from ns (operator l o r) = names_from (names_from ns l) r
names_from ns (both l r) = names_from (names_from ns l) r
names_from ns (either l r) = names_from (names_from ns l) r
names_from ns (negated t) = names_from ns t
names_from ns (called t) = names_from ns t

unfoldable pub names_of : Term → List Text
names_of t = names_from [] t

abbrev pub expression_of : Text → Option Text → Text
expression_of alias none = alias
expression_of alias (some body) =
    let body = strip body in operators (quotes (strip (cut body (until_close true 0 body))))

abbrev pub expression_from_source : Text → Option Text → Text
expression_from_source alias none = alias
expression_from_source alias (some source) =
    let s = strip source in if has keyword s then expression_of alias (lambda_body s) else alias

-- The second and the third step of `_lambda_to_expr_with_alias`
abbrev pub quick_path : Text → Lambda → List Text → Text
quick_path alias f (n ∷ []) = format (f.name ∷ text "." ∷ n ∷ [])
quick_path alias f ns = expression_from_source alias f.source

-- _lambda_to_expr_with_alias
unfoldable pub lambda_to_expr : Python → Text → Lambda → Text
lambda_to_expr py alias f = text_or (capture py f.name f) (quick_path alias f (names_of f.body))

-- The part behind the last dot, or the whole text.
abbrev pub after_last_dot : Text → Text → Text
after_last_dot part [] = part
after_last_dot part (c ∷ s) = after_last_dot (if c == b'.' then [] else part ++ c ∷ []) s

abbrev pub relation_in : Text → Text
relation_in body =
    let body = strip body in after_last_dot [] (strip (cut body (until_close false 0 body)))

abbrev pub relation_after : Option Text → Option Text
relation_after none = none
relation_after (some body) = some (relation_in body)

-- _extract_relation_name; `none` is its ValueError
unfoldable pub extract_relation_name : Option Text → Option Text
extract_relation_name none = none
extract_relation_name (some source) =
    let s = strip source in if has keyword s then relation_after (lambda_body s) else none
