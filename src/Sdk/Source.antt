-- ===== src/Sdk/Source.antt =====
-- The query builder's reading of a lambda's source text, where its expression cannot be captured
-- (casys_db/query.py: `_lambda_to_gql`, `_extract_property_from_lambda`, `_extract_relation_name`,
-- `_lambda_to_expr_with_alias`, `_build_exists_for_relation`).
pub mod FirstLambda
mod Calls
use kuzu_event_bus.Prelude.{
  ℕ, zero, suc, ◌+◌, ◌-◌, Bool, true, false, Option, none, some, List, [], ◌∷◌, ◌++◌, ◌==◌,
  if◌then◌else◌, length, drop, nat_key, ◌&&◌, ◌||◌,
}
use mathlib.Core.List.{foldl}
use kuzu_event_bus.Text.{Text, text, text_key, strip, split_once, starts_with, lower, cons_left}
use kuzu_event_bus.Text.Parts.{format, join, replace, has, after_first, second_part, first_part}
use kuzu_event_bus.Sdk.Entities.{
  EntityClass, Relation, get_label, via, inverse, relation_hops, label_suffix,
}

abbrev pub cons_to : ℕ → Option Text → Option Text
cons_to c none = none
cons_to c (some s) = some (c ∷ s)

abbrev pub depth_after : ℕ → ℕ → ℕ
depth_after c depth = if c == b'(' then depth + 1 else if c == b')' then depth - 1 else depth

-- What stands before the first `)` that closes no `(` of the text, or with `commas` before a comma at
-- the top level.
unfoldable pub until_close : Bool → ℕ → Text → Option Text
until_close commas depth [] = none
until_close commas depth (c ∷ s) =
    let rest = cons_to c (until_close commas (depth_after c depth) s) in
    if (c == b')' || commas && c == b',') && depth == 0 then some [] else rest

-- body[:end_idx], where an index of 0 is taken for none found
abbrev pub trimmed : Text → Option Text → Text
trimmed body none = body
trimmed body (some []) = body
trimmed body (some (c ∷ s)) = c ∷ s

abbrev pub cut : Text → Option Text → Text
cut body none = body
cut body (some s) = s

-- "lambda" marks the start of a lambda, ":" ends its parameter.
abbrev pub keyword : Text
keyword = text "lambda"

abbrev pub colon : Text
colon = text ":"

-- Python's words in GQL's spelling.
unfoldable pub operators : Text → Text
operators s =
    let s = replace (text " and ") (text " AND ") s in
    let s = replace (text " or ") (text " OR ") s in
    let s = replace (text " not ") (text " NOT ") s in replace (text "==") (text "=") s

unfoldable pub quotes : Text → Text
quotes s = replace (text "\"") (text "'") s

abbrev pub renamed : Text → Option Text → Text → Text
renamed name none s = s
renamed name (some v) s = replace (name ++ text ".") (v ++ text ".") s

-- label[0].lower()
abbrev pub initial : Text → Text
initial [] = []
initial (c ∷ s) = lower (c ∷ [])

abbrev pub base_var : EntityClass → Text
base_var c = initial (get_label c)

-- _build_exists_for_relation
unfoldable pub exists_for_relation : EntityClass → Relation → Text
exists_for_relation c r =
    let node = format (text "(" ∷ base_var c ∷ text ":" ∷ get_label c ∷ text ")" ∷ []) in
    let edge = format (text "[:" ∷ via r ∷ relation_hops r.depth_min r.depth_max ∷ text "]" ∷ []) in
    let target = format (text "(" ∷ label_suffix r.target ∷ text ")" ∷ []) in
    let pattern =
      if inverse r
      then format (node ∷ text "<-" ∷ edge ∷ text "-" ∷ target ∷ [])
      else format (node ∷ text "-" ∷ edge ∷ text "->" ∷ target ∷ []) in
    format (text "EXISTS { MATCH " ∷ pattern ∷ text " RETURN " ∷ base_var c ∷ text " }" ∷ [])

abbrev pub or_n : Text → Text
or_n [] = text "n"
or_n (c ∷ s) = c ∷ s

-- any(lambda …) as a subquery from the variable `from_var`
unfoldable pub exists_where : Text → Relation → Text → Text
exists_where from_var r arg =
    let param = strip (first_part colon (cut [] (after_first keyword arg))) in
    let pred = strip (cut [] (after_first colon arg)) in
    let inner = initial (or_n r.target) in
    let from_node = format (text "(" ∷ from_var ∷ text ")" ∷ []) in
    let edge =
      format (text "-[:" ∷ via r ∷ relation_hops r.depth_min r.depth_max ∷ text "]->" ∷ []) in
    let node = format (text "(" ∷ inner ∷ label_suffix r.target ∷ text ")" ∷ []) in
    let pattern = if inverse r then node ++ (edge ++ from_node) else from_node ++ (edge ++ node) in
    let pred_body = operators (quotes (replace (param ++ text ".") (inner ++ text ".") pred)) in
    format (
      text "EXISTS { MATCH "
      ∷ pattern
      ∷ text " WHERE "
      ∷ pred_body
      ∷ text " RETURN "
      ∷ from_var
      ∷ text " }"
      ∷ [])

-- The calls `prefix …)`, each with a lambda replaced by a subquery, up to one that is not closed. Each
-- round leaves a shorter text, so that its length is fuel enough.
abbrev pub replace_calls : ℕ → Text → Relation → Text → Text → Text
replace_calls zero from_var r prefix body = body
replace_calls (suc fuel) from_var r prefix body = elim (split_once prefix body) [
  | none ↦ body
  | some p ↦ elim (until_close false 0 p.1) [
    | none ↦ body
    | some inside ↦
        let arg = strip inside in
        let subquery = format (text "(" ∷ exists_where from_var r arg ∷ text ")" ∷ []) in
        let after = replace_calls fuel from_var r prefix (drop (length inside + 1) p.1) in
        let kept = replace_calls fuel from_var r prefix p.1 in
        if starts_with keyword arg && has colon arg
        then p.0 ++ (subquery ++ after)
        else p.0 ++ (prefix ++ kept)
  ]
]

abbrev pub predicate_calls : Text → Relation → Text → Text → Text
predicate_calls from_var r prefix body = replace_calls (length body + 1) from_var r prefix body

abbrev pub any_of : Text → Relation → Text → Text
any_of x r after = format (x ∷ text "." ∷ r.name ∷ text ".any(" ∷ after ∷ [])

-- relation.any() and relation.any(lambda …) of one relation, for the variable and for the base
abbrev pub with_any : EntityClass → Option Text → Text → Relation → Text
with_any c none body r =
    let base = base_var c in
    let bare = format (text "(" ∷ exists_for_relation c r ∷ text ")" ∷ []) in
    predicate_calls base r (any_of base r []) (replace (any_of base r (text ")")) bare body)
with_any c (some x) body r =
    let base = base_var c in
    let bare = format (text "(" ∷ exists_for_relation c r ∷ text ")" ∷ []) in
    let body = replace (any_of x r (text ")")) bare body in
    let body = replace (any_of base r (text ")")) bare body in
    predicate_calls x r (any_of base r []) (predicate_calls x r (any_of x r []) body)

-- The part of a source after its first lambda's colon; `none` where a split has no second part.
abbrev pub lambda_body : Text → Option Text
lambda_body s = elim (after_first keyword s) [ none ↦ none | some r ↦ after_first colon r ]

abbrev pub lambda_parameter : Text → Text
lambda_parameter s = strip (first_part colon (cut [] (after_first keyword s)))

abbrev pub condition : EntityClass → Option Text → Text → Option Text → Text
condition c x s none = []
condition c x s (some body) =
    let body = strip body in
    let body = trimmed body (until_close false 0 body) in
    foldl (with_any c x) (quotes (operators (renamed (lambda_parameter s) x body))) c.relations

-- The second step of `_lambda_to_gql`
unfoldable pub condition_from_source : EntityClass → Option Text → Option Text → Text
condition_from_source c x none = []
condition_from_source c x (some source) =
    let s = strip source in if has keyword s then condition c x s (lambda_body s) else []

-- _extract_property_from_lambda
abbrev pub default_property : Option Text → Text
default_property none = text "id"
default_property (some x) = x ++ text ".id"

abbrev pub second_piece : Text → Option Text
second_piece s = elim (second_part keyword s) [ none ↦ none | some r ↦ second_part colon r ]

abbrev pub property_in : Option Text → Text → Option Text → Text
property_in x part none = default_property x
property_in x part (some body) =
    let body = strip body in
    renamed (strip (first_part colon part)) x (trimmed body (until_close false 0 body))

abbrev pub property_of : Option Text → Option Text → Text
property_of x none = default_property x
property_of x (some part) = property_in x part (second_part colon part)

-- A source without a lambda has no second part.
unfoldable pub extract_property : Option Text → Option Text → Text
extract_property x none = default_property x
extract_property x (some source) = property_of x (second_part keyword (strip source))
