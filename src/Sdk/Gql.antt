-- ===== src/Sdk/Gql.antt =====
-- The text of a query and its parameters (casys_db/query.py: `_build_gql`, `_build_count_gql`, and the
-- requests of `all`, `first`, `count` and `update`).
pub mod Aliases
pub mod Filters
pub mod Projections
pub mod Sent
use kuzu_event_bus.Prelude.{
  ℕ, zero, suc, ◌+◌, Bool, true, false, Option, none, some, List, [], ◌∷◌, ◌++◌, if◌then◌else◌, map,
  contains, length,
}
use kuzu_event_bus.Dict
use kuzu_event_bus.Dict.{Dict}
use kuzu_event_bus.Text.{Text, text, text_key}
use kuzu_event_bus.Text.Parts.{format, join}
use kuzu_event_bus.Text.Decimal.{decimal}
use kuzu_event_bus.Sdk.Entities.{EntityClass, get_label}
use kuzu_event_bus.Sdk.Expr.{Literal}
use kuzu_event_bus.Sdk.Lambdas.{Python, Lambda}
use kuzu_event_bus.Sdk.Source.{base_var, extract_property}
use kuzu_event_bus.Sdk.Translate.{lambda_to_gql}
use kuzu_event_bus.Sdk.Builder.{Join, QueryBuilder, take, optional_hops, optional_label}

-- The loop that looks for a suffix that gives an alias not used yet, from `n` on; `none` if `rounds`
-- are not enough for it.
abbrev pub first_free : ℕ → List Text → Text → ℕ → Option ℕ
first_free zero used alias n = none
first_free (suc rounds) used alias n =
    let next = first_free rounds used alias (n + 1) in
    if contains (alias ++ decimal n) used then next else some n

abbrev pub suffixed : Text → Option ℕ → Text
suffixed alias none = alias
suffixed alias (some n) = alias ++ decimal n

-- Of as many candidates and one more as there are aliases, one is not used.
unfoldable pub fresh : List Text → Text → Text
fresh used alias =
    let renamed = suffixed alias (first_free (length used + 1) used alias 2) in
    if contains alias used then renamed else alias

abbrev pub extended : Text → Text → Join → Text
extended pattern alias j =
    let edge =
      format (text "-[:" ∷ j.via ∷ optional_hops j.depth_min j.depth_max ∷ text "]->" ∷ []) in
    let label = if j.with_label then optional_label j.target else [] in
    let node = format (text "(" ∷ alias ∷ label ∷ text ")" ∷ []) in
    if j.incoming then node ++ (edge ++ pattern) else pattern ++ (edge ++ node)

-- The pattern, and the joins with the aliases that they got.
unfoldable pub joined : List Text → Text → List Join → Text × List Join
joined used pattern [] = (pattern, [])
joined used pattern (j ∷ js) =
    let alias = fresh used j.alias in
    let rest = joined (alias ∷ used) (extended pattern alias j) js in
    (rest.0, record j { alias = alias } ∷ rest.1)

-- A filter from before a select is moved behind it.
abbrev pub moved : List (Text × Text) → Option Lambda → QueryBuilder → QueryBuilder
moved [] f b = b
moved (i ∷ is) none b = b
moved (i ∷ is) (some f) b = record b { where_post_with = some f; where_clause = none }

abbrev pub non_empty : Text → List Text
non_empty [] = []
non_empty (c ∷ s) = (c ∷ s) ∷ []

abbrev pub conditions : Python → EntityClass → Option Text → Option Lambda → List Text
conditions py c x none = []
conditions py c x (some f) = non_empty (lambda_to_gql py c x f)

-- The clause of a keyword, if it has any part.
abbrev pub clause : Text → Text → List Text → Text
clause word sep [] = []
clause word sep (s ∷ ss) = word ++ join sep (s ∷ ss)

abbrev pub as_item : Text × Text → Text
as_item (alias, e) = format (e ∷ text " AS " ∷ alias ∷ [])

abbrev pub kept_var : Text → Option Lambda → List Text
kept_var x none = []
kept_var x (some f) = x ∷ []

abbrev pub with_clause : Python → QueryBuilder → List (Text × Text) → Text
with_clause py b [] = []
with_clause py b (i ∷ is) =
    let x = base_var b.entity_class in
    clause (text " WITH ") (text ", ") (kept_var x b.where_post_with ++ map as_item (i ∷ is))
    ++ clause (text " WHERE ") [] (conditions py b.entity_class none b.where_post_with)

abbrev pub return_clause : Text → Option (List Text) → Text
return_clause x none = text " RETURN " ++ x
return_clause x (some []) = text " RETURN " ++ x
return_clause x (some (n ∷ ns)) = text " RETURN " ++ join (text ", ") (n ∷ ns)

abbrev pub order_variable : Text → List (Text × Text) → Option Text
order_variable x [] = some x
order_variable x (i ∷ is) = none

abbrev pub order_part : Option Text → Lambda × Bool → Text
order_part x (f, descending) =
    format (
      extract_property x f.source
      ∷ text " "
      ∷ (if descending then text "DESC" else text "ASC")
      ∷ [])

-- A limit of 0 counts as none.
abbrev pub limit_clause : Option ℕ → Text
limit_clause none = []
limit_clause (some zero) = []
limit_clause (some (suc n)) = text " LIMIT " ++ decimal (suc n)

abbrev pub written : Python → Text → QueryBuilder → Text → Text
written py x b pattern = format (
    text "MATCH "
    ∷ pattern
    ∷ clause (text " WHERE ") (text " AND ")
        (conditions py b.entity_class (some x) b.where_clause ++ b.exists_clauses)
    ∷ with_clause py b b.with_items
    ∷ return_clause x b.return_fields
    ∷ clause (text " ORDER BY ") (text ", ")
        (map (order_part (order_variable x b.with_items)) b.order_by_clauses)
    ∷ limit_clause b.limit_value
    ∷ [])

abbrev pub base_pattern : EntityClass → Text
base_pattern c = format (text "(" ∷ base_var c ∷ text ":" ∷ get_label c ∷ text ")" ∷ [])

-- The joins of a builder, with the aliases that the query uses for them.
abbrev pub place_joins : QueryBuilder → Text × List Join
place_joins b = joined (base_var b.entity_class ∷ []) (base_pattern b.entity_class) b.joins

-- The builder as `_build_gql` leaves it.
unfoldable pub settled : QueryBuilder → QueryBuilder
settled b = moved b.with_items b.where_clause (record b { joins = (place_joins b).1 })

-- _build_gql, with the builder that it leaves
unfoldable pub build_gql : Python → QueryBuilder → Text × QueryBuilder
unfolding settled
build_gql py b = (written py (base_var b.entity_class) (settled b) (place_joins b).0, settled b)

abbrev pub matched : Python → QueryBuilder → Text
matched py b =
    let x = base_var b.entity_class in
    format (
      text "MATCH "
      ∷ base_pattern b.entity_class
      ∷ clause (text " WHERE ") [] (conditions py b.entity_class (some x) b.where_clause)
      ∷ [])

abbrev pub counted : QueryBuilder → Text
counted b = format (text " RETURN COUNT(" ∷ base_var b.entity_class ∷ text ")" ∷ [])

-- _build_count_gql
unfoldable pub build_count_gql : Python → QueryBuilder → Text
build_count_gql py b = matched py b ++ counted b

-- What is sent to the engine; no parameters are sent as `None`.
pub record Request : Type 0 where
  pub gql : Text
  pub params : Option (Dict Text Literal)

abbrev pub params_or_none : Dict Text Literal → Option (Dict Text Literal)
params_or_none [] = none
params_or_none (p ∷ ps) = some (p ∷ ps)

-- The request of `all`, with the builder that it leaves
unfoldable pub all_request : Python → QueryBuilder → Request × QueryBuilder
unfolding build_gql
all_request py b =
    let built = build_gql py b in
    (record { gql = built.0; params = params_or_none b.params }, built.1)

unfoldable pub first_request : Python → QueryBuilder → Request × QueryBuilder
unfolding all_request take
first_request py b = all_request py (take 1 b)

unfoldable pub count_request : Python → QueryBuilder → Request
unfolding build_count_gql
count_request py b = record { gql = build_count_gql py b; params = params_or_none b.params }

abbrev pub set_part : Text → Text × Literal → Text
set_part x (key, v) = format (x ∷ text "." ∷ key ∷ text " = $u_" ∷ key ∷ [])

abbrev pub with_fields : Dict Text Literal → Dict Text Literal → Dict Text Literal
with_fields params [] = params
with_fields params ((key, v) ∷ fs) = with_fields (Dict.put params (text "u_" ++ key) v) fs

-- update; `none` is the ValueError for no field
unfoldable pub update_request : Python → Dict Text Literal → QueryBuilder → Option Request
update_request py [] b = none
update_request py (f ∷ fs) b = some (record {
  gql = format (
      matched py b
      ∷ text " SET "
      ∷ join (text ", ") (map (set_part (base_var b.entity_class)) (f ∷ fs))
      ∷ counted b
      ∷ []);
  params = params_or_none (with_fields b.params (f ∷ fs));
})
