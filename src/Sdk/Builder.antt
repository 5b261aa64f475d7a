-- ===== src/Sdk/Builder.antt =====
-- The state of a query builder and the methods that set it (casys_db/query.py: `QueryBuilder`).
pub mod Joins
use kuzu_event_bus.Prelude.{
  ℕ, Bool, true, false, Option, none, some, List, [], ◌∷◌, ◌++◌, if◌then◌else◌, ltb, ◌==◌,
}
use kuzu_event_bus.Dict
use kuzu_event_bus.Dict.{Dict}
use kuzu_event_bus.Text.{Text, text, text_key}
use kuzu_event_bus.Text.Parts.{format}
use kuzu_event_bus.Sdk.Entities.{
  EntityClass, Relation, get_label, via, inverse, hops, label_suffix, find_relation,
}
use kuzu_event_bus.Sdk.Expr.{Literal}
use kuzu_event_bus.Sdk.Lambdas.{Python, Lambda}
use kuzu_event_bus.Sdk.Source.{base_var, initial}
use kuzu_event_bus.Sdk.Translate.{lambda_to_expr, extract_relation_name}
use kuzu_event_bus.Sdk.Mapping.{lambda_dict_mapping}

pub record Join : Type 0 where
  pub incoming : Bool
  pub via : Text
  pub target : Option Text
  pub alias : Text
  pub depth_min : Option ℕ
  pub depth_max : Option ℕ
  pub with_label : Bool

pub record QueryBuilder : Type 0 where
  pub entity_class : EntityClass
  pub where_clause : Option Lambda
  pub order_by_clauses : List (Lambda × Bool)
  pub limit_value : Option ℕ
  pub depth_min : ℕ
  pub depth_max : ℕ
  pub include_relations : List Text
  pub params : Dict Text Literal
  pub with_items : List (Text × Text)
  pub return_fields : Option (List Text)
  pub exists_clauses : List Text
  pub where_post_with : Option Lambda
  pub joins : List Join

unfoldable pub query : EntityClass → QueryBuilder
query c = record {
  entity_class = c;
  where_clause = none;
  order_by_clauses = [];
  limit_value = none;
  depth_min = 1;
  depth_max = 3;
  include_relations = [];
  params = [];
  with_items = [];
  return_fields = none;
  exists_clauses = [];
  where_post_with = none;
  joins = [];
}

abbrev pub filtered : List (Text × Text) → Lambda → QueryBuilder → QueryBuilder
filtered [] f b = record b { where_clause = some f }
filtered (i ∷ is) f b = record b { where_post_with = some f }

unfoldable pub where_matches : Lambda → QueryBuilder → QueryBuilder
where_matches f b = filtered b.with_items f b

unfoldable pub order_by : Lambda → QueryBuilder → QueryBuilder
order_by f b = record b { order_by_clauses = b.order_by_clauses ++ (f, false) ∷ [] }

unfoldable pub order_by_desc : Lambda → QueryBuilder → QueryBuilder
order_by_desc f b = record b { order_by_clauses = b.order_by_clauses ++ (f, true) ∷ [] }

-- take and limit
unfoldable pub take : ℕ → QueryBuilder → QueryBuilder
take n b = record b { limit_value = some n }

abbrev pub updated : Dict Text Literal → Dict Text Literal → Dict Text Literal
updated d [] = d
updated d ((k, v) ∷ kvs) = updated (Dict.put d k v) kvs

unfoldable pub bind_params : Dict Text Literal → QueryBuilder → QueryBuilder
bind_params values b = record b { params = updated b.params values }

unfoldable pub include : List Text → QueryBuilder → QueryBuilder
include names b = record b { include_relations = b.include_relations ++ names }

-- 2**31 - 1, for no upper bound
abbrev pub unbounded : ℕ
unbounded = 2147483647

abbrev pub value_or : ℕ → Option ℕ → ℕ
value_or n none = n
value_or n (some m) = m

-- The bounds of `depth`; `none` is the ValueError of more than two positions.
abbrev pub depth_bounds : List ℕ → Option ℕ → Option ℕ → Option (ℕ × ℕ)
depth_bounds args (some low) high = some (low, value_or unbounded high)
depth_bounds args none (some high) = some (1, high)
depth_bounds [] none none = some (1, unbounded)
depth_bounds (n ∷ []) none none = some (n, n)
depth_bounds (n ∷ m ∷ []) none none = some (n, m)
depth_bounds (n ∷ m ∷ k ∷ rest) none none = none

abbrev pub with_depth : QueryBuilder → Option (ℕ × ℕ) → Option QueryBuilder
with_depth b none = none
with_depth b (some (low, high)) =
    if ltb high low then none else some (record b { depth_min = low; depth_max = high })

-- depth; `none` is a ValueError
unfoldable pub depth : List ℕ → Option ℕ → Option ℕ → QueryBuilder → Option QueryBuilder
depth args low high b = with_depth b (depth_bounds args low high)

abbrev pub keys {ℓ} : {A : Type ℓ} → List (Text × A) → List Text
keys [] = []
keys ((k, v) ∷ kvs) = k ∷ keys kvs

abbrev pub projected : List (Text × Text) → QueryBuilder → QueryBuilder
projected items b = record b { with_items = items; return_fields = some (keys items) }

-- select with a lambda that returns a dict
unfoldable pub select_dict : Option Text → QueryBuilder → QueryBuilder
select_dict source b = projected (lambda_dict_mapping b.entity_class source) b

abbrev pub expressions : Python → List (Text × Lambda) → List (Text × Text)
expressions py [] = []
expressions py ((alias, f) ∷ fs) = (alias, lambda_to_expr py alias f) ∷ expressions py fs

-- select with keyword arguments; with none at all it is a ValueError
unfoldable pub select : Python → List (Text × Lambda) → QueryBuilder → Option QueryBuilder
select py [] b = none
select py (f ∷ fs) b = some (projected (expressions py (f ∷ fs)) b)

unfoldable pub set_return_fields : List Text → QueryBuilder → QueryBuilder
set_return_fields names b = record b { return_fields = some names }

-- The hops of a join or of an edge that must exist
abbrev pub optional_hops : Option ℕ → Option ℕ → Text
optional_hops none none = []
optional_hops (some low) high = hops low (value_or unbounded high)
optional_hops none (some high) = hops 1 high

abbrev pub optional_label : Option Text → Text
optional_label none = []
optional_label (some s) = label_suffix s

abbrev pub exists_clause : QueryBuilder → Text → Option Text → Option ℕ → Option ℕ → Bool → Text
exists_clause b rel to low high incoming =
    let x = base_var b.entity_class in
    let edge = format (text "[:" ∷ rel ∷ optional_hops low high ∷ text "]" ∷ []) in
    let node = format (text "(" ∷ optional_label to ∷ text ")" ∷ []) in
    let pattern =
      if incoming
      then format (text "(" ∷ x ∷ text ")<-" ∷ edge ∷ text "-" ∷ node ∷ [])
      else format (text "(" ∷ x ∷ text ")-" ∷ edge ∷ text "->" ∷ node ∷ []) in
    format (text "EXISTS { MATCH " ∷ pattern ∷ text " RETURN " ∷ x ∷ text " }" ∷ [])

unfoldable pub where_exists_edge :
    Text → Option Text → Option ℕ → Option ℕ → Bool → QueryBuilder → QueryBuilder
where_exists_edge rel to low high incoming b = record b {
  exists_clauses = b.exists_clauses ++ exists_clause b rel to low high incoming ∷ [];
}

unfoldable pub where_not_exists_edge :
    Text → Option Text → Option ℕ → Option ℕ → Bool → QueryBuilder → QueryBuilder
where_not_exists_edge rel to low high incoming b =
    let clause = exists_clause b rel to low high incoming in
    record b {
      exists_clauses = b.exists_clauses ++ format (text "NOT (" ∷ clause ∷ text ")" ∷ []) ∷ [];
    }
