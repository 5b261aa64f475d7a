-- ===== src/Sdk/Loading.antt =====
-- Loading related nodes: `NodeEntity.with_relations` and `_hydrate_node` (casys_db/orm.py). What the
-- engine answers to a query is an argument.
pub mod Rows
pub mod Missing
use kuzu_event_bus.Prelude.{
  ℕ, zero, suc, ◌+◌, Bool, true, false, Option, none, some, List, [], ◌∷◌, ◌++◌, if◌then◌else◌,
  ◌==◌, nat_key, length, ltb, ◌&&◌, contains,
}
use kuzu_event_bus.Dict
use kuzu_event_bus.Dict.{Dict}
use kuzu_event_bus.Text.{Text, text, text_key}
use kuzu_event_bus.Text.Parts.{format, join}
use kuzu_event_bus.Sdk.Entities.{
  EntityClass, Relation, Direction, outgoing, incoming, undirected, get_label, via, edge_spec, hops,
  find_relation,
}
use kuzu_event_bus.Sdk.Builder.{unbounded, value_or}

-- A value of the engine.
mutual
  pub data Value : Type 0 where
    null : Value
    number : ℕ → Value
    string : Text → Value
    array : Items → Value
    object : Fields → Value

  pub data Items : Type 0 where
    nil : Items
    cons : Value → Items → Items

  pub data Fields : Type 0 where
    end : Fields
    field : Text → Value → Fields → Fields

abbrev pub get_field : Fields → Text → Option Value
get_field end k = none
get_field (field j v fs) k = if j == k then some v else get_field fs k

abbrev pub nth : Items → ℕ → Option Value
nth nil i = none
nth (cons v vs) zero = some v
nth (cons v vs) (suc i) = nth vs i

-- A descriptor with the class that built it, if a class did (`relation_cls`)
pub record Loaded : Type 0 where
  pub relation : Relation
  pub relation_class : Option Text

abbrev pub edge_hops : Option ℕ → Option ℕ → Text
edge_hops low high =
    let written = hops (value_or 1 low) (value_or unbounded high) in
    if value_or 2 low == 1 && value_or 2 high == 1 then [] else written

abbrev pub arrows : Direction → Text → Text
arrows outgoing edge = format (text "-" ∷ edge ∷ text "->" ∷ [])
arrows incoming edge = format (text "<-" ∷ edge ∷ text "-" ∷ [])
arrows undirected edge = format (text "-" ∷ edge ∷ text "-" ∷ [])

-- The query for one relation of a node of the class
unfoldable pub load_gql : EntityClass → Relation → Text
load_gql c r =
    let edge = format (text "[r:" ∷ via r ∷ edge_hops r.depth_min r.depth_max ∷ text "]" ∷ []) in
    format (
      text "MATCH (p:"
      ∷ get_label c
      ∷ text ")"
      ∷ arrows r.direction edge
      ∷ text "(t:"
      ∷ r.target
      ∷ text ") WHERE ID(p) = $base_id RETURN r, r.edge_type, t"
      ∷ [])

-- columns.index(name)
abbrev pub index_from : ℕ → Text → List Text → Option ℕ
index_from i name [] = none
index_from i name (c ∷ cs) = if c == name then some i else index_from (i + 1) name cs

abbrev pub edge_column : List Text → ℕ
edge_column columns = value_or 0 (index_from 0 (text "r") columns)

abbrev pub node_column : List Text → ℕ
node_column columns =
    value_or (if ltb 1 (length columns) then 1 else 0) (index_from 0 (text "t") columns)

-- Python's truth of a value
abbrev pub is_true : Value → Bool
is_true null = false
is_true (number zero) = false
is_true (number (suc n)) = true
is_true (string []) = false
is_true (string (c ∷ s)) = true
is_true (array nil) = false
is_true (array (cons v vs)) = true
is_true (object end) = false
is_true (object (field k v fs)) = true

-- first or second, where `None` is `none`
abbrev pub true_or : Option Value → Option Value → Option Value
true_or none w = w
true_or (some v) w = if is_true v then some v else w

abbrev pub fields_of : Option Value → Fields
fields_of (some (object fs)) = fs
fields_of _ = end

abbrev pub without : Text → Fields → Fields
without k end = end
without k (field j v fs) = let rest = without k fs in if j == k then rest else field j v rest

-- The properties of a raw node: its `properties`, if that is a dict, or all but `id`.
abbrev pub own_or_all : Fields → Option Value → Fields
own_or_all fs (some (object ps)) = ps
own_or_all fs _ = without (text "id") fs

abbrev pub present : Option Value → Option Value
present none = none
present (some null) = none
present (some v) = some v

-- A node of a registered class; its relations and properties are told apart by `NodeEntity.__init__`.
pub record Node : Type 0 where
  pub class_name : Text
  pub id : Option Value
  pub kwargs : Fields

abbrev pub raw_fields : Value → Fields
raw_fields (object fs) = fs
raw_fields _ = end

-- The id that `__init__` takes from the properties, unless the raw node has one.
abbrev pub id_or : Option Value → Option Value → Option Value
id_or (some v) w = some v
id_or none w = w

abbrev pub hydrated : Text → Fields → Node
hydrated name fs =
    let kwargs = own_or_all fs (get_field fs (text "properties")) in
    let found = present (true_or (get_field fs (text "id")) (get_field fs (text "_id"))) in
    record {
      class_name = name;
      id = id_or found (present (get_field kwargs (text "_id")));
      kwargs = without (text "_id") kwargs;
    }

-- _hydrate_node; the registry is a list of the names of the entity classes
unfoldable pub hydrate_node : List Text → Text → Value → Option Node
hydrate_node registry label raw =
    if contains label registry then some (hydrated label (raw_fields raw)) else none
