-- ===== src/Sdk/Loading/Rows.antt =====
-- The rows of an answer as pairs of an edge and a node, and `with_relations` as a whole
-- (casys_db/orm.py).
use kuzu_event_bus.Prelude.{ℕ, Option, none, some, List, [], ◌∷◌, ◌++◌, if◌then◌else◌}
use kuzu_event_bus.Text.{Text, text, text_key}
use kuzu_event_bus.Sdk.Entities.{EntityClass, via}
use kuzu_event_bus.Sdk.Loading.{
  Value, null, string, array, object, Items, Fields, get_field, nth, Loaded, load_gql, index_from,
  edge_column, node_column, is_true, true_or, fields_of, Node, hydrate_node,
}

-- The index of the column with the edge's type, and what a row has at an index.
abbrev pub at_index : Items → Option ℕ → Option Value
at_index vs none = none
at_index vs (some i) = nth vs i

abbrev pub type_column : List Text → Option ℕ
type_column columns = index_from 0 (text "r.edge_type") columns

-- The edge, the node and the edge's type of a row; a row that is neither a list nor a dict is passed
-- over.
pub record Cells : Type 0 where
  pub edge : Option Value
  pub node : Option Value
  pub edge_type : Option Value

abbrev pub cells : List Text → Value → Option Cells
cells columns (array vs) = some (record {
  edge = nth vs (edge_column columns);
  node = nth vs (node_column columns);
  edge_type = at_index vs (type_column columns);
})
cells columns (object fs) = some (record {
  edge = get_field fs (text "r");
  node = get_field fs (text "t");
  edge_type = get_field fs (text "r.edge_type");
})
cells columns _ = none

-- The object for the edge: its class's name and its properties.
pub record Edge : Type 0 where
  pub type_name : Text
  pub props : Fields

-- type(name or "Rel", (), {}): another value than a text is a TypeError, `none`.
abbrev pub class_for : Value → Option Text
class_for (string []) = some (text "Rel")
class_for (string (c ∷ s)) = some (c ∷ s)
class_for v = if is_true v then none else some (text "Rel")

abbrev pub type_or : Text → Option Value → Value
type_or spec none = string spec
type_or spec (some v) = v

abbrev pub edge_class : Loaded → Option Value → Option Text
edge_class l v = elim l.relation_class [
  | some name ↦ some name
  | none ↦ class_for (type_or (via l.relation) v)
]

abbrev pub edge_props : Option Value → Fields
edge_props v =
    let fs = fields_of v in
    fields_of (true_or (get_field fs (text "properties")) (get_field fs (text "props")))

abbrev pub value_or_null : Option Value → Value
value_or_null none = null
value_or_null (some v) = v

abbrev pub pair_up : Edge → Option Node → List (Edge × Node)
pair_up e none = []
pair_up e (some n) = (e, n) ∷ []

abbrev pub of_cells : List Text → Loaded → Cells → Option Text → Option (List (Edge × Node))
of_cells registry l c none = none
of_cells registry l c (some name) = some (
    pair_up (record { type_name = name; props = edge_props c.edge })
      (hydrate_node registry l.relation.target (value_or_null c.node)))

abbrev pub of_row : List Text → Loaded → Option Cells → Option (List (Edge × Node))
of_row registry l none = some []
of_row registry l (some c) = of_cells registry l c (edge_class l c.edge_type)

abbrev pub both_lists :
    Option (List (Edge × Node)) → Option (List (Edge × Node)) → Option (List (Edge × Node))
both_lists none rest = none
both_lists (some xs) none = none
both_lists (some xs) (some ys) = some (xs ++ ys)

unfoldable pub of_rows : List Text → Loaded → List Text → List Value → Option (List (Edge × Node))
of_rows registry l columns [] = some []
of_rows registry l columns (row ∷ rows) =
    both_lists (of_row registry l (cells columns row)) (of_rows registry l columns rows)

-- The answer of the engine to a query with the base node's id.
pub record Answer : Type 0 where
  pub columns : List Text
  pub rows : List Value

abbrev pub load_each :
    List Text
    → (Text → Value → Answer)
    → EntityClass
    → Value
    → List Loaded
    → Option (List (Edge × Node))
load_each registry engine c id [] = some []
load_each registry engine c id (l ∷ ls) =
    let answer = engine (load_gql c l.relation) id in
    both_lists (of_rows registry l answer.columns answer.rows) (load_each registry engine c id ls)

-- with_relations, for an entity with a session
unfoldable pub with_relations :
    List Text
    → (Text → Value → Answer)
    → EntityClass
    → Option Value
    → List Loaded
    → Option (List (Edge × Node))
unfolding of_rows load_gql
with_relations registry engine c none ls = some []
with_relations registry engine c (some id) ls = load_each registry engine c id ls
