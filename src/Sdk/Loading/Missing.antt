-- ===== src/Sdk/Loading/Missing.antt =====
-- Nodes that are not loaded, and nodes from which nothing is loaded.
use kuzu_event_bus.Prelude.{
  ◌≡◌, refl, none, some, List, [], contains, Bool-cases, subst, inl, inr, arith,
}
use kuzu_event_bus.Text.{Text, text, text_key}
use kuzu_event_bus.Sdk.Entities.{EntityClass}
use kuzu_event_bus.Sdk.Loading.{
  Value, number, object, Fields, field, end, get_field, Node, Loaded, hydrated, hydrate_node,
}
use kuzu_event_bus.Sdk.Loading.Rows.{Answer, with_relations}

-- What the engine answers for a node with the number 0
abbrev raw : Fields → Fields
raw props = field (text "id") (number 0) (field (text "properties") (object props) end)

-- A raw node that the engine numbers 0 is hydrated without an id, unless an `_id` is there, and nothing
-- is ever loaded from it, whatever relations are asked for and whatever the engine holds.
pub with_relations_zero :
    (registry : List Text) (engine : Text → Value → Answer) (c : EntityClass) (label : Text)
    (props : Fields) (ls : List Loaded) (n : Node)
    → get_field props (text "_id") ≡ none
    → hydrate_node registry label (object (raw props)) ≡ some n
    → with_relations registry engine c n.id ls ≡ some []
unfolding hydrate_node with_relations
with_relations_zero registry engine c label props ls n h k =
    let zero_id : (hydrated label (raw props)).id ≡ none = rw h refl in
    elim (Bool-cases (contains label registry)) [
      | inl known ↦
          let same : hydrated label (raw props) ≡ n = ground arith in
          subst (λ m. with_relations registry engine c m.id ls ≡ some []) same (rw zero_id refl)
      | inr unknown ↦ ground arith
    ]
