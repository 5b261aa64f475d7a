-- ===== src/Sdk/Session/Labels.antt =====
-- Whether a query finds the entities that a session saves.
use kuzu_event_bus.Prelude.{
  Bool, true, false, ◌≡◌, ◌≢◌, refl, some, List, [], ◌∷◌, contains, HashKey, ◌↔◌, arith,
}
use kuzu_event_bus.Dict
use kuzu_event_bus.Dict.{Dict}
use kuzu_event_bus.Text.{Text, text, text_key, same_text_iff}
use kuzu_event_bus.Sdk.Entities.{get_label, first_or}
use kuzu_event_bus.Sdk.Instances.{Instance}
use kuzu_event_bus.Sdk.Session.{Session, save, has_id, saved}

labelled : (name : Text) (ls : List Text) → (contains (first_or ls name) ls ≡ true) ↔ (ls ≢ [])
labelled name [] = (λ h. cc, λ ne. absurd (ne refl))
labelled name (l ∷ ls) = (λ h e. cc, λ ne. ground (arith, same_text_iff l l))

module _ {V : Type 0} ⦃key : HashKey V⦄ (is_none : V → Bool) where
  -- Saving an entity that has no id yet creates a node, and the node has the label that queries for its
  -- class ask for exactly if the class declares labels: one that relies on its name is saved without
  -- any label, and no query for the class finds it.
  pub save_labelled :
      (add_node : List Text → Dict Text V → V) (e : Instance V) (s : Session V)
      → has_id is_none (Dict.get e.attributes (text "_id")) ≡ false
      → (let labels = e.entity_class.labels in
          let id = add_node labels e.properties in
          (save is_none add_node e s
            ≡ some (id, saved is_none id e, Dict.put s id (saved is_none id e)))
          × ((contains (get_label e.entity_class) labels ≡ true) ↔ (labels ≢ [])))
  unfolding save
  save_labelled add_node e s h = (rw h refl, labelled e.entity_class.name e.entity_class.labels)
