-- ===== src/Sdk/Session.antt =====
-- The session (casys_db/session.py): queries for entity classes, and saving an entity. What the branch
-- does with a new node is an argument.
pub mod Labels
use kuzu_event_bus.Prelude.{
  ℕ, Bool, true, false, Option, none, some, List, [], ◌∷◌, if◌then◌else◌, HashKey, ◌==◌,
}
use kuzu_event_bus.Dict
use kuzu_event_bus.Dict.{Dict}
use kuzu_event_bus.Text.{Text, text, text_key}
use kuzu_event_bus.Sdk.Entities.{EntityClass}
use kuzu_event_bus.Sdk.Instances.{Instance}
use kuzu_event_bus.Sdk.Builder.{QueryBuilder, query}

-- The entity classes by name, a later one in place of an earlier one of its name
abbrev pub Registry : Type 0
Registry = Dict Text EntityClass

-- EntityMeta.__new__, for any class but `NodeEntity`
unfoldable pub register : EntityClass → Registry → Registry
register c registry = if c.name == text "NodeEntity" then registry else Dict.put registry c.name c

abbrev pub query_of : Option EntityClass → Option QueryBuilder
query_of none = none
query_of (some c) = some (query c)

-- session.Person, for a name that the session itself does not have; `none` is an AttributeError
unfoldable pub query_named : Registry → Text → Option QueryBuilder
query_named registry name = query_of (Dict.get registry name)

-- A session keeps the entities that it has saved, by their ids.
abbrev pub Session : Type 0 → Type 0
Session V = Dict V (Instance V)

module _ {V : Type 0} ⦃key : HashKey V⦄ (is_none : V → Bool) where
  abbrev pub has_id : Option V → Bool
  has_id none = false
  has_id (some v) = if is_none v then false else true

  abbrev pub saved : V → Instance V → Instance V
  saved id e = record e { attributes = Dict.put e.attributes (text "_id") id }

  -- save, without the entity's reference to its session; `none` is the NotImplementedError for an entity that has an id
  unfoldable pub save :
      (List Text → Dict Text V → V) → Instance V → Session V → Option (V × Instance V × Session V)
  save add_node e s =
      let id = add_node e.entity_class.labels e.properties in
      let after = saved id e in
      if has_id (Dict.get e.attributes (text "_id"))
      then none
      else some (id, after, Dict.put s id after)
