-- ===== src/Sdk/Instances.antt =====
-- Entities and their attributes: `NodeEntity.__init__`, `__setattr__` and `__getattribute__`, and the
-- cache of `RelationDescriptor` (casys_db/orm.py).
pub mod Attributes
use kuzu_event_bus.Prelude.{
  ℕ, Bool, true, false, Option, none, some, List, [], ◌∷◌, if◌then◌else◌, ◌==◌, ◌||◌, nat_key,
}
use kuzu_event_bus.Dict
use kuzu_event_bus.Dict.{Dict}
use kuzu_event_bus.Text.{Text, text, text_key, starts_with, is_some}
use kuzu_event_bus.Sdk.Entities.{EntityClass, Relation, find_relation}

-- An entity at its address, which Python's `id` returns. `attributes` are those that `object` keeps:
-- the names with an underscore in front, and `labels`.
pub record Instance {ℓ} (V : Type ℓ) : Type ℓ where
  pub entity_class : EntityClass
  pub address : ℕ
  pub attributes : Dict Text V
  pub properties : Dict Text V

-- The caches of the descriptors of one class: for each relation a dict by addresses.
abbrev pub Caches {ℓ} : Type ℓ → Type ℓ
Caches V = Dict Text (Dict ℕ V)

unfoldable pub is_private : Text → Bool
is_private name = starts_with (text "_") name || name == text "labels"

-- The names under which Python or the entity itself keeps what the others are looked up in. What
-- assigning to them does is not modelled.
unfoldable pub is_store : Text → Bool
is_store name =
    name == text "_properties"
    || name == text "_relations"
    || name == text "_cache"
    || starts_with (text "__") name

-- `name in self._relations`
unfoldable pub has_relation : EntityClass → Text → Bool
has_relation c name = is_some (find_relation name c.relations)

module _ {ℓ} {V : Type ℓ} where
  abbrev pub cache_of : Option (Dict ℕ V) → Dict ℕ V
  cache_of none = []
  cache_of (some d) = d

  -- RelationDescriptor.__set__
  unfoldable pub set_cached : Text → ℕ → V → Caches V → Caches V
  set_cached name address v caches =
      Dict.put caches name (Dict.put (cache_of (Dict.get caches name)) address v)

  abbrev pub cached : Text → ℕ → Caches V → Option V
  cached name address caches = Dict.get (cache_of (Dict.get caches name)) address

  abbrev pub or_fresh : Text → ℕ → V → Caches V → Option V → V × Caches V
  or_fresh name address empty caches (some v) = (v, caches)
  or_fresh name address empty caches none = (empty, set_cached name address empty caches)

  -- RelationDescriptor.__get__, with the empty list as an argument
  unfoldable pub get_cached : Text → ℕ → V → Caches V → V × Caches V
  unfolding set_cached
  get_cached name address empty caches =
      or_fresh name address empty caches (cached name address caches)

  abbrev pub is_relation : Instance V → Text → Bool
  is_relation e name = has_relation e.entity_class name

  -- __setattr__: `put_attribute` for a name that is not a store's, and nothing known for the others
  unfoldable pub put_attribute : Text → V → Instance V × Caches V → Instance V × Caches V
  put_attribute name v (e, caches) =
      if is_private name
      then (record e { attributes = Dict.put e.attributes name v }, caches)
      else if is_relation e name
      then (e, set_cached name e.address v caches)
      else (record e { properties = Dict.put e.properties name v }, caches)

  unfoldable pub set_attribute : Text → V → Instance V × Caches V → Option (Instance V × Caches V)
  unfolding put_attribute
  set_attribute name v s = if is_store name then none else some (put_attribute name v s)

  -- __getattribute__, for a name that is not a store's; `class_attribute` is what the class has under the name, if anything
  abbrev pub or_else : Option V → Option V → Option V
  or_else none w = w
  or_else (some v) w = some v

  abbrev pub as_found : V × Caches V → Option V × Caches V
  as_found (v, caches) = (some v, caches)

  unfoldable pub get_attribute :
      (Text → Option V) → V → Text → Instance V × Caches V → Option V × Caches V
  get_attribute class_attribute empty name (e, caches) =
      if is_private name
      then (or_else (Dict.get e.attributes name) (class_attribute name), caches)
      else if is_relation e name
      then as_found (get_cached name e.address empty caches)
      else (or_else (Dict.get e.properties name) (class_attribute name), caches)

  abbrev pub fill_one : Text → V → Instance V × Caches V → Option (Instance V × Caches V)
  fill_one name v (e, caches) =
      if is_relation e name
      then set_attribute name v (e, caches)
      else some (record e { properties = Dict.put e.properties name v }, caches)

  abbrev pub and_then :
      Option (Instance V × Caches V)
      → (Instance V × Caches V → Option (Instance V × Caches V))
      → Option (Instance V × Caches V)
  and_then none k = none
  and_then (some s) k = k s

  abbrev pub fill : Dict Text V → Instance V × Caches V → Option (Instance V × Caches V)
  fill [] s = some s
  fill ((name, v) ∷ kwargs) s = and_then (fill_one name v s) (fill kwargs)

  abbrev pub identity : Option V → V → V
  identity none nothing = nothing
  identity (some v) nothing = v

  -- NodeEntity(**kwargs) at an address; `_id` is `nothing` if it is not given
  unfoldable pub create :
      V → EntityClass → ℕ → Dict Text V → Caches V → Option (Instance V × Caches V)
  unfolding set_attribute
  create nothing c address kwargs caches =
      let id = identity (Dict.get kwargs (text "_id")) nothing in
      fill (Dict.remove kwargs (text "_id")) (
        record {
          entity_class = c;
          address = address;
          attributes = (text "_id", id) ∷ [];
          properties = [];
        },
        caches,
      )
