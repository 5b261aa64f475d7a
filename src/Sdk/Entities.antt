-- ===== src/Sdk/Entities.antt =====
-- Entity classes and their relations: `RelationDescriptor`, the constructors of relations, and
-- `EntityMeta` of casys_db/orm.py.
use kuzu_event_bus.Prelude.{
  ℕ, Bool, true, false, Option, none, some, List, [], ◌∷◌, ◌++◌, ◌==◌, if◌then◌else◌, map, nat_key,
  ◌&&◌,
}
use kuzu_event_bus.Dict.{Dict}
use kuzu_event_bus.Text.{Text, text, text_key, upper}
use kuzu_event_bus.Text.Parts.{format, join}
use kuzu_event_bus.Text.Decimal.{decimal}

pub data Direction : Type 0 where
  outgoing incoming undirected : Direction

-- What a relation is declared to lead to: a label, the declaring class itself (`None` or `'Self'`), or
-- an entity class, given by its label.
pub data Target : Type 0 where
  label : Text → Target
  itself : Target
  entity : Text → Target

-- A descriptor as it is written in a class body.
pub record Declaration : Type 0 where
  pub edge_types : Option (List Text)
  pub target : Target
  pub direction : Direction
  pub depth_min : Option ℕ
  pub depth_max : Option ℕ

-- to, from_ and both
abbrev pub related : Direction → Target → Declaration
related d t = record {
  edge_types = none;
  target = t;
  direction = d;
  depth_min = some 1;
  depth_max = some 1;
}

-- AnyOf(…).to and its like, and with one type Relation.to
abbrev pub related_by : List Text → Direction → Target → Declaration
related_by types d t = record (related d t) { edge_types = some types }

abbrev pub depth : ℕ → Option ℕ → Declaration → Declaration
depth low none r = record r { depth_min = some low; depth_max = some low }
depth low (some high) r = record r { depth_min = some low; depth_max = some high }

-- A descriptor that the metaclass has named, with the label of its target.
pub record Relation : Type 0 where
  pub name : Text
  pub edge_types : Option (List Text)
  pub target : Text
  pub direction : Direction
  pub depth_min : Option ℕ
  pub depth_max : Option ℕ

abbrev pub target_label : Text → Target → Text
target_label owner (label s) = if s == text "Self" then owner else s
target_label owner itself = owner
target_label owner (entity s) = s

-- EntityMeta.__new__, for one attribute of the class `owner`
abbrev pub registered : Text → Text × Declaration → Relation
registered owner (key, d) = record {
  name = key;
  edge_types = d.edge_types;
  target = target_label owner d.target;
  direction = d.direction;
  depth_min = d.depth_min;
  depth_max = d.depth_max;
}

pub record EntityClass : Type 0 where
  pub name : Text
  pub labels : List Text
  pub relations : List Relation

unfoldable pub declare : Text → List Text → Dict Text Declaration → EntityClass
declare name labels attrs = record {
  name = name;
  labels = labels;
  relations = map (registered name) attrs;
}

abbrev pub first_or : List Text → Text → Text
first_or [] s = s
first_or (l ∷ ls) s = l

-- _get_label
abbrev pub get_label : EntityClass → Text
get_label c = first_or c.labels c.name

-- via
abbrev pub edge_spec : Option (List Text) → Text → Text
edge_spec none name = upper name
edge_spec (some []) name = upper name
edge_spec (some (t ∷ ts)) name = join (text "|") (t ∷ ts)

abbrev pub via : Relation → Text
via r = edge_spec r.edge_types r.name

-- inverse
abbrev pub is_incoming : Direction → Bool
is_incoming outgoing = false
is_incoming incoming = true
is_incoming undirected = false

abbrev pub inverse : Relation → Bool
inverse r = is_incoming r.direction

-- self._relations.get(name)
unfoldable pub find_relation : Text → List Relation → Option Relation
find_relation n [] = none
find_relation n (r ∷ rs) = let rest = find_relation n rs in if r.name == n then some r else rest

-- *n or *n..m
abbrev pub hops : ℕ → ℕ → Text
hops low high =
    if low == high
    then text "*" ++ decimal low
    else format (text "*" ∷ decimal low ∷ text ".." ∷ decimal high ∷ [])

-- The hops of a relation, of which exactly one is not written.
abbrev pub relation_hops : Option ℕ → Option ℕ → Text
relation_hops none high = []
relation_hops (some low) none = []
relation_hops (some low) (some high) = if low == 1 && high == 1 then [] else hops low high

-- :Label, or nothing
abbrev pub label_suffix : Text → Text
label_suffix [] = []
label_suffix (c ∷ s) = text ":" ++ (c ∷ s)
