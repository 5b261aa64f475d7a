-- ===== src/Sdk/Builder/Joins.antt =====
-- The methods of a query builder that join relations (casys_db/query.py).
use kuzu_event_bus.Prelude.{
  ℕ, Bool, true, false, Option, none, some, List, [], ◌∷◌, ◌++◌, if◌then◌else◌, ◌==◌,
}
use kuzu_event_bus.Text.{Text, text, text_key}
use kuzu_event_bus.Sdk.Entities.{Relation, via, inverse, find_relation}
use kuzu_event_bus.Sdk.Source.{initial}
use kuzu_event_bus.Sdk.Translate.{extract_relation_name}
use kuzu_event_bus.Sdk.Builder.{QueryBuilder, unbounded, value_or}

-- The bounds of a join, of which there may be none; the outer `none` is the ValueError.
abbrev pub join_bounds : List ℕ → Option ℕ → Option ℕ → Option (Option ℕ × Option ℕ)
join_bounds args (some low) high = some (some low, some (value_or unbounded high))
join_bounds args none (some high) = some (some 1, some high)
join_bounds [] none none = some (none, none)
join_bounds (n ∷ []) none none = some (some n, some n)
join_bounds (n ∷ m ∷ []) none none = some (some n, some m)
join_bounds (n ∷ m ∷ k ∷ rest) none none = none

abbrev pub add_join :
    QueryBuilder
    → Bool
    → Text
    → Option Text
    → Text
    → Bool
    → Option (Option ℕ × Option ℕ)
    → Option QueryBuilder
add_join b incoming via target alias label none = none
add_join b incoming via target alias label (some (low, high)) = some (record b {
  joins =
      b.joins
      ++ record {
        incoming = incoming;
        via = via;
        target = target;
        alias = alias;
        depth_min = low;
        depth_max = high;
        with_label = label;
      }
        ∷ [];
})

unfoldable pub join_out :
    Text → Option Text → Text → List ℕ → Option ℕ → Option ℕ → QueryBuilder → Option QueryBuilder
join_out via target alias args low high b =
    add_join b false via target alias false (join_bounds args low high)

unfoldable pub join_in :
    Text → Option Text → Text → List ℕ → Option ℕ → Option ℕ → QueryBuilder → Option QueryBuilder
join_in via source alias args low high b =
    add_join b true via source alias false (join_bounds args low high)

-- The join along a declared relation: an unknown one, or one with no edge type, is a ValueError.
abbrev pub add_relation :
    QueryBuilder
    → Text
    → Bool
    → Option (Option ℕ × Option ℕ)
    → Option Relation
    → Option QueryBuilder
add_relation b alias label bounds none = none
add_relation b alias label bounds (some r) =
    if via r == [] then none else add_join b (inverse r) (via r) (some r.target) alias label bounds

unfoldable pub join_rel :
    Text → Text → List ℕ → Option ℕ → Option ℕ → QueryBuilder → Option QueryBuilder
join_rel name alias args low high b =
    add_relation b alias false (join_bounds args low high)
      (find_relation name b.entity_class.relations)

abbrev pub alias_or : Option Text → Text → Text
alias_or (some a) target = a
alias_or none [] = text "n"
alias_or none (c ∷ s) = initial (c ∷ s)

abbrev pub target_of : Option Relation → Text
target_of none = []
target_of (some r) = r.target

abbrev pub join_named :
    QueryBuilder
    → Option Text
    → Bool
    → Option (Option ℕ × Option ℕ)
    → Option Text
    → Option QueryBuilder
join_named b alias label bounds none = none
join_named b alias label bounds (some name) =
    let r = find_relation name b.entity_class.relations in
    add_relation b (alias_or alias (target_of r)) label bounds r

-- join, with the source of its selector
unfoldable pub join_on :
    Option Text
    → Option Text
    → List ℕ
    → Option ℕ
    → Option ℕ
    → Bool
    → QueryBuilder
    → Option QueryBuilder
join_on source alias args low high label b =
    join_named b alias label (join_bounds args low high) (extract_relation_name source)
