-- ===== src/Sdk/Gql/Filters.antt =====
-- What becomes of filters: which of them a query holds, and what building one leaves behind.
use kuzu_event_bus.Prelude.{Bool, ◌≡◌, ◌≢◌, refl, ap, List, [], ◌∷◌, Option, none, some, ℕ}
use kuzu_event_bus.Dict.{Dict}
use kuzu_event_bus.Text.{Text}
use kuzu_event_bus.Sdk.Expr.{Literal}
use kuzu_event_bus.Sdk.Lambdas.{Python, Lambda}
use kuzu_event_bus.Sdk.Source.{base_var}
use kuzu_event_bus.Sdk.Gql.Aliases.{joined_twice}
use kuzu_event_bus.Sdk.Builder.{Join, QueryBuilder, where_matches, where_exists_edge}
use kuzu_event_bus.Sdk.Gql.{
  build_gql, settled, update_request, count_request, all_request, place_joins, base_pattern,
  written,
}

second_filter :
    (py : Python) (f g : Lambda) (b : QueryBuilder) (items : List (Text × Text)) (w : Option Lambda)
    → items ≢ []
    → w ≡ some f
    → build_gql py (where_matches g (record b { with_items = items; where_clause = w }))
      ≡ build_gql py (record b { with_items = items; where_clause = w })
unfolding build_gql where_matches
second_filter py f g b [] w ne h = absurd (ne refl)
second_filter py f g b (i ∷ items) none ne h = cc
second_filter py f g b (i ∷ items) (some w) ne h = refl

-- With a filter from before a select, a filter that is added after it is not in the query: the query,
-- and the builder that it leaves, are the same without it.
pub build_gql-where_matches :
    (py : Python) (f g : Lambda) (b : QueryBuilder)
    → b.with_items ≢ []
    → b.where_clause ≡ some f
    → build_gql py (where_matches g b) ≡ build_gql py b
build_gql-where_matches py f g b = second_filter py f g b b.with_items b.where_clause

-- Conditions on edges restrict no update and no count: both requests are those without them.
pub update_request-where_exists_edge :
    (py : Python) (fields : Dict Text Literal) (rel : Text) (to : Option Text) (low high : Option ℕ)
    (incoming : Bool) (b : QueryBuilder)
    → (update_request py fields (where_exists_edge rel to low high incoming b)
        ≡ update_request py fields b)
      × (count_request py (where_exists_edge rel to low high incoming b) ≡ count_request py b)
unfolding update_request where_exists_edge count_request
update_request-where_exists_edge py [] rel to low high incoming b = (refl, refl)
update_request-where_exists_edge py (f ∷ fs) rel to low high incoming b = (refl, refl)

moved_filter :
    (py : Python) (fields : Dict Text Literal) (b : QueryBuilder) (items : List (Text × Text))
    (w : Option Lambda)
    → items ≢ []
    → (update_request py fields
          (all_request py (record b { with_items = items; where_clause = w })).1
        ≡ update_request py fields (record b { where_clause = none }))
      × (count_request py (all_request py (record b { with_items = items; where_clause = w })).1
          ≡ count_request py (record b { where_clause = none }))
unfolding update_request all_request count_request
moved_filter py fields b [] w ne = absurd (ne refl)
moved_filter py [] b (i ∷ items) none ne = (refl, refl)
moved_filter py [] b (i ∷ items) (some w) ne = (refl, refl)
moved_filter py (f ∷ fs) b (i ∷ items) none ne = (refl, refl)
moved_filter py (f ∷ fs) b (i ∷ items) (some w) ne = (refl, refl)

-- After a query with a select has been run, an update or a count with the same builder has no filter:
-- it is the one of the builder with its filter taken away, for all nodes of the label.
pub update_request-all_request :
    (py : Python) (fields : Dict Text Literal) (b : QueryBuilder)
    → b.with_items ≢ []
    → (update_request py fields (all_request py b).1
        ≡ update_request py fields (record b { where_clause = none }))
      × (count_request py (all_request py b).1
          ≡ count_request py (record b { where_clause = none }))
update_request-all_request py fields b = moved_filter py fields b b.with_items b.where_clause

settled_cases :
    (b : QueryBuilder) (items : List (Text × Text)) (w : Option Lambda)
    → (let c = record b { with_items = items; where_clause = w } in
        (settled (settled c) ≡ settled c)
        × (place_joins (settled c) ≡ place_joins c)
        × ((settled c).entity_class ≡ b.entity_class))
unfolding settled
settled_cases b [] w =
    let again = joined_twice b.joins (base_var b.entity_class ∷ []) (base_pattern b.entity_class) in
    (
      ap (λ (r : Text × List Join). record b { with_items = []; where_clause = w; joins = r.1 })
          again,
      again,
      refl,
    )
settled_cases b (i ∷ items) none =
    let again = joined_twice b.joins (base_var b.entity_class ∷ []) (base_pattern b.entity_class) in
    (
      ap
          (λ (r : Text × List Join). record b {
            with_items = i ∷ items;
            where_clause = none;
            joins = r.1;
          })
          again,
      again,
      refl,
    )
settled_cases b (i ∷ items) (some f) =
    let again = joined_twice b.joins (base_var b.entity_class ∷ []) (base_pattern b.entity_class) in
    (
      ap
          (λ (r : Text × List Join). record b {
            with_items = i ∷ items;
            where_clause = none;
            where_post_with = some f;
            joins = r.1;
          })
          again,
      again,
      refl,
    )

-- A builder can be run again: the query that it then gives, and the builder that this leaves, are
-- those of the first time, although the first time has renamed aliases and moved a filter.
pub build_gql_twice :
    (py : Python) (b : QueryBuilder) → build_gql py (build_gql py b).1 ≡ build_gql py b
unfolding build_gql
build_gql_twice py b =
    let same = settled_cases b b.with_items b.where_clause in
    λ i. (written py (base_var (same.2 i)) (same.0 i) (same.1 i).0, same.0 i)
