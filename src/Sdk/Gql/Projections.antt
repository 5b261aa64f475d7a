-- ===== src/Sdk/Gql/Projections.antt =====
-- Calls of a builder that leave the text of its query as it was.
use kuzu_event_bus.Prelude.{
  ℕ, ◌≡◌, refl, List, [], ◌∷◌, ◌++◌, arith, Option, none, some, ltb, Bool-cases, inl, inr, subst,
}
use kuzu_event_bus.Text.{Text}
use kuzu_event_bus.Sdk.Lambdas.{Python, Lambda}
use kuzu_event_bus.Sdk.Builder.{QueryBuilder, depth, depth_bounds, with_depth, include, select_dict}
use kuzu_event_bus.Sdk.Mapping.Empty.{lambda_dict_mapping_empty}
use kuzu_event_bus.Sdk.Gql.{build_gql}

-- A select with a lambda that returns a dict selects nothing: the query is the one of the builder with
-- no select at all, and returns the nodes.
pub build_gql-select_dict :
    (py : Python) (source : Option Text) (b : QueryBuilder)
    → (build_gql py (select_dict source b)).0
      ≡ (build_gql py (record b { with_items = []; return_fields = none })).0
unfolding build_gql select_dict
build_gql-select_dict py source b = rw (lambda_dict_mapping_empty b.entity_class source) refl

same_text :
    (py : Python) (b : QueryBuilder) (low high : ℕ) (names : List Text) (items : List (Text × Text))
    (w : Option Lambda)
    → (let c = record b { with_items = items; where_clause = w } in
        (build_gql py (record c { depth_min = low; depth_max = high; include_relations = names })).0
        ≡ (build_gql py c).0)
unfolding build_gql
same_text py b low high names [] w = refl
same_text py b low high names (i ∷ items) none = refl
same_text py b low high names (i ∷ items) (some f) = refl

same_text_at_depth :
    (py : Python) (b c : QueryBuilder) (names : List Text) (bounds : Option (ℕ × ℕ))
    → with_depth (record b { include_relations = names }) bounds ≡ some c
    → (build_gql py c).0 ≡ (build_gql py b).0
same_text_at_depth py b c names none h = cc
same_text_at_depth py b c names (some (low, high)) h = elim (Bool-cases (ltb high low)) [
  | inl bad ↦ ground arith
  | inr good ↦
      let same : record b { include_relations = names; depth_min = low; depth_max = high } ≡ c =
        ground arith in
      subst (λ d. (build_gql py d).0 ≡ (build_gql py b).0) same
        (same_text py b low high names b.with_items b.where_clause)
]

-- The depth of a traversal and the relations to include are accepted and never used: whatever they are
-- set to, the query's text stays the same.
pub build_gql-depth :
    (py : Python) (names : List Text) (args : List ℕ) (low high : Option ℕ) (b c : QueryBuilder)
    → depth args low high (include names b) ≡ some c
    → (build_gql py c).0 ≡ (build_gql py b).0
unfolding depth include
build_gql-depth py names args low high b c =
    same_text_at_depth py b c (b.include_relations ++ names) (depth_bounds args low high)
