-- ===== src/Catalog/Tests.antt =====
-- A concrete catalog.
use kuzu_event_bus.Prelude.{List, [], ◌∷◌, arith}
use kuzu_event_bus.Text.{text}
use kuzu_event_bus.Catalog.{Key, empty_catalog, Call, use_query, add, remove, run}
use kuzu_event_bus.Catalog.Bounds.{IsBounded, run-IsBounded}

abbrev first : Key
first = record { tenant_id = 1; database_id = 7; query_hash = 100 }

abbrev second : Key
second = record { tenant_id = 1; database_id = 7; query_hash = 200 }

empty-IsBounded : IsBounded empty_catalog.query_favorites
empty-IsBounded = record { ten = λ tenant database. omega arith; once = λ k. omega arith }

abbrev calls : List Call
calls =
    use_query first (text "RETURN 1") 1
    ∷ add first (text "RETURN 1") 2
    ∷ add first (text "RETURN 1") 3
    ∷ remove first (text "RETURN 1") 4
    ∷ add second (text "RETURN 2") 5
    ∷ []

run-IsBounded_example : IsBounded (run calls empty_catalog).query_favorites
run-IsBounded_example = run-IsBounded calls empty_catalog empty-IsBounded
