-- ===== src/Sdk/Tests.antt =====
-- Lambdas, queries and relations at concrete inputs.
mod Filters
use kuzu_event_bus.Prelude.{
  ℕ, true, false, none, some, [], ◌∷◌, ◌++◌, ◌≡◌, refl, contains, if◌then◌else◌, ◌==◌,
}
use kuzu_event_bus.Dict
use kuzu_event_bus.Text.{text, strip, split_once, lower, lower_code, upper, text_key}
use kuzu_event_bus.Text.Parts.{replace}
use kuzu_event_bus.Text.Decimal.{decimal}
use kuzu_event_bus.Sdk.Entities.{
  EntityClass, declare, related, related_by, outgoing, undirected, label, itself,
}
use kuzu_event_bus.Sdk.Expr.{string, number, other, to_gql, greater, equal}
use kuzu_event_bus.Sdk.Lambdas.{
  Term, parameter, attribute, constant, operator, both, either, Python, Lambda, evaluate,
  expr_attribute,
}
use kuzu_event_bus.Sdk.Translate.{lambda_to_gql}
use kuzu_event_bus.Sdk.Source.{
  condition_from_source, extract_property, until_close, operators, quotes, exists_for_relation,
  exists_where,
}
use kuzu_event_bus.Sdk.Mapping.{lambda_dict_mapping, items}
use kuzu_event_bus.Sdk.Builder.{QueryBuilder, query, where_matches}
use kuzu_event_bus.Sdk.Gql.{
  build_gql, place_joins, fresh, joined as place, first_free, base_pattern, update_request,
  all_request, count_request,
}
use kuzu_event_bus.Sdk.Source.{base_var}
use kuzu_event_bus.Sdk.Expr.Reading.{expression, IsSendable, read, shape, depth_of}
use kuzu_event_bus.Sdk.Gql.Sent.{Filter, compares, joins, condition_of, body_of, where_matches-read}
use kuzu_event_bus.Text.Parts.{format}
use kuzu_event_bus.Sdk.Builder.{Join, select_dict}
use kuzu_event_bus.Sdk.Gql.Aliases.{place_joins-IsDistinct, IsDistinct, aliases, first_free_ends}
use kuzu_event_bus.Sdk.Gql.Filters.{build_gql_twice, update_request-all_request}
use kuzu_event_bus.Sdk.Gql.Projections.{build_gql-select_dict}
use kuzu_event_bus.Sdk.Translate.Dropped.{lambda_to_gql_drops}
use kuzu_event_bus.Sdk.Instances.{Instance, Caches, is_store, get_attribute, set_attribute}
use kuzu_event_bus.Sdk.Instances.Attributes.{get_attribute-set_attribute}

abbrev pub person : EntityClass
person = declare (text "Person") [] (
    (text "friends", related_by (text "KNOWS" ∷ []) undirected itself)
    ∷ (text "lives_in", related outgoing (label (text "City")))
    ∷ [])

-- A Python of which the lambdas below use nothing but expressions.
abbrev pub python : Python
python = record {
  inherited = λ n. none;
  pair = λ e n. other (text "a tuple");
  method = λ e. other (text "a method");
  get = λ a n. none;
  operate = λ a o b. none;
  truthy = λ a. true;
  call = λ a. none;
  boolean = λ b. other (text "a truth value");
}

abbrev pub age : Term
age = attribute parameter (text "age")

abbrev pub adults : Lambda
adults = record {
  name = text "x";
  body = operator age greater (constant (number 20));
  source = some (text "people = q.where(lambda x: x.age > 20).order_by(lambda p: p.name)");
}

abbrev of_paris : Term
of_paris =
    operator (attribute (attribute parameter (text "city")) (text "name")) equal
      (constant (string (text "Paris")))

-- Two joins by one alias
abbrev friends_of_friends : QueryBuilder
friends_of_friends =
    let j : Join = record {
      incoming = false;
      via = text "KNOWS";
      target = some (text "Person");
      alias = text "p";
      depth_min = none;
      depth_max = none;
      with_label = true;
    } in
    record (query person) { joins = j ∷ j ∷ [] }

place_joins-IsDistinct_example :
    IsDistinct (base_var person ∷ aliases (place_joins friends_of_friends).1)
unfolding query declare
place_joins-IsDistinct_example = place_joins-IsDistinct friends_of_friends

friends_text :
    (build_gql python friends_of_friends).0
    ≡ text "MATCH (p:Person)-[:KNOWS]->(p2:Person)-[:KNOWS]->(p3:Person) RETURN p"
unfolding build_gql query declare place fresh decimal lower lower_code
friends_text = refl

first_free_ends_example :
    (k : ℕ) × (first_free 3 (text "p" ∷ text "p2" ∷ []) (text "p") 2 ≡ some k)
    × (contains (text "p" ++ decimal k) (text "p" ∷ text "p2" ∷ []) ≡ false)
first_free_ends_example = first_free_ends (text "p" ∷ text "p2" ∷ []) (text "p") 2

build_gql_twice_example :
    build_gql python (build_gql python friends_of_friends).1 ≡ build_gql python friends_of_friends
build_gql_twice_example = build_gql_twice python friends_of_friends

-- A filter and a select
abbrev names_of_adults : QueryBuilder
names_of_adults = record (query person) {
  where_clause = some adults;
  with_items = (text "name", text "p.name") ∷ [];
  return_fields = some (text "name" ∷ []);
}

names_text :
    (build_gql python names_of_adults).0
    ≡ text "MATCH (p:Person) WITH p, p.name AS name WHERE x.age > 20 RETURN name"
unfolding build_gql query declare place fresh decimal lower lower_code lambda_to_gql evaluate to_gql
    expr_attribute
names_text = refl

update_request-all_request_example :
    (update_request python ((text "age", number 3) ∷ []) (all_request python names_of_adults).1
      ≡ update_request python
          ((text "age", number 3) ∷ [])
          (record names_of_adults { where_clause = none }))
    × (count_request python (all_request python names_of_adults).1
        ≡ count_request python (record names_of_adults { where_clause = none }))
update_request-all_request_example =
    update_request-all_request python ((text "age", number 3) ∷ []) names_of_adults (λ e. cc e)

lambda_to_gql_drops_example :
    (lambda_to_gql python person none (record adults { body = both adults.body of_paris })
      ≡ text "x.city.name = 'Paris'")
    × (lambda_to_gql python person none (record adults { body = either adults.body of_paris })
        ≡ text "x.age > 20")
unfolding evaluate expr_attribute to_gql decimal
lambda_to_gql_drops_example =
    lambda_to_gql_drops python person none adults adults.body of_paris refl refl

build_gql-select_dict_example :
    (build_gql python
      (select_dict (some (text "q.select(lambda p: {\"n\": p.name})")) (query person))).0
    ≡ (build_gql python (record (query person) { with_items = []; return_fields = none })).0
build_gql-select_dict_example =
    build_gql-select_dict python (some (text "q.select(lambda p: {\"n\": p.name})")) (query person)

abbrev ann : Instance ℕ
ann = record { entity_class = person; address = 77; attributes = []; properties = [] }

get_attribute-set_attribute_example :
    (s' : Instance ℕ × Caches ℕ) × (set_attribute (text "age") 31 (ann, []) ≡ some s')
    × ((get_attribute (λ n. none) 0 (text "age") s').0 ≡ (
        if text "age" == text "age"
        then some 31
        else (get_attribute (λ n. none) 0 (text "age") (ann, [])).0))
unfolding is_store
get_attribute-set_attribute_example =
    get_attribute-set_attribute (λ n. none) 0 (text "age") (text "age") 31 (ann, []) refl refl
