-- ===== src/Sdk/Tests/Filters.antt =====
-- Filters at concrete inputs, as they are sent and as they are read from a source.
use kuzu_event_bus.Prelude.{true, none, some, [], ◌∷◌, ◌≡◌, refl}
use kuzu_event_bus.Dict
use kuzu_event_bus.Text.{text, strip, split_once, lower, lower_code, upper, text_key}
use kuzu_event_bus.Text.Parts.{replace}
use kuzu_event_bus.Text.Decimal.{decimal}
use kuzu_event_bus.Sdk.Entities.{declare}
use kuzu_event_bus.Sdk.Expr.{string, number, to_gql, greater, equal}
use kuzu_event_bus.Sdk.Lambdas.{evaluate, expr_attribute}
use kuzu_event_bus.Sdk.Translate.{lambda_to_gql}
use kuzu_event_bus.Sdk.Source.{
  condition_from_source, extract_property, until_close, operators, quotes, exists_for_relation,
  exists_where,
}
use kuzu_event_bus.Sdk.Mapping.{lambda_dict_mapping, items}
use kuzu_event_bus.Sdk.Builder.{query, where_matches}
use kuzu_event_bus.Sdk.Gql.{build_gql, joined as place, base_pattern}
use kuzu_event_bus.Sdk.Source.{base_var}
use kuzu_event_bus.Sdk.Expr.Reading.{expression, IsSendable, read, shape, depth_of}
use kuzu_event_bus.Sdk.Gql.Sent.{Filter, compares, joins, condition_of, body_of, where_matches-read}
use kuzu_event_bus.Text.Parts.{format}
use kuzu_event_bus.Sdk.Tests.{person, python, adults}

filter_by_age : lambda_to_gql python person (some (text "p")) adults ≡ text "p.age > 20"
unfolding lambda_to_gql evaluate to_gql expr_attribute decimal
filter_by_age = refl

adults_source : condition_from_source person (some (text "p")) adults.source ≡ text "p.age > 20"
unfolding condition_from_source replace split_once strip until_close operators quotes declare lower
adults_source = refl

order_source : extract_property (some (text "p")) adults.source ≡ text "p.age > 20"
unfolding extract_property replace split_once strip until_close operators quotes
order_source = refl

any_source :
    condition_from_source person
      (some (text "p"))
      (some (text "q.where(lambda x: x.lives_in.any(lambda c: c.name == \"Paris\") and x.age > 3)"))
    ≡ text
        "(EXISTS { MATCH (p)-[:LIVES_IN]->(c:City) WHERE c.name = 'Paris' RETURN p }) AND p.age > 3"
unfolding condition_from_source declare replace split_once strip until_close operators quotes
    exists_for_relation exists_where lower lower_code upper
any_source = refl

mapping_test : lambda_dict_mapping person (some (text "q.select(lambda p: {\"a\": p.x})")) ≡ []
unfolding lambda_dict_mapping replace split_once strip until_close operators quotes items Dict.put
mapping_test = refl

-- lambda x: (x.age > 20) & (x.city.name == "Paris")
abbrev filter : Filter
filter =
    joins (compares (text "age") [] greater (number 20)) true
      (compares (text "city") (text "name" ∷ []) equal (string (text "Paris")))

filter-IsSendable : IsSendable (condition_of (base_var person) filter)
unfolding to_gql declare lower lower_code
filter-IsSendable = (
  ((refl, (refl, (refl, (refl, (refl, tt))))), refl, refl, refl, tt),
  (
    (refl, (refl, (refl, (refl, (refl, (refl, (refl, (refl, (refl, (refl, (refl, tt))))))))))),
    refl,
    refl,
    refl,
    (refl, (refl, (refl, (refl, (refl, tt))))),
  ),
)

where_matches-read_example :
    (let meant = condition_of (base_var person) filter in
      let sent = to_gql (expression meant) in
      ((build_gql python (
          where_matches
            (record { name = text "x"; body = body_of filter; source = none })
            (query person))).0
        ≡ format (
            text "MATCH "
            ∷ base_pattern person
            ∷ text " WHERE "
            ∷ sent
            ∷ text " RETURN "
            ∷ base_var person
            ∷ []))
      × (read (depth_of meant) sent ≡ some (shape meant, [])))
where_matches-read_example =
    where_matches-read python person (text "x") none filter
      (
        ((refl, refl, refl, refl, refl, refl, refl), tt),
        (
          (refl, refl, refl, refl, refl, refl, refl),
          ((refl, refl, refl, refl, refl, refl, refl), tt),
        ),
      )
      filter-IsSendable

query_of_adults_in_paris :
    (build_gql python (
      where_matches
        (record { name = text "x"; body = body_of filter; source = none })
        (query person))).0
    ≡ text "MATCH (p:Person) WHERE (p.age > 20 AND p.city.name = 'Paris') RETURN p"
unfolding build_gql where_matches query declare place lower lower_code lambda_to_gql evaluate to_gql
    expr_attribute decimal
query_of_adults_in_paris = refl
