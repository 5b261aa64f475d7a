-- ===== src/Sdk/Gql/Sent.antt =====
-- From a filter's lambda to the text that is sent.
use kuzu_event_bus.Prelude.{
  ℕ, zero, suc, Bool, false, ◌≡◌, refl, ap, List, [], ◌∷◌, Option, none, some, All, ◌==◌,
}
use kuzu_event_bus.Text.{Text, text, text_key, split_once}
use kuzu_event_bus.Text.Parts.{format}
use kuzu_event_bus.Sdk.Entities.{EntityClass}
use kuzu_event_bus.Sdk.Expr.{Expr, var, attr, bin, Op, Literal, to_gql}
use kuzu_event_bus.Sdk.Expr.Reading.{
  Condition, test, joined, expression, logical, read, shape, Shape, depth_of, IsSendable,
}
use kuzu_event_bus.Sdk.Expr.RoundTrip.{read-to_gql}
use kuzu_event_bus.Sdk.Lambdas.{
  Term, parameter, attribute, constant, operator, expr, Python, evaluate, expr_attribute, combined,
}
use kuzu_event_bus.Sdk.Source.{base_var}
use kuzu_event_bus.Sdk.Translate.{lambda_to_gql}
use kuzu_event_bus.Sdk.Builder.{query, where_matches}
use kuzu_event_bus.Sdk.Gql.{build_gql, base_pattern, non_empty, joined as place}

-- A filter as it is written: comparisons of a property, or of a property of a property, with a value,
-- joined by `&` and `|`
pub data Filter : Type 0 where
  compares : Text → List Text → Op → Literal → Filter
  joins : Filter → Bool → Filter → Filter

abbrev chain : Term → List Text → Term
chain t [] = t
chain t (n ∷ ns) = chain (attribute t n) ns

abbrev pub body_of : Filter → Term
body_of (compares n ns o v) = operator (chain (attribute parameter n) ns) o (constant v)
body_of (joins f b g) = operator (body_of f) (logical b) (body_of g)

abbrev attrs : Expr → List Text → Expr
attrs e [] = e
attrs e (n ∷ ns) = attrs (attr e n) ns

-- The condition that is meant, on a variable
abbrev pub condition_of : Text → Filter → Condition
condition_of x (compares n ns o v) = test (attrs (attr (var x) n) ns) o v
condition_of x (joins f b g) = joined (condition_of x f) b (condition_of x g)

-- A property's name is none that the expression itself has.
abbrev pub IsProperty : Python → Text → Type 0
IsProperty py n =
    ((n == text "kind") ≡ false)
    × ((n == text "value") ≡ false)
    × ((n == text "left") ≡ false)
    × ((n == text "op") ≡ false)
    × ((n == text "right") ≡ false)
    × ((n == text "to_gql") ≡ false)
    × (py.inherited n ≡ none)

abbrev pub HasProperties : Python → Filter → Type 0
HasProperties py (compares n ns o v) = IsProperty py n × All (IsProperty py) ns
HasProperties py (joins f b g) = HasProperties py f × HasProperties py g

expr_attribute-attr :
    (py : Python) (e : Expr) (m n : Text)
    → IsProperty py n
    → expr_attribute py (attr e m) n ≡ some (expr (attr (attr e m) n))
unfolding expr_attribute
expr_attribute-attr py e m n (a, b, c, d, f, g, h) = rw (a, b, c, d, f, g, h) refl

expr_attribute-var :
    (py : Python) (x n : Text)
    → IsProperty py n
    → expr_attribute py (var x) n ≡ some (expr (attr (var x) n))
unfolding expr_attribute
expr_attribute-var py x n (a, b, c, d, f, g, h) = rw (a, b, c, d, f, g, h) refl

module _ (py : Python) (x : Text) where
  evaluate-chain :
      (t : Term) (e : Expr) (m : Text) (ns : List Text)
      → All (IsProperty py) ns
      → evaluate py x t ≡ some (expr (attr e m))
      → evaluate py x (chain t ns) ≡ some (expr (attrs (attr e m) ns))
  unfolding evaluate
  evaluate-chain t e m [] p h = h
  evaluate-chain t e m (n ∷ ns) p h =
      evaluate-chain (attribute t n) (attr e m) n ns p.1 (rw h (expr_attribute-attr py e m n p.0))

combined-expression :
    (c d : Condition) (o : Op)
    → combined (expression c) o (expression d) ≡ bin (expression c) o (expression d)
combined-expression (test a b v) (test a' b' v') o = refl
combined-expression (test a b v) (joined c b' d) o = refl
combined-expression (joined c b d) (test a b' v) o = refl
combined-expression (joined c b d) (joined c' b' d') o = refl

evaluate-body_of :
    (py : Python) (x : Text) (f : Filter)
    → HasProperties py f
    → evaluate py x (body_of f) ≡ some (expr (expression (condition_of x f)))
unfolding evaluate
evaluate-body_of py x (compares n ns o v) p =
    rw
      (evaluate-chain py x (attribute parameter n) (var x) n ns p.1 (expr_attribute-var py x n p.0))
      refl
evaluate-body_of py x (joins f b g) p = rw (evaluate-body_of py x f p.0) (
    rw (evaluate-body_of py x g p.1) (
      ap (λ (e : Expr). some (expr e))
        (combined-expression (condition_of x f) (condition_of x g) (logical b))))

-- A text that can be read is not empty.
non_empty-read :
    (fuel : ℕ) (t : Text) {r : Shape × Text} → read fuel t ≡ some r → non_empty t ≡ t ∷ []
unfolding read
non_empty-read zero t h = cc
non_empty-read (suc fuel) [] h = unfold split_once in cc
non_empty-read (suc fuel) (c ∷ t) h = refl

lambda_to_gql-body_of :
    (py : Python) (c : EntityClass) (x name : Text) (source : Option Text) (f : Filter)
    → HasProperties py f
    → lambda_to_gql py c (some x) (record { name = name; body = body_of f; source = source })
      ≡ to_gql (expression (condition_of x f))
unfolding lambda_to_gql
lambda_to_gql-body_of py c x name source f p = rw (evaluate-body_of py x f p) refl

-- A filter of comparisons joined by `&` and `|`, under two conditions: no property has a name that an
-- expression object has itself (kind, value, left, op, right, to_gql or an inherited one), and what is
-- written can be told apart again (field names without spaces, comparison operators, no quote inside a
-- text, no space, parenthesis or leading quote in another value). Then the query for it matches the
-- nodes of the class under a condition that reads back as the filter's comparisons in their grouping,
-- and returns them, whatever the lambda's parameter is called, and also if its source is not at hand.
pub where_matches-read :
    (py : Python) (c : EntityClass) (name : Text) (source : Option Text) (f : Filter)
    → HasProperties py f
    → IsSendable (condition_of (base_var c) f)
    → (let meant = condition_of (base_var c) f in
        let sent = to_gql (expression meant) in
        ((build_gql py
            (where_matches (record { name = name; body = body_of f; source = source }) (query c))).0
          ≡ format (
              text "MATCH "
              ∷ base_pattern c
              ∷ text " WHERE "
              ∷ sent
              ∷ text " RETURN "
              ∷ base_var c
              ∷ []))
        × (read (depth_of meant) sent ≡ some (shape meant, [])))
unfolding build_gql where_matches query place
where_matches-read py c name source f p s =
    let meant = condition_of (base_var c) f in
    let back = read-to_gql meant s in
    (
      rw (lambda_to_gql-body_of py c (base_var c) name source f p)
          (rw (non_empty-read (depth_of meant) (to_gql (expression meant)) back) refl),
      back,
    )
