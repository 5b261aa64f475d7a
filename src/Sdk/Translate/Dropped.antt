-- ===== src/Sdk/Translate/Dropped.antt =====
-- What the translation of a lambda leaves out.
use kuzu_event_bus.Prelude.{◌≡◌, refl, ap, ◌++◌, Option, none, some}
use mathlib.Core.List.{append-nil}
use kuzu_event_bus.Text.{Text, text}
use kuzu_event_bus.Sdk.Entities.{EntityClass}
use kuzu_event_bus.Sdk.Expr.{Expr, Literal, Op, var, attr, to_gql}
use kuzu_event_bus.Sdk.Lambdas.{
  Term, parameter, attribute, constant, operator, both, either, expr, Python, Lambda, evaluate,
  expr_attribute, reflected,
}
use kuzu_event_bus.Sdk.Translate.{name_or, lambda_to_gql, lambda_to_expr, names_of}

-- Python's `and` of two conditions that are captured is the second one alone: the filter is the one of
-- the second condition, and the first is not in the query. With `or` it is the first alone.
pub lambda_to_gql_drops :
    (py : Python) (c : EntityClass) (x : Option Text) (f : Lambda) (p q : Term) {d e : Expr}
    → evaluate py (name_or x f.name) p ≡ some (expr d)
    → evaluate py (name_or x f.name) q ≡ some (expr e)
    → (lambda_to_gql py c x (record f { body = both p q }) ≡ to_gql e)
      × (lambda_to_gql py c x (record f { body = either p q }) ≡ to_gql d)
unfolding lambda_to_gql evaluate
lambda_to_gql_drops py c x f p q h k = (rw (h, k) refl, rw h refl)

-- An operation with a constant on its left that is no comparison, such as `2 * p.price`, raises in the
-- capture, and a lambda with one attribute then selects that attribute alone: the constant and the
-- operation are not in the query.
pub lambda_to_expr_drops :
    (py : Python) (alias n : Text) (f : Lambda) (a : Literal) (o : Op)
    → reflected o ≡ none
    → expr_attribute py (var f.name) n ≡ some (expr (attr (var f.name) n))
    → lambda_to_expr py alias (record f { body = operator (constant a) o (attribute parameter n) })
      ≡ to_gql (attr (var f.name) n)
unfolding lambda_to_expr evaluate to_gql names_of
lambda_to_expr_drops py alias n f a o h k =
    rw (k, h) (ap (λ s. f.name ++ (text "." ++ s)) (append-nil n))
