-- ===== src/Sdk/Lambdas.antt =====
-- How the query builder runs a lambda on a variable to capture its expression
-- (casys_db/query.py: `Expr`, and the first step of `_lambda_to_gql`), with Python's own rules for
-- the operators of its body.
use kuzu_event_bus.Prelude.{Bool, true, not, Option, none, some, if◌then◌else◌, ◌==◌}
use kuzu_event_bus.Text.{Text, text, text_key}
use kuzu_event_bus.Sdk.Expr.{
  Literal, string, other, Op, equal, unequal, less, at_most, greater, at_least, Expr, var, attr,
  lit, bin, op_text,
}

-- The body of a lambda of one parameter; `both`, `either` and `negated` are Python's `and`, `or` and
-- `not`, and `and_op` and `or_op` its `&` and `|`.
pub data Term : Type 0 where
  parameter : Term
  attribute : Term → Text → Term
  constant : Literal → Term
  operator : Term → Op → Term → Term
  both either : Term → Term → Term
  negated : Term → Term
  called : Term → Term

pub data Value : Type 0 where
  expr : Expr → Value
  plain : Literal → Value

-- What Python does with values that are no `Expr`; `none` is an exception. `inherited` is an attribute
-- that every object has, such as `__class__`; `pair` and `method` stand for the tuple that an `attr`
-- holds and for a bound method.
pub record Python : Type 0 where
  pub inherited : Text → Option Literal
  pub pair : Expr → Text → Literal
  pub method : Expr → Literal
  pub get : Literal → Text → Option Literal
  pub operate : Literal → Op → Literal → Option Literal
  pub truthy : Literal → Bool
  pub call : Literal → Option Literal
  pub boolean : Bool → Literal

abbrev pub none_value : Value
none_value = plain (other (text "None"))

-- The instance attributes `kind`, `value`, `left`, `op` and `right`.
abbrev pub kind_field : Expr → Value
kind_field (var x) = plain (string (text "var"))
kind_field (attr e n) = plain (string (text "attr"))
kind_field (lit v) = plain (string (text "lit"))
kind_field (bin l o r) = plain (string (text "bin"))

abbrev pub value_field : Python → Expr → Value
value_field py (var x) = plain (string x)
value_field py (attr e n) = plain (py.pair e n)
value_field py (lit v) = plain v
value_field py (bin l o r) = none_value

abbrev pub left_field : Expr → Value
left_field (bin l o r) = expr l
left_field e = none_value

abbrev pub right_field : Expr → Value
right_field (bin l o r) = expr r
right_field e = none_value

abbrev pub op_field : Expr → Value
op_field (bin l o r) = plain (string (op_text o))
op_field e = none_value

-- __getattr__, which is asked only for a name that the object does not have.
abbrev pub chained : Expr → Text → Option Value
chained (var x) n = some (expr (attr (var x) n))
chained (attr e m) n = some (expr (attr (attr e m) n))
chained (lit v) n = none
chained (bin l o r) n = none

abbrev pub found_or : Option Literal → Option Value → Option Value
found_or none v = v
found_or (some a) v = some (plain a)

-- e.n for an `Expr`
unfoldable pub expr_attribute : Python → Expr → Text → Option Value
expr_attribute py e n =
    if n == text "kind"
    then some (kind_field e)
    else if n == text "value"
    then some (value_field py e)
    else if n == text "left"
    then some (left_field e)
    else if n == text "op"
    then some (op_field e)
    else if n == text "right"
    then some (right_field e)
    else if n == text "to_gql"
    then some (plain (py.method e))
    else found_or (py.inherited n) (chained e n)

abbrev pub get_attribute : Python → Option Value → Text → Option Value
get_attribute py none n = none
get_attribute py (some (expr e)) n = expr_attribute py e n
get_attribute py (some (plain a)) n = found_or (py.get a n) none

-- _wrap
abbrev pub wrap : Value → Expr
wrap (expr e) = e
wrap (plain a) = lit a

-- The comparison that Python tries on the other operand; `+` and the like have none here.
abbrev pub reflected : Op → Option Op
reflected equal = some equal
reflected unequal = some unequal
reflected less = some greater
reflected at_most = some at_least
reflected greater = some less
reflected at_least = some at_most
reflected _ = none

abbrev pub swapped : Option Op → Expr → Literal → Option Value
swapped none e a = none
swapped (some o) e a = some (expr (bin e o (lit a)))

-- Of two expressions the left one's method is called, but `Var` is a subclass of `Expr`, and the
-- comparison of an object of a subclass goes first.
abbrev pub swapped_or : Option Op → Expr → Op → Expr → Expr
swapped_or none l o r = bin l o r
swapped_or (some p) l o r = bin r p l

abbrev pub combined : Expr → Op → Expr → Expr
combined (var x) o r = bin (var x) o r
combined l o (var x) = swapped_or (reflected o) l o (var x)
combined l o r = bin l o r

abbrev pub as_plain : Option Literal → Option Value
as_plain none = none
as_plain (some a) = some (plain a)

abbrev pub operate : Python → Option Value → Op → Option Value → Option Value
operate py none o v = none
operate py (some u) o none = none
operate py (some (expr l)) o (some (expr r)) = some (expr (combined l o r))
operate py (some (expr l)) o (some (plain a)) = some (expr (bin l o (wrap (plain a))))
operate py (some (plain a)) o (some (expr r)) = swapped (reflected o) r a
operate py (some (plain a)) o (some (plain b)) = as_plain (py.operate a o b)

-- `Expr` defines no `__bool__`: it counts as true.
abbrev pub truthy : Python → Value → Bool
truthy py (expr e) = true
truthy py (plain a) = py.truthy a

abbrev pub and_then : Python → Option Value → Option Value → Option Value
and_then py none v = none
and_then py (some u) v = if truthy py u then v else some u

abbrev pub or_else : Python → Option Value → Option Value → Option Value
or_else py none v = none
or_else py (some u) v = if truthy py u then some u else v

abbrev pub negate : Python → Option Value → Option Value
negate py none = none
negate py (some u) = some (plain (py.boolean (not (truthy py u))))

-- A call of an `Expr` is a TypeError.
abbrev pub call : Python → Option Value → Option Value
call py none = none
call py (some (expr e)) = none
call py (some (plain a)) = as_plain (py.call a)

-- lambda_func(Var(x))
unfoldable pub evaluate : Python → Text → Term → Option Value
evaluate py x parameter = some (expr (var x))
evaluate py x (attribute t n) = get_attribute py (evaluate py x t) n
evaluate py x (constant a) = some (plain a)
evaluate py x (operator l o r) = operate py (evaluate py x l) o (evaluate py x r)
evaluate py x (both l r) = and_then py (evaluate py x l) (evaluate py x r)
evaluate py x (either l r) = or_else py (evaluate py x l) (evaluate py x r)
evaluate py x (negated t) = negate py (evaluate py x t)
evaluate py x (called t) = call py (evaluate py x t)

-- isinstance(expr, Expr)
abbrev pub is_expr : Option Value → Option Expr
is_expr none = none
is_expr (some (expr e)) = some e
is_expr (some (plain a)) = none

-- A lambda: its parameter, its body, and what `inspect.getsource` returns, or that it raises.
pub record Lambda : Type 0 where
  pub name : Text
  pub body : Term
  pub source : Option Text

abbrev pub capture : Python → Text → Lambda → Option Expr
capture py x f = is_expr (evaluate py x f.body)
