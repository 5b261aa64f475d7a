-- ===== src/Sdk/Expr.antt =====
-- The expressions that capture a lambda (`Expr`, `Var` and `_wrap` at the end of
-- casys_db/query.py) and their GQL text.
pub mod Ambiguity
pub mod Reading
pub mod RoundTrip
use kuzu_event_bus.Prelude.{ℕ, Bool, true, false, List, [], ◌∷◌, ◌++◌}
use kuzu_event_bus.Text.{Text, text}
use kuzu_event_bus.Text.Parts.{format, join}
use kuzu_event_bus.Text.Decimal.{decimal}

-- A value of Python that is no `Expr`; `other` is given by its `str`.
pub data Literal : Type 0 where
  string : Text → Literal
  number : ℕ → Literal
  other : Text → Literal

pub data Op : Type 0 where
  add sub mul div : Op
  equal unequal less at_most greater at_least : Op
  and_op or_op : Op

abbrev pub op_text : Op → Text
op_text add = text "+"
op_text sub = text "-"
op_text mul = text "*"
op_text div = text "/"
op_text equal = text "="
op_text unequal = text "!="
op_text less = text "<"
op_text at_most = text "<="
op_text greater = text ">"
op_text at_least = text ">="
op_text and_op = text "AND"
op_text or_op = text "OR"

abbrev pub is_logical : Op → Bool
is_logical and_op = true
is_logical or_op = true
is_logical _ = false

pub data Expr : Type 0 where
  var : Text → Expr
  attr : Expr → Text → Expr
  lit : Literal → Expr
  bin : Expr → Op → Expr → Expr

-- The chain of attributes down to the variable; another base leaves no part.
abbrev pub path : Expr → List Text
path (var x) = x ∷ []
path (attr e n) = path e ++ n ∷ []
path (lit v) = []
path (bin l o r) = []

abbrev pub literal_text : Literal → Text
literal_text (string s) = text "'" ++ (s ++ text "'")
literal_text (number n) = decimal n
literal_text (other s) = s

abbrev pub operation : Bool → Text → Op → Text → Text
operation true l o r = format (text "(" ∷ l ∷ text " " ∷ op_text o ∷ text " " ∷ r ∷ text ")" ∷ [])
operation false l o r = format (l ∷ text " " ∷ op_text o ∷ text " " ∷ r ∷ [])

-- to_gql
unfoldable pub to_gql : Expr → Text
to_gql (var x) = x
to_gql (attr e n) = join (text ".") (path (attr e n))
to_gql (lit v) = literal_text v
to_gql (bin l o r) = operation (is_logical o) (to_gql l) o (to_gql r)
