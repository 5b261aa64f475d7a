-- ===== src/Sdk/Expr/Reading.antt =====
-- A reader for the conditions that a lambda of comparisons joined by `&` and `|` is sent as;
-- RoundTrip has what it makes of their texts.
use kuzu_event_bus.Prelude.{
  ℕ, zero, suc, ◌+◌, Bool, true, false, ◌≡◌, [], ◌∷◌, Option, none, some, if◌then◌else◌, ◌==◌, ◌||◌,
  nat_key,
}
use kuzu_event_bus.Text.{Text, text, split_once, after_prefix, text_key}
use kuzu_event_bus.Text.Every.{Lacks}
use kuzu_event_bus.Sdk.Expr.{
  Expr, lit, bin, Literal, string, number, other, Op, op_text, equal, unequal, less, at_most,
  greater, at_least, and_op, or_op, is_logical, literal_text, to_gql,
}

-- A condition of a lambda: comparisons of a field, joined by `&` and `|`
pub data Condition : Type 0 where
  test : Expr → Op → Literal → Condition
  joined : Condition → Bool → Condition → Condition

abbrev pub logical : Bool → Op
logical true = and_op
logical false = or_op

abbrev pub expression : Condition → Expr
expression (test e o v) = bin e o (lit v)
expression (joined c b d) = bin (expression c) (logical b) (expression d)

-- What a reader sees of it: the field's text, and whether the value stood in quotes
pub data Operand : Type 0 where
  quoted : Text → Operand
  bare : Text → Operand

pub data Shape : Type 0 where
  compared : Text → Op → Operand → Shape
  combined : Shape → Bool → Shape → Shape

abbrev pub operand : Literal → Operand
operand (string s) = quoted s
operand v = bare (literal_text v)

abbrev pub shape : Condition → Shape
shape (test e o v) = compared (to_gql e) o (operand v)
shape (joined c b d) = combined (shape c) b (shape d)

abbrev pub space : Text
space = text " "

abbrev pub ends : ℕ → Bool
ends c = c == 32 || c == 41

-- The text up to a space or a closing parenthesis
abbrev pub bare_part : Text → Text × Text
bare_part [] = ([], [])
bare_part (c ∷ s) =
    let rest : Text × Text = (c ∷ (bare_part s).0, (bare_part s).1) in
    if ends c then ([], c ∷ s) else rest

abbrev pub read_value : Text → Option (Operand × Text)
read_value [] = none
read_value (c ∷ s) =
    let in_quotes : Option (Operand × Text) = elim (split_once (text "'") s) [
      | none ↦ none
      | some p ↦ some (quoted p.0, p.1)
    ] in
    let plain : Option (Operand × Text) =
      some (bare (bare_part (c ∷ s)).0, (bare_part (c ∷ s)).1) in
    if c == 39 then in_quotes else plain

abbrev pub read_op : Text → Option Op
read_op t =
    if t == text "="
    then some equal
    else if t == text "!="
    then some unequal
    else if t == text "<"
    then some less
    else if t == text "<="
    then some at_most
    else if t == text ">"
    then some greater
    else if t == text ">="
    then some at_least
    else none

abbrev pub with_value : Text → Op → Option (Operand × Text) → Option (Shape × Text)
with_value field o none = none
with_value field o (some (v, rest)) = some (compared field o v, rest)

abbrev pub with_op : Text → Option (Text × Text) → Option (Shape × Text)
with_op field none = none
with_op field (some (t, rest)) = elim (read_op t) [
  | none ↦ none
  | some o ↦ with_value field o (read_value rest)
]

abbrev pub read_test : Option (Text × Text) → Option (Shape × Text)
read_test none = none
read_test (some (field, rest)) = with_op field (split_once space rest)

abbrev pub closed : Shape → Bool → Option (Shape × Text) → Option (Shape × Text)
closed l b none = none
closed l b (some (r, rest)) = elim (after_prefix (text ")") rest) [
  | none ↦ none
  | some t ↦ some (combined l b r, t)
]

-- A condition and the text behind it, in parentheses to a depth of at most the fuel
unfoldable pub read : ℕ → Text → Option (Shape × Text)
read zero t = none
read (suc fuel) t = elim (after_prefix (text "(") t) [
  | none ↦ read_test (split_once space t)
  | some s ↦ elim (read fuel s) [
    | none ↦ none
    | some p ↦ elim (after_prefix (text " AND ") p.1) [
      | some r ↦ closed p.0 true (read fuel r)
      | none ↦ elim (after_prefix (text " OR ") p.1) [
        | some r ↦ closed p.0 false (read fuel r)
        | none ↦ none
      ]
    ]
  ]
]

abbrev pub depth_of : Condition → ℕ
depth_of (test e o v) = 1
depth_of (joined c b d) = depth_of c + depth_of d + 1

-- A field is written without a space and with no parenthesis in front.
abbrev pub first_is : (ℕ → Bool) → Text → Bool
first_is p [] = true
first_is p (c ∷ s) = p c

abbrev pub IsBare : Text → Type 0
IsBare s = Lacks 32 s × Lacks 41 s × (first_is (λ c. c == 39) s ≡ false)

-- A text in quotes has no quote; another value has no space, no parenthesis and no quote in front.
abbrev pub IsPlain : Literal → Type 0
IsPlain (string s) = Lacks 39 s
IsPlain (number n) = Unit
IsPlain (other s) = IsBare s

abbrev pub IsSendable : Condition → Type 0
IsSendable (test e o v) =
    Lacks 32 (to_gql e)
    × (first_is (λ c. c == b'(') (to_gql e) ≡ false)
    × (read_op (op_text o) ≡ some o)
    × (is_logical o ≡ false)
    × IsPlain v
IsSendable (joined c b d) = IsSendable c × IsSendable d
