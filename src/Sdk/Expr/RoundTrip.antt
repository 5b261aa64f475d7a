-- ===== src/Sdk/Expr/RoundTrip.antt =====
-- Reading a condition's text gives the condition back.
use kuzu_event_bus.Prelude.{
  ℕ, zero, suc, ◌≤◌, ◌<◌, true, false, ◌≡◌, refl, sym, ap, ◌∙◌, [], ◌∷◌, ◌++◌, arith, none, some,
  ◌==◌, nat_key,
}
use mathlib.Core.List.{append_assoc, append-nil}
use kuzu_event_bus.Text.{Text, text, split_once, after_prefix, text_key}
use kuzu_event_bus.Text.Decimal.{decimal, IsDigits, decimal-IsDigits}
use kuzu_event_bus.Text.Every.{Lacks, split_once-Lacks}
use kuzu_event_bus.Text.Occurrence.{split_once-append}
use kuzu_event_bus.Sdk.Expr.{
  Expr, Literal, string, number, other, Op, add, sub, mul, div, equal, unequal, less, at_most,
  greater, at_least, and_op, or_op, op_text, operation, literal_text, to_gql,
}
use kuzu_event_bus.Sdk.Expr.Reading.{
  Condition, test, joined, expression, bare, compared, operand, shape, space, ends, bare_part,
  read_value, read_op, with_value, with_op, read_test, read, depth_of, first_is, IsBare, IsPlain,
  IsSendable,
}

-- What may stand behind a value: nothing, or a space or a closing parenthesis
abbrev IsDelimited : Text → Type 0
IsDelimited [] = Unit
IsDelimited (c ∷ s) = ends c ≡ true

up_to : (c : ℕ) (x r : Text) → Lacks c x → split_once (c ∷ []) (x ++ c ∷ r) ≡ some (x, r)
up_to c x r h = split_once-append c [] x r tt (split_once-Lacks c x h)

bare_part-append :
    (w r : Text) → Lacks 32 w → Lacks 41 w → IsDelimited r → bare_part (w ++ r) ≡ (w, r)
bare_part-append [] [] h k d = refl
bare_part-append [] (c ∷ r) h k d = rw d refl
bare_part-append (c ∷ w) r h k d =
    let e : ends c ≡ false = ground (arith, h.0, k.0) in
    rw e (ap (λ (p : Text × Text). (c ∷ p.0, p.1)) (bare_part-append w r h.1 k.1 d))

read_value-bare : (w r : Text) → IsBare w → IsDelimited r → read_value (w ++ r) ≡ some (bare w, r)
read_value-bare [] r h d = cc (h.2)
read_value-bare (c ∷ w) r h d =
    rw h.2 (ap (λ (p : Text × Text). some (bare p.0, p.1)) (bare_part-append (c ∷ w) r h.0 h.1 d))

IsDigits-Lacks : (c : ℕ) (s : Text) → c < 48 → IsDigits s → Lacks c s
IsDigits-Lacks c [] h d = tt
IsDigits-Lacks c (e ∷ []) h d = (ground arith, tt)
IsDigits-Lacks c (e ∷ f ∷ s) h d = (ground (arith, d.0), IsDigits-Lacks c (f ∷ s) h d.1)

IsDigits-first : (s : Text) → IsDigits s → first_is (λ c. c == 39) s ≡ false
IsDigits-first [] d = elim d [ ]
IsDigits-first (e ∷ []) d = ground arith
IsDigits-first (e ∷ f ∷ s) d = ground (arith, d.0)

read_value-literal_text :
    (v : Literal) (r : Text)
    → IsPlain v
    → IsDelimited r
    → read_value (literal_text v ++ r) ≡ some (operand v, r)
read_value-literal_text (string s) r h d =
    rw (append_assoc s (text "'") r) (rw (up_to 39 s r h) refl)
read_value-literal_text (other s) r h d = read_value-bare s r h d
read_value-literal_text (number n) r h d =
    let digits = decimal-IsDigits n in
    read_value-bare (decimal n) r
      (
        IsDigits-Lacks 32 _ (omega arith) digits,
        IsDigits-Lacks 41 _ (omega arith) digits,
        IsDigits-first _ digits,
      )
      d

Lacks-op_text : (o : Op) → Lacks 32 (op_text o)
Lacks-op_text add = (refl, tt)
Lacks-op_text sub = (refl, tt)
Lacks-op_text mul = (refl, tt)
Lacks-op_text div = (refl, tt)
Lacks-op_text equal = (refl, tt)
Lacks-op_text unequal = (refl, (refl, tt))
Lacks-op_text less = (refl, tt)
Lacks-op_text at_most = (refl, (refl, tt))
Lacks-op_text greater = (refl, tt)
Lacks-op_text at_least = (refl, (refl, tt))
Lacks-op_text and_op = (refl, (refl, (refl, tt)))
Lacks-op_text or_op = (refl, (refl, tt))

no_paren :
    (x t : Text) → first_is (λ c. c == b'(') x ≡ false → after_prefix (text "(") (x ++ t) ≡ none
no_paren [] t h = cc
no_paren (c ∷ x) t h = ground arith

test_text :
    (x w r : Text) (o : Op) → operation false x o w ++ r ≡ x ++ 32 ∷ (op_text o ++ 32 ∷ (w ++ r))
test_text x w r o = simp (append_assoc, append-nil)

read_test_lem :
    (x r : Text) (o : Op) (v : Literal)
    → Lacks 32 x
    → read_op (op_text o) ≡ some o
    → IsPlain v
    → IsDelimited r
    → read_test (split_once space (x ++ 32 ∷ (op_text o ++ 32 ∷ (literal_text v ++ r))))
      ≡ some (compared x o (operand v), r)
read_test_lem x r o v h k p d = rw (up_to 32 x (op_text o ++ 32 ∷ (literal_text v ++ r)) h) (
    rw (up_to 32 (op_text o) (literal_text v ++ r) (Lacks-op_text o))
      (rw (k, with_op) (ap (with_value x o) (read_value-literal_text v r p d))))

read-test :
    (fuel : ℕ) (e : Expr) (o : Op) (v : Literal) (r : Text)
    → IsSendable (test e o v)
    → IsDelimited r
    → read (suc fuel) (to_gql (expression (test e o v)) ++ r) ≡ some (shape (test e o v), r)
unfolding read to_gql
read-test fuel e o v r (field, front, op, comparison, value) d = rw comparison (
    rw (test_text (to_gql e) (literal_text v) r o) (
      rw (no_paren (to_gql e) (32 ∷ (op_text o ++ 32 ∷ (literal_text v ++ r))) front, read)
        (read_test_lem (to_gql e) r o v field op value d)))

and_text :
    (l t r : Text)
    → operation true l and_op t ++ r ≡ text "(" ++ (l ++ (text " AND " ++ (t ++ (text ")" ++ r))))
and_text l t r = simp (append_assoc, append-nil)

or_text :
    (l t r : Text)
    → operation true l or_op t ++ r ≡ text "(" ++ (l ++ (text " OR " ++ (t ++ (text ")" ++ r))))
or_text l t r = simp (append_assoc, append-nil)

read-to_gql_in :
    (c : Condition) (fuel : ℕ) (r : Text)
    → IsSendable c
    → depth_of c ≤ fuel
    → IsDelimited r
    → read fuel (to_gql (expression c) ++ r) ≡ some (shape c, r)
unfolding to_gql read
read-to_gql_in (test e o v) zero r h f d = absurd (omega arith)
read-to_gql_in (test e o v) (suc fuel) r h f d = read-test fuel e o v r h d
read-to_gql_in (joined c b e) zero r h f d = absurd (omega arith)
read-to_gql_in (joined c true e) (suc fuel) r h f d =
    let left = to_gql (expression c) in
    let right = to_gql (expression e) in
    ap (read (suc fuel)) (and_text left right r)
    ∙ (rw
        (read-to_gql_in c fuel (text " AND " ++ (right ++ (text ")" ++ r))) h.0 (omega arith) refl)
        (rw (read-to_gql_in e fuel (text ")" ++ r) h.1 (omega arith) refl) refl))
read-to_gql_in (joined c false e) (suc fuel) r h f d =
    let left = to_gql (expression c) in
    let right = to_gql (expression e) in
    ap (read (suc fuel)) (or_text left right r)
    ∙ (rw (read-to_gql_in c fuel (text " OR " ++ (right ++ (text ")" ++ r))) h.0 (omega arith) refl)
        (rw (read-to_gql_in e fuel (text ")" ++ r) h.1 (omega arith) refl) refl))

-- A condition that joins comparisons by `&` and `|` in any way is read back from the text that is
-- sent, with each comparison's field, operator and value and with the grouping, if the fields are
-- written without spaces and the texts in it hold no quote.
pub read-to_gql :
    (c : Condition) → IsSendable c → read (depth_of c) (to_gql (expression c)) ≡ some (shape c, [])
read-to_gql c h =
    rw (sym (append-nil (to_gql (expression c))))
      (read-to_gql_in c (depth_of c) [] h (omega arith) tt)
