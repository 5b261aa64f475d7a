-- ===== src/Sdk/Expr/Ambiguity.antt =====
-- What the text of a captured expression no longer tells: how it was grouped, and where a text begins
-- and ends.
use kuzu_event_bus.Prelude.{false, ◌≡◌, ◌++◌}
use mathlib.Core.List.{append_assoc, append-nil}
use kuzu_event_bus.Text.{Text, text}
use kuzu_event_bus.Sdk.Expr.{Expr, lit, bin, string, Op, equal, is_logical, to_gql}

-- Arithmetic and comparisons are written without parentheses, so that two of them in a row have the
-- same text however they were grouped: `(a - b) * c` is sent as `a - b * c`.
pub to_gql_ungrouped :
    (a b c : Expr) (o p : Op)
    → is_logical o ≡ false
    → is_logical p ≡ false
    → to_gql (bin (bin a o b) p c) ≡ to_gql (bin a o (bin b p c))
unfolding to_gql
to_gql_ungrouped a b c o p h k = rw (h, k) (simp (append_assoc, append-nil))

-- A text is put between quotes as it is: what follows a quote in it becomes part of the condition, so
-- that a comparison with one text reads as the disjunction of two comparisons.
pub to_gql_injected :
    (a b : Expr) (s t : Text)
    → to_gql (bin a equal (lit (string (s ++ (text "' OR " ++ (to_gql b ++ (text " = '" ++ t)))))))
      ≡ to_gql (bin a equal (lit (string s)))
        ++ (text " OR " ++ to_gql (bin b equal (lit (string t))))
unfolding to_gql
to_gql_injected a b s t = simp (append_assoc, append-nil)
