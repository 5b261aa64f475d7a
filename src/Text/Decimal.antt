-- ===== src/Text/Decimal.antt =====
-- `str(n)` of a natural number, and that different numbers have different texts.
use Prim.Native.Nat.{◌/◌, ◌%◌}
use kuzu_event_bus.Prelude.{
  ℕ, zero, suc, ◌+◌, ◌-◌, ◌*◌, ◌<◌, ◌≤◌, ◌≡◌, ap, sym, ◌∙◌, [], ◌∷◌, arith, ltb, if◌then◌else◌,
  Bool-cases, inl, inr,
}
use kuzu_event_bus.Text.{Text}

abbrev digit : ℕ → ℕ
digit n = 48 + n % 10

-- The digits of `n` in front of `tail`; as many rounds as the number is large are enough.
abbrev decimal_from : ℕ → ℕ → Text → Text
decimal_from zero n tail = tail
decimal_from (suc rounds) n tail =
    let rest = decimal_from rounds (n / 10) (digit n ∷ tail) in
    if ltb n 10 then digit n ∷ tail else rest

unfoldable pub decimal : ℕ → Text
decimal n = decimal_from (n + 1) n []

-- Reading digits back, behind a number that has been read.
abbrev value_from : ℕ → Text → ℕ
value_from n [] = n
value_from n (c ∷ s) = value_from (n * 10 + (c - 48)) s

value-decimal_from :
    (rounds n : ℕ) (tail : Text)
    → n < rounds
    → value_from 0 (decimal_from rounds n tail) ≡ value_from n tail
value-decimal_from zero n tail h = elim h [ ]
value-decimal_from (suc rounds) n tail h = elim (Bool-cases (ltb n 10)) [
  | inl small ↦ rw small (ap (λ m. value_from m tail) (ground arith))
  | inr large ↦ rw large (
      value-decimal_from rounds (n / 10) (digit n ∷ tail) (ground arith)
      ∙ ap (λ m. value_from m tail) (omega arith))
]

value-decimal : (n : ℕ) → value_from 0 (decimal n) ≡ n
unfolding decimal
value-decimal n = value-decimal_from (n + 1) n [] (omega arith)

pub decimal_injective : (m n : ℕ) → decimal m ≡ decimal n → m ≡ n
decimal_injective m n h = sym (value-decimal m) ∙ (ap (value_from 0) h ∙ value-decimal n)

abbrev pub IsDigits : Text → Type 0
IsDigits [] = ⊥
IsDigits (c ∷ []) = 48 ≤ c
IsDigits (c ∷ d ∷ s) = (48 ≤ c) × IsDigits (d ∷ s)

decimal_from-IsDigits :
    (rounds n c : ℕ) (tail : Text)
    → IsDigits (c ∷ tail)
    → IsDigits (decimal_from rounds n (c ∷ tail))
decimal_from-IsDigits zero n c tail h = h
decimal_from-IsDigits (suc rounds) n c tail h = elim (Bool-cases (ltb n 10)) [
  | inl small ↦ rw small (omega arith, h)
  | inr large ↦
      rw large (decimal_from-IsDigits rounds (n / 10) (digit n) (c ∷ tail) (omega arith, h))
]

-- A number's text is digits, at least one.
pub decimal-IsDigits : (n : ℕ) → IsDigits (decimal n)
unfolding decimal
decimal-IsDigits n =
    let e : n + 1 ≡ suc n = omega arith in
    rw e (elim (Bool-cases (ltb n 10)) [
      | inl small ↦ rw small (omega arith)
      | inr large ↦ rw large (decimal_from-IsDigits n (n / 10) (digit n) [] (omega arith))
    ])
