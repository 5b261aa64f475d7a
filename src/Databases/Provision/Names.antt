-- ===== src/Databases/Provision/Names.antt =====
-- How long the names of databases and branches may be.
use kuzu_event_bus.Prelude.{
  ℕ, suc, ◌+◌, ◌≤◌, ◌≡◌, ap, ◌∙◌, some, [], ◌∷◌, ◌++◌, arith, length, length-append, inl, inr,
  Option-cases,
}
use kuzu_event_bus.Text.{Text}
use kuzu_event_bus.Branches.{to_full_name, separator}
use kuzu_event_bus.Databases.Provision.{lower_length, database_name}

lower_length-length :
    (s : Text) {n : ℕ} → lower_length s ≡ some n → (n ≤ length s) × (length s ≤ suc n)
lower_length-length [] {n} h = ground arith
lower_length-length (c ∷ []) {n} h = ground arith
lower_length-length (c ∷ d ∷ s) {n} h = elim (Option-cases (lower_length (d ∷ s))) [
  | inl e ↦ ground arith
  | inr (m, e) ↦ ground (arith, lower_length-length (d ∷ s) e)
]

-- A name that is accepted is kept as it is; it has 3 to 41 characters, of which the last is a newline
-- if there are 41.
pub database_name_bounded :
    (value : Text) {name : Text}
    → database_name value ≡ some name
    → (name ≡ value) × (3 ≤ length value) × (length value ≤ 41)
unfolding database_name
database_name_bounded value {name} h = elim (Option-cases (lower_length value)) [
  | inl e ↦ absurd (ground arith)
  | inr (n, e) ↦ ground (arith, lower_length-length value e)
]

pub length-to_full_name :
    (value parent : Text) → length (to_full_name value parent) ≡ length parent + (10 + length value)
unfolding to_full_name
length-to_full_name value parent =
    length-append (parent ++ separator) value
    ∙ ap (λ n. n + length value) (length-append parent separator)
    ∙ ground arith
