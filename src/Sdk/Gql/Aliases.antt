-- ===== src/Sdk/Gql/Aliases.antt =====
-- The variables that a query gives its joins.
use kuzu_event_bus.Prelude.{
  ℕ, zero, suc, ◌+◌, ◌≤◌, ◌<◌, true, false, ◌≡◌, ◌≢◌, refl, ap, List, [], ◌∷◌, ◌++◌, arith, none,
  some, length, contains, if◌then◌else◌, Bool-cases, inl, inr, ◌==◌, Option-cases, All,
}
use kuzu_event_bus.Text.{Text, text_key, after_prefix, same_text_iff}
use kuzu_event_bus.Text.Search.{after_prefix-append}
use kuzu_event_bus.Text.Decimal.{decimal, decimal_injective}
use kuzu_event_bus.Sdk.Builder.{Join, QueryBuilder}
use kuzu_event_bus.Sdk.Source.{base_var}
use kuzu_event_bus.Sdk.Gql.{first_free, fresh, joined, extended, place_joins, base_pattern}

-- The list without the first occurrence of a text.
abbrev erase : Text → List Text → List Text
erase a [] = []
erase a (x ∷ xs) = let rest = x ∷ erase a xs in if x == a then xs else rest

length-erase :
    (a : Text) (xs : List Text) → contains a xs ≡ true → length (erase a xs) + 1 ≡ length xs
length-erase a [] h = cc
length-erase a (x ∷ xs) h = ground (arith, length-erase a xs)

contains-erase :
    (a b : Text) (xs : List Text) → b ≢ a → contains b xs ≡ true → contains b (erase a xs) ≡ true
contains-erase a b [] ne h = cc
contains-erase a b (x ∷ xs) ne h =
    ground (arith, contains-erase a b xs ne, same_text_iff x a, same_text_iff x b)

append_cancel : (s t u : Text) → s ++ t ≡ s ++ u → t ≡ u
append_cancel s t u h = cc (after_prefix-append s t, after_prefix-append s u, ap (after_prefix s) h)

suffixes_differ : (a : Text) (m n : ℕ) → m < n → a ++ decimal n ≢ a ++ decimal m
suffixes_differ a m n h e =
    let same : n ≡ m = decimal_injective n m (append_cancel a (decimal n) (decimal m) e) in
    absurd (omega arith)

-- Without the first candidate the later ones are looked up as before.
first_free-erase :
    (rounds : ℕ) (used : List Text) (a : Text) (m n : ℕ)
    → m < n
    → first_free rounds used a n ≡ none
    → first_free rounds (erase (a ++ decimal m) used) a n ≡ none
first_free-erase zero used a m n lt h = refl
first_free-erase (suc rounds) used a m n lt h = elim (Bool-cases (contains (a ++ decimal n) used)) [
  | inl old ↦
      rw (contains-erase (a ++ decimal m) (a ++ decimal n) used (suffixes_differ a m n lt) old)
        (first_free-erase rounds used a m (n + 1) (omega arith) (ground arith))
  | inr new ↦ ground arith
]

-- The search is in vain only if every candidate is an alias already.
first_free-eq-none :
    (rounds : ℕ) (used : List Text) (a : Text) (n : ℕ)
    → first_free rounds used a n ≡ none
    → rounds ≤ length used
first_free-eq-none zero used a n h = omega arith
first_free-eq-none (suc rounds) used a n h = elim (Bool-cases (contains (a ++ decimal n) used)) [
  | inl old ↦
      let later = first_free-erase rounds used a n (n + 1) (omega arith) (ground arith) in
      omega (
        arith,
        first_free-eq-none rounds (erase (a ++ decimal n) used) a (n + 1) later,
        length-erase (a ++ decimal n) used old,
      )
  | inr new ↦ ground arith
]

first_free_sound :
    (rounds : ℕ) (used : List Text) (a : Text) (n : ℕ) {k : ℕ}
    → first_free rounds used a n ≡ some k
    → contains (a ++ decimal k) used ≡ false
first_free_sound zero used a n h = cc
first_free_sound (suc rounds) used a n {k} h = elim (Bool-cases (contains (a ++ decimal n) used)) [
  | inl old ↦ first_free_sound rounds used a (n + 1) {k = k} (ground arith)
  | inr new ↦ ground arith
]

-- The loop that looks for a free suffix ends: within one round more than there are aliases it comes to
-- a number with which the alias is not used yet.
pub first_free_ends :
    (used : List Text) (a : Text) (n : ℕ)
    → (k : ℕ) × (first_free (length used + 1) used a n ≡ some k)
      × (contains (a ++ decimal k) used ≡ false)
first_free_ends used a n = elim (Option-cases (first_free (length used + 1) used a n)) [
  | inl e ↦ absurd (omega (arith, first_free-eq-none (length used + 1) used a n e))
  | inr (k, e) ↦ (k, e, first_free_sound (length used + 1) used a n e)
]

fresh_lem : (used : List Text) (a : Text) → contains (fresh used a) used ≡ false
unfolding fresh
fresh_lem used a = elim (Bool-cases (contains a used)) [
  | inl old ↦ let (k, e, free) = first_free_ends used a 2 in rw old (rw e free)
  | inr new ↦ rw new new
]

abbrev pub IsDistinct : List Text → Type 0
IsDistinct [] = Unit
IsDistinct (x ∷ xs) = (contains x xs ≡ false) × IsDistinct xs

-- The aliases of joins
abbrev pub aliases : List Join → List Text
aliases [] = []
aliases (j ∷ js) = j.alias ∷ aliases js

abbrev Apart : List Text → Text → Type 0
Apart used a = contains a used ≡ false

not_among : (x : Text) (used xs : List Text) → All (Apart (x ∷ used)) xs → contains x xs ≡ false
not_among x used [] h = refl
not_among x used (y ∷ xs) h =
    ground (arith, h.0, same_text_iff x y, same_text_iff y x, not_among x used xs h.1)

Apart-tail : (x : Text) (used xs : List Text) → All (Apart (x ∷ used)) xs → All (Apart used) xs
Apart-tail x used [] h = tt
Apart-tail x used (y ∷ xs) h = (ground arith, Apart-tail x used xs h.1)

joined-Apart :
    (js : List Join) (used : List Text) (p : Text)
    → All (Apart used) (aliases (joined used p js).1) × IsDistinct (aliases (joined used p js).1)
unfolding joined
joined-Apart [] used p = (tt, tt)
joined-Apart (j ∷ js) used p =
    let a = fresh used j.alias in
    let (apart, distinct) = joined-Apart js (a ∷ used) (extended p a j) in
    ((fresh_lem used j.alias, Apart-tail a used _ apart), (not_among a used _ apart, distinct))

-- Whatever aliases the joins were given, and however often the same, the variables of the query's
-- pattern are distinct: no join shares one with another, or with the base.
pub place_joins-IsDistinct :
    (b : QueryBuilder) → IsDistinct (base_var b.entity_class ∷ aliases (place_joins b).1)
place_joins-IsDistinct b =
    let x = base_var b.entity_class in
    let (apart, distinct) = joined-Apart b.joins (x ∷ []) (base_pattern b.entity_class) in
    (not_among x [] _ apart, distinct)

fresh_twice : (used : List Text) (a : Text) → fresh used (fresh used a) ≡ fresh used a
unfolding fresh
fresh_twice used a = rw (fresh_lem used a) refl

pub joined_twice :
    (js : List Join) (used : List Text) (p : Text)
    → joined used p (joined used p js).1 ≡ joined used p js
unfolding joined
joined_twice [] used p = refl
joined_twice (j ∷ js) used p =
    let a = fresh used j.alias in
    rw (fresh_twice used j.alias) (
      ap (λ (r : Text × List Join). (r.0, record j { alias = a } ∷ r.1))
        (joined_twice js (a ∷ used) (extended p a j)))
