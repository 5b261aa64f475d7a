-- ===== src/Pitr/Timeline/Types.antt =====
-- The types of queries that the timeline counts, against the worker's test for mutations.
use kuzu_event_bus.Prelude.{◌≡◌, ◌≢◌, ◌↔◌, refl, false, List, [], ◌∷◌, arith, inl, inr, Bool-cases}
use kuzu_event_bus.Text.{Text, strip, upper, starts_with, starts_with_any, same_text, same_text_iff}
use kuzu_event_bus.Jobs.Worker.{is_mutating}
use kuzu_event_bus.Pitr.Timeline.{query_type, first_label, type_labels, read_label}

abbrev prefixes : List (Text × Text) → List Text
prefixes [] = []
prefixes ((p, label) ∷ ls) = p ∷ prefixes ls

abbrev IsLabelled : List (Text × Text) → Type 0
IsLabelled [] = Unit
IsLabelled ((p, label) ∷ ls) = (same_text label read_label ≡ false) × IsLabelled ls

apart : {label : Text} → same_text label read_label ≡ false → label ≢ read_label
apart {label} h e = ground (arith, same_text_iff label read_label)

first_label-read :
    (ls : List (Text × Text)) (q : Text)
    → IsLabelled ls
    → (first_label ls q ≡ read_label) ↔ (starts_with_any (prefixes ls) q ≡ false)
first_label-read [] q h = (λ e. refl, λ e. refl)
first_label-read ((p, label) ∷ ls) q h = elim (Bool-cases (starts_with p q)) [
  | inl e ↦ simp e ((λ k. absurd (apart h.0 k), λ k. cc))
  | inr e ↦ simp e (first_label-read ls q h.1)
]

-- The timeline counts a query as READ exactly if the worker takes it for no mutation.
pub query_type-is_mutating :
    (query : Text) → (query_type query ≡ read_label) ↔ (is_mutating query ≡ false)
unfolding query_type is_mutating
query_type-is_mutating query =
    first_label-read type_labels (upper (strip query))
      (refl, (refl, (refl, (refl, (refl, (refl, (refl, (refl, tt))))))))
