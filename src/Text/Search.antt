-- ===== src/Text/Search.antt =====
-- Prefixes and splitting at a separator.
use kuzu_event_bus.Prelude.{◌≡◌, refl, some, [], ◌∷◌, ◌++◌, arith, nat_key, Option-cases, inl, inr}
use kuzu_event_bus.Text.{Text, after_prefix, split_once}

pub after_prefix-append : (p s : Text) → after_prefix p (p ++ s) ≡ some s
after_prefix-append [] s = refl
after_prefix-append (c ∷ p) s = ground (arith, after_prefix-append p s)

-- A prefix that is found stands at the front.
pub after_prefix_sound : (p s : Text) {r : Text} → after_prefix p s ≡ some r → s ≡ p ++ r
after_prefix_sound [] s {r} h = ground arith
after_prefix_sound (c ∷ p) [] h = cc
after_prefix_sound (c ∷ p) (d ∷ s) {r} h = ground (arith, after_prefix_sound p s {r = r})

-- The parts that a split returns make up the text again, round the separator.
pub split_once_sound :
    (sep s : Text) {a b : Text} → split_once sep s ≡ some (a, b) → s ≡ a ++ (sep ++ b)
unfolding split_once
split_once_sound sep [] {a} {b} h = ground (arith, after_prefix_sound sep [] {r = b})
split_once_sound sep (c ∷ s) {a} {b} h = elim (Option-cases (after_prefix sep (c ∷ s))) [
  | inr (r, e) ↦ ground (arith, after_prefix_sound sep (c ∷ s) {r = r} e)
  | inl e ↦ elim (Option-cases (split_once sep s)) [
    | inl f ↦ ground arith
    | inr (p, f) ↦ ground (arith, split_once_sound sep s {a = p.0} {b = p.1} f)
  ]
]
