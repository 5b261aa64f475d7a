-- ===== src/Text/Occurrence.antt =====
-- The first occurrence of a separator that does not begin within itself.
use kuzu_event_bus.Prelude.{
  ℕ, ◌≡◌, refl, ap, ◌∙◌, none, some, [], ◌∷◌, ◌++◌, arith, Option-cases, inl, inr, nat_key,
}
use kuzu_event_bus.Text.{Text, split_once, after_prefix, cons_left}
use kuzu_event_bus.Text.Search.{after_prefix-append}
use kuzu_event_bus.Text.Every.{Lacks}

-- A prefix without `c` is not completed by what begins with `c`.
after_prefix-Lacks :
    (c : ℕ) (p s t : Text)
    → Lacks c p
    → after_prefix p s ≡ none
    → after_prefix p (s ++ c ∷ t) ≡ none
after_prefix-Lacks c [] s t l h = cc
after_prefix-Lacks c (d ∷ p) [] t l h = ground (arith, l.0)
after_prefix-Lacks c (d ∷ p) (e ∷ s) t l h = ground (arith, after_prefix-Lacks c p s t l.1)

split_once_cons :
    (sep : Text) (c : ℕ) (s : Text)
    → split_once sep (c ∷ s) ≡ none
    → (after_prefix sep (c ∷ s) ≡ none) × (split_once sep s ≡ none)
unfolding split_once
split_once_cons sep c s h = elim (Option-cases (after_prefix sep (c ∷ s))) [
  | inr (r, e) ↦ ground arith
  | inl e ↦ elim (Option-cases (split_once sep s)) [ inl f ↦ (e, f) | inr (p, f) ↦ ground arith ]
]

found_here :
    (sep : Text) (c : ℕ) (s : Text) {r : Text}
    → after_prefix sep (c ∷ s) ≡ some r
    → split_once sep (c ∷ s) ≡ some ([], r)
unfolding split_once
found_here sep c s h = rw (h, split_once) refl

found_later :
    (sep : Text) (c : ℕ) (s : Text)
    → after_prefix sep (c ∷ s) ≡ none
    → split_once sep (c ∷ s) ≡ cons_left c (split_once sep s)
unfolding split_once
found_later sep c s h = rw (h, split_once) refl

pub split_once-append :
    (c : ℕ) (p a r : Text)
    → Lacks c p
    → split_once (c ∷ p) a ≡ none
    → split_once (c ∷ p) (a ++ ((c ∷ p) ++ r)) ≡ some (a, r)
split_once-append c p [] r l h = found_here (c ∷ p) c (p ++ r) (after_prefix-append (c ∷ p) r)
split_once-append c p (d ∷ a) r l h =
    let (front, later) = split_once_cons (c ∷ p) d a h in
    found_later (c ∷ p) d _ (ground (arith, after_prefix-Lacks c p a (p ++ r) l))
    ∙ ap (cons_left d) (split_once-append c p a r l later)
