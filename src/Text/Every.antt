-- ===== src/Text/Every.antt =====
-- What holds of every character of a text, and of each text that is cut out of it.
use kuzu_event_bus.Prelude.{
  ℕ, ◌≡◌, refl, true, false, none, some, [], ◌∷◌, ◌++◌, arith, All, Bool-cases, Option-cases, inl,
  inr, subst, ◌==◌, nat_key,
}
use kuzu_event_bus.Text.{Text, strip, lstrip, rstrip, before, is_space, split_once, cons_left}
use kuzu_event_bus.Text.Search.{split_once_sound}

module _ (P : ℕ → Type 0) where
  pub All-left : (s t : Text) → All P (s ++ t) → All P s
  All-left [] t h = tt
  All-left (c ∷ s) t h = (h.0, All-left s t h.1)

  pub All-right : (s t : Text) → All P (s ++ t) → All P t
  All-right [] t h = h
  All-right (c ∷ s) t h = All-right s t h.1

  All-lstrip : (s : Text) → All P s → All P (lstrip s)
  unfolding lstrip
  All-lstrip [] h = tt
  All-lstrip (c ∷ s) h = elim (Bool-cases (is_space c)) [
    | inl e ↦ rw e (All-lstrip s h.1)
    | inr e ↦ rw e h
  ]

  All-before : (c : ℕ) (s : Text) → P c → All P s → All P (before c s)
  All-before c [] p h = elim (Bool-cases (is_space c)) [ inl e ↦ rw e tt | inr e ↦ rw e (p, tt) ]
  All-before c (d ∷ s) p h = (p, h)

  All-rstrip : (s : Text) → All P s → All P (rstrip s)
  unfolding rstrip
  All-rstrip [] h = tt
  All-rstrip (c ∷ s) h = All-before c (rstrip s) h.0 (All-rstrip s h.1)

  pub All-strip : (s : Text) → All P s → All P (strip s)
  unfolding strip
  All-strip s h = All-rstrip (lstrip s) (All-lstrip s h)

  -- The part behind a separator
  pub All-after : (sep s : Text) {a r : Text} → split_once sep s ≡ some (a, r) → All P s → All P r
  All-after sep s {a} {r} e h =
      All-right sep r (All-right a (sep ++ r) (subst (All P) (split_once_sound sep s e) h))

-- No character is `c`.
abbrev pub Lacks : ℕ → Text → Type 0
Lacks c s = All (λ d. (c == d) ≡ false) s

pub split_once-Lacks : (c : ℕ) (s : Text) → Lacks c s → split_once (c ∷ []) s ≡ none
unfolding split_once
split_once-Lacks c [] h = refl
split_once-Lacks c (d ∷ s) h = ground (arith, h.0, split_once-Lacks c s h.1)

pub split_once-eq-none : (c : ℕ) (s : Text) → split_once (c ∷ []) s ≡ none → Lacks c s
unfolding split_once
split_once-eq-none c [] h = tt
split_once-eq-none c (d ∷ s) h = elim (Option-cases (split_once (c ∷ []) s)) [
  | inl e ↦ (ground arith, split_once-eq-none c s e)
  | inr (p, e) ↦ ground arith
]

front : (c d : ℕ) (s : Text) → (c == d) ≡ true → split_once (c ∷ []) (d ∷ s) ≡ some ([], s)
unfolding split_once
front c d s h = ground arith

behind :
    (c d : ℕ) (s : Text)
    → (c == d) ≡ false
    → split_once (c ∷ []) (d ∷ s) ≡ cons_left d (split_once (c ∷ []) s)
unfolding split_once
behind c d s h = ground arith

pub split_once_first :
    (c : ℕ) (s : Text) {a r : Text} → split_once (c ∷ []) s ≡ some (a, r) → Lacks c a
split_once_first c [] h = unfold split_once in cc
split_once_first c (d ∷ s) {a} {r} h = elim (Bool-cases (c == d)) [
  | inl same ↦ let e : [] ≡ a = cc (front c d s same, h) in subst (Lacks c) e tt
  | inr other ↦ elim (Option-cases (split_once (c ∷ []) s)) [
    | inl e ↦ ground (arith, behind c d s other)
    | inr (p, e) ↦
        let parts : d ∷ p.0 ≡ a = ground (arith, behind c d s other) in
        subst (Lacks c) parts (other, split_once_first c s {a = p.0} {r = p.1} e)
  ]
]
