-- ===== src/Text/Strip.antt =====
-- `strip` and `lower`, applied twice and after each other.
use kuzu_event_bus.Prelude.{ℕ, ◌≡◌, refl, ap, ◌∙◌, false, [], ◌∷◌, arith, inl, inr, Bool-cases}
use kuzu_event_bus.Text.{Text, is_space, lstrip, rstrip, strip, before, lower, lower_code}

is_space-lower_code : (c : ℕ) → is_space (lower_code c) ≡ is_space c
unfolding is_space lower_code
is_space-lower_code c = ground arith

lower_code_twice : (c : ℕ) → lower_code (lower_code c) ≡ lower_code c
unfolding lower_code
lower_code_twice c = ground arith

lower_twice : (s : Text) → lower (lower s) ≡ lower s
unfolding lower
lower_twice [] = refl
lower_twice (c ∷ s) = rw (lower_code_twice c) (ap (λ t. lower_code c ∷ t) (lower_twice s))

lstrip-lower : (s : Text) → lstrip (lower s) ≡ lower (lstrip s)
unfolding lower lstrip
lstrip-lower [] = refl
lstrip-lower (c ∷ s) = elim (Bool-cases (is_space c)) [
  | inl e ↦ simp (is_space-lower_code c, e) (lstrip-lower s)
  | inr e ↦ simp (is_space-lower_code c, e) refl
]

before-lower : (c : ℕ) (s : Text) → before (lower_code c) (lower s) ≡ lower (before c s)
unfolding lower
before-lower c [] = elim (Bool-cases (is_space c)) [
  | inl e ↦ simp (is_space-lower_code c, e) refl
  | inr e ↦ simp (is_space-lower_code c, e) refl
]
before-lower c (d ∷ s) = refl

rstrip-lower : (s : Text) → rstrip (lower s) ≡ lower (rstrip s)
unfolding lower rstrip
rstrip-lower [] = refl
rstrip-lower (c ∷ s) = ap (before (lower_code c)) (rstrip-lower s) ∙ before-lower c (rstrip s)

lstrip_twice : (s : Text) → lstrip (lstrip s) ≡ lstrip s
unfolding lstrip
lstrip_twice [] = refl
lstrip_twice (c ∷ s) = elim (Bool-cases (is_space c)) [
  | inl e ↦ simp e (lstrip_twice s)
  | inr e ↦ simp e refl
]

rstrip-before : (c : ℕ) (s : Text) → rstrip s ≡ s → rstrip (before c s) ≡ before c s
unfolding rstrip
rstrip-before c [] h = elim (Bool-cases (is_space c)) [ inl e ↦ simp e refl | inr e ↦ simp e refl ]
rstrip-before c (d ∷ s) h = ap (before c) h

rstrip_twice : (s : Text) → rstrip (rstrip s) ≡ rstrip s
unfolding rstrip
rstrip_twice [] = refl
rstrip_twice (c ∷ s) = rstrip-before c (rstrip s) (rstrip_twice s)

lstrip-before : (c : ℕ) (s : Text) → is_space c ≡ false → lstrip (before c s) ≡ before c s
unfolding lstrip
lstrip-before c [] e = simp e refl
lstrip-before c (d ∷ s) e = simp e refl

lstrip-rstrip : (s : Text) → lstrip (rstrip (lstrip s)) ≡ rstrip (lstrip s)
unfolding lstrip rstrip
lstrip-rstrip [] = refl
lstrip-rstrip (c ∷ s) = elim (Bool-cases (is_space c)) [
  | inl e ↦ simp e (lstrip-rstrip s)
  | inr e ↦ simp e (lstrip-before c (rstrip s) e)
]

strip_twice : (s : Text) → strip (strip s) ≡ strip s
unfolding strip
strip_twice s = ap rstrip (lstrip-rstrip s) ∙ rstrip_twice (lstrip s)

strip-lower : (s : Text) → strip (lower s) ≡ lower (strip s)
unfolding strip
strip-lower s = ap rstrip (lstrip-lower s) ∙ rstrip-lower (lstrip s)

pub lower-strip_twice : (s : Text) → lower (strip (lower (strip s))) ≡ lower (strip s)
lower-strip_twice s =
    ap lower (strip-lower (strip s) ∙ ap lower (strip_twice s)) ∙ lower_twice (strip s)
