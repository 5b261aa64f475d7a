-- ===== src/Sdk/Source/Calls.antt =====
-- The replacement of `any(…)` calls has rounds enough.
use kuzu_event_bus.Prelude.{
  ℕ, zero, suc, ◌+◌, ◌<◌, ◌≡◌, refl, ap, false, some, ◌∷◌, ◌++◌, arith, length, drop, length-append,
  length-drop, Option-cases, inl, inr,
}
use kuzu_event_bus.Text.{Text, split_once}
use kuzu_event_bus.Text.Search.{split_once_sound}
use kuzu_event_bus.Sdk.Entities.{Relation}
use kuzu_event_bus.Sdk.Source.{replace_calls, until_close}

shorter :
    (c : ℕ) (p body a r : Text) → split_once (c ∷ p) body ≡ some (a, r) → length r < length body
shorter c p body a r h = omega (
  arith,
  ap length (split_once_sound (c ∷ p) body h),
  length-append a ((c ∷ p) ++ r),
  length-append p r,
)

module _ (x : Text) (rel : Relation) (c : ℕ) (p : Text) where
  -- With more rounds than the text has characters the result is the same for any number of rounds, so
  -- that the rounds never run out.
  pub replace_calls_enough :
      (f g : ℕ) (body : Text)
      → length body < f
      → length body < g
      → replace_calls f x rel (c ∷ p) body ≡ replace_calls g x rel (c ∷ p) body
  replace_calls_enough zero g body h k = absurd (omega arith)
  replace_calls_enough (suc f) zero body h k = absurd (omega arith)
  replace_calls_enough (suc f) (suc g) body h k = elim (Option-cases (split_once (c ∷ p) body)) [
    | inl e ↦ rw (e, replace_calls) refl
    | inr ((a, r), e) ↦
        let less = shorter c p body a r e in
        elim (Option-cases (until_close false 0 r)) [
          | inl d ↦ rw (e, replace_calls) (rw d refl)
          | inr (inside, d) ↦
              let kept = replace_calls_enough f g r (omega arith) (omega arith) in
              let after =
                replace_calls_enough f g (drop (length inside + 1) r)
                  (omega (arith, length-drop (length inside + 1) r))
                  (omega (arith, length-drop (length inside + 1) r)) in
              rw (e, replace_calls) (rw d (rw kept (rw after refl)))
        ]
  ]
