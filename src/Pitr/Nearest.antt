-- ===== src/Pitr/Nearest.antt =====
-- The snapshot that a restore starts from.
use kuzu_event_bus.Prelude.{
  ℕ, ◌≤◌, ◌≡◌, refl, ap, ◌∙◌, sym, Option, none, some, List, [], ◌∷◌, arith, ltb, All, Elem, inl,
  inr, if◌then◌else◌, ◌⊎◌, Option-cases, ◌≢◌,
}
use kuzu_event_bus.Pitr.{
  Snapshot, Timed, later, max_from, valid_snapshots, most_recent, find_nearest_snapshot, candidates,
  insert_desc, sort_desc, head?, nearest_snapshot_before,
}

-- The head of the sorted list, as a running maximum from the right.
first_max : Timed → Option Timed → Timed
first_max x none = x
first_max x (some y) = if ltb x.0 y.0 then y else x

head-insert_desc :
    (x : Timed) (ys : List Timed) → head? (insert_desc x ys) ≡ some (first_max x (head? ys))
unfolding first_max
head-insert_desc x [] = refl
head-insert_desc x (y ∷ ys) = ground arith

max_from-later :
    (b x : Timed) (xs : List Timed) → max_from (later b x) xs ≡ first_max b (some (max_from x xs))
unfolding max_from first_max
max_from-later b x [] = refl
max_from-later b x (y ∷ ys) = ground (arith, max_from-later (later b x) y ys, max_from-later x y ys)

-- The two ways to pick the most recent agree, ties included.
pub head-sort_desc : (xs : List Timed) → head? (sort_desc xs) ≡ most_recent xs
unfolding sort_desc max_from first_max
head-sort_desc [] = refl
head-sort_desc (x ∷ []) = refl
head-sort_desc (x ∷ y ∷ ys) =
    head-insert_desc x (sort_desc (y ∷ ys))
    ∙ ap (λ (o : Option Timed). some (first_max x o)) (head-sort_desc (y ∷ ys))
    ∙ ap some (sym (max_from-later x y ys))

-- A snapshot whose time parses.
abbrev pub IsDated : Snapshot → Type 0
IsDated s = s.created_at ≢ none

valid-eq-candidates :
    (target : ℕ) (ss : List Snapshot)
    → All IsDated ss
    → valid_snapshots target ss ≡ some (candidates target ss)
unfolding valid_snapshots candidates
valid-eq-candidates target [] h = refl
valid-eq-candidates target (s ∷ ss) h = elim (Option-cases s.created_at) [
  | inl e ↦ absurd (h.0 e)
  | inr (t, e) ↦ simp (e, valid-eq-candidates target ss h.1)
]

-- Where every snapshot's time parses, the restore, the preview and the timeline's plan start from
-- the same snapshot, or find none alike.
pub find_nearest_snapshot-agrees :
    (target : ℕ) (ss : List Snapshot)
    → All IsDated ss
    → find_nearest_snapshot target ss ≡ some (nearest_snapshot_before target ss)
unfolding find_nearest_snapshot nearest_snapshot_before
find_nearest_snapshot-agrees target ss h =
    rw (valid-eq-candidates target ss h, find_nearest_snapshot)
      (ap some (sym (head-sort_desc (candidates target ss))))

-- The maximum is one of the list, and nothing in the list is later.
max_from-Elem : (b : Timed) (xs : List Timed) → (max_from b xs ≡ b) ⊎ Elem (max_from b xs) xs
unfolding max_from
max_from-Elem b [] = inl refl
max_from-Elem b (x ∷ xs) = ground (arith, max_from-Elem (later b x) xs)

max_from-ge : (b : Timed) (xs : List Timed) → b.0 ≤ (max_from b xs).0
unfolding max_from
max_from-ge b [] = omega arith
max_from-ge b (x ∷ xs) = ground (arith, max_from-ge (later b x) xs)

max_from-ge-All : (b : Timed) (xs : List Timed) → All (λ (x : Timed). x.0 ≤ (max_from b xs).0) xs
unfolding max_from
max_from-ge-All b [] = tt
max_from-ge-All b (x ∷ xs) =
    (ground (arith, max_from-ge (later b x) xs), max_from-ge-All (later b x) xs)

-- The candidates are the snapshots of the list that are dated at or before the target.
abbrev pub IsEligible : ℕ → List Snapshot → Timed → Type 0
IsEligible target ss x = Elem x.1 ss × (x.1.created_at ≡ some x.0) × (x.0 ≤ target)

-- What is picked is eligible, and no eligible snapshot is later; none is picked only if none is
-- eligible.
abbrev pub IsNearest : ℕ → List Snapshot → Option Timed → Type 0
IsNearest target ss none = (x : Timed) → ¬ IsEligible target ss x
IsNearest target ss (some best) =
    IsEligible target ss best × ((x : Timed) → IsEligible target ss x → x.0 ≤ best.0)

pub candidates-IsEligible :
    (target : ℕ) (ss : List Snapshot) (x : Timed)
    → Elem x (candidates target ss)
    → IsEligible target ss x
unfolding candidates
candidates-IsEligible target [] x h = elim h [ ]
candidates-IsEligible target (s ∷ ss) x h = elim (Option-cases s.created_at) [
  | inl e ↦ ground (arith, candidates-IsEligible target ss x)
  | inr (t, e) ↦ ground (arith, candidates-IsEligible target ss x)
]

IsEligible-candidates :
    (target : ℕ) (ss : List Snapshot) (x : Timed)
    → IsEligible target ss x
    → Elem x (candidates target ss)
unfolding candidates
IsEligible-candidates target [] x h = elim (h.0) [ ]
IsEligible-candidates target (s ∷ ss) x h = elim (Option-cases s.created_at) [
  | inl e ↦ ground (arith, IsEligible-candidates target ss x)
  | inr (t, e) ↦ ground (arith, IsEligible-candidates target ss x)
]

All-Elem :
    (n : ℕ) (xs : List Timed) (x : Timed) → All (λ (y : Timed). y.0 ≤ n) xs → Elem x xs → x.0 ≤ n
All-Elem n [] x h e = elim e [ ]
All-Elem n (y ∷ ys) x h (inl e) = ground arith
All-Elem n (y ∷ ys) x h (inr e) = All-Elem n ys x h.1 e

most_recent-IsNearest :
    (target : ℕ) (ss : List Snapshot) (cs : List Timed)
    → candidates target ss ≡ cs
    → IsNearest target ss (most_recent cs)
most_recent-IsNearest target ss [] e = λ x h. rw e at (IsEligible-candidates target ss x h)
most_recent-IsNearest target ss (c ∷ cs) e = (
  candidates-IsEligible target ss (max_from c cs) (rw e (picked (max_from-Elem c cs))),
  λ x h. below x (rw e at (IsEligible-candidates target ss x h)),
)
  where
    picked : (max_from c cs ≡ c) ⊎ Elem (max_from c cs) cs → Elem (max_from c cs) (c ∷ cs)
    picked (inl p) = inl (sym p)
    picked (inr m) = inr m

    below : (x : Timed) → Elem x (c ∷ cs) → x.0 ≤ (max_from c cs).0
    below x (inl p) = rw (← p) (max_from-ge c cs)
    below x (inr m) = All-Elem (max_from c cs).0 cs x (max_from-ge-All c cs) m

-- The snapshot that the preview and the timeline pick is a latest one of those dated at or before
-- the target; none is picked only if there is no such snapshot.
pub nearest_snapshot_before-IsNearest :
    (target : ℕ) (ss : List Snapshot) → IsNearest target ss (nearest_snapshot_before target ss)
unfolding nearest_snapshot_before
nearest_snapshot_before-IsNearest target ss =
    rw (head-sort_desc (candidates target ss))
      (most_recent-IsNearest target ss (candidates target ss) refl)
