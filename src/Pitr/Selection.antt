-- ===== src/Pitr/Selection.antt =====
-- The WAL files that a restore replays: which they are, in which order, and what they leave out.
use kuzu_event_bus.Prelude.{
  ℕ, ◌*◌, ◌/◌, ◌%◌, ◌≤◌, ◌<◌, ◌≡◌, ◌≢◌, ◌↔◌, ◌⊎◌, Bool, true, false, some, List, [], ◌∷◌, arith,
  ltb, All, Elem, inl, inr, Option-cases, Bool-cases, nat_beq, nat_beq_iff,
}
use mathlib.Core.List.{Perm}
use mathlib.Core.List.Perm
use kuzu_event_bus.Pitr.Listed.{IsListed, files_in_range-IsListed, IsListed-files_in_range}
use kuzu_event_bus.Pitr.{
  WalObject, WalFile, in_range, files_in_range, insert_asc, sort_asc, find_wal_files_in_range,
}

-- Timestamps that do not fall.
abbrev pub IsChronological : List WalFile → Type 0
IsChronological [] = Unit
IsChronological (x ∷ xs) = All (λ (y : WalFile). x.timestamp ≤ y.timestamp) xs × IsChronological xs

All-insert_asc :
    (n : ℕ) (x : WalFile) (ys : List WalFile)
    → n ≤ x.timestamp
    → All (λ (y : WalFile). n ≤ y.timestamp) ys
    → All (λ (y : WalFile). n ≤ y.timestamp) (insert_asc x ys)
All-insert_asc n x [] h k = (h, tt)
All-insert_asc n x (y ∷ ys) h k = ground (arith, All-insert_asc n x ys h k.1)

All-le :
    (m n : ℕ) (ys : List WalFile)
    → m ≤ n
    → All (λ (y : WalFile). n ≤ y.timestamp) ys
    → All (λ (y : WalFile). m ≤ y.timestamp) ys
All-le m n [] h k = tt
All-le m n (y ∷ ys) h k = (omega arith, All-le m n ys h k.1)

insert_asc-IsChronological :
    (x : WalFile) (ys : List WalFile) → IsChronological ys → IsChronological (insert_asc x ys)
insert_asc-IsChronological x [] h = (tt, tt)
insert_asc-IsChronological x (y ∷ ys) h = elim (Bool-cases (ltb y.timestamp x.timestamp)) [
  | inl e ↦
      simp e
        (All-insert_asc y.timestamp x ys (ground arith) h.0, insert_asc-IsChronological x ys h.1)
  | inr e ↦ simp e ((ground arith, All-le x.timestamp y.timestamp ys (ground arith) h.0), h)
]

sort_asc-IsChronological : (xs : List WalFile) → IsChronological (sort_asc xs)
unfolding sort_asc
sort_asc-IsChronological [] = tt
sort_asc-IsChronological (x ∷ xs) =
    insert_asc-IsChronological x (sort_asc xs) (sort_asc-IsChronological xs)

insert_asc-perm : (x : WalFile) (ys : List WalFile) → Perm (insert_asc x ys) (x ∷ ys)
insert_asc-perm x [] = Perm.refl (x ∷ [])
insert_asc-perm x (y ∷ ys) = elim (Bool-cases (ltb y.timestamp x.timestamp)) [
  | inl e ↦ simp e (Perm.trans (Perm.cons y (insert_asc-perm x ys)) (Perm.swap x y ys))
  | inr e ↦ simp e (Perm.refl (x ∷ y ∷ ys))
]

sort_asc-perm : (xs : List WalFile) → Perm (sort_asc xs) xs
unfolding sort_asc
sort_asc-perm [] = Perm.refl []
sort_asc-perm (x ∷ xs) =
    Perm.trans (insert_asc-perm x (sort_asc xs)) (Perm.cons x (sort_asc-perm xs))

Elem-insert_asc :
    (f x : WalFile) (ys : List WalFile) → Elem f (insert_asc x ys) ↔ ((x ≡ f) ⊎ Elem f ys)
Elem-insert_asc f x [] = (λ h. h, λ h. h)
Elem-insert_asc f x (y ∷ ys) = elim (Bool-cases (ltb y.timestamp x.timestamp)) [
  | inl e ↦ let rest = Elem-insert_asc f x ys in simp e (moved rest)
  | inr e ↦ simp e ((λ h. h, λ h. h))
]
  where
    moved :
        Elem f (insert_asc x ys) ↔ ((x ≡ f) ⊎ Elem f ys)
        → Elem f (y ∷ insert_asc x ys) ↔ ((x ≡ f) ⊎ Elem f (y ∷ ys))
    moved rest = ground (arith, rest)

Elem-sort_asc : (f : WalFile) (xs : List WalFile) → Elem f (sort_asc xs) ↔ Elem f xs
unfolding sort_asc
Elem-sort_asc f [] = (λ h. h, λ h. h)
Elem-sort_asc f (x ∷ xs) =
    let step = Elem-insert_asc f x (sort_asc xs) in
    let rest = Elem-sort_asc f xs in ground (arith, step, rest)

-- The files found are exactly those of the listed objects that are named as WAL files of a second in
-- the range, both ends included, each as often as the loop over the listing takes it, in order of
-- time.
pub find_wal_files_in_range_sorted :
    (start_time end_time : ℕ) (objects : List WalObject)
    → IsChronological (find_wal_files_in_range start_time end_time (some objects))
      × Perm
          (find_wal_files_in_range start_time end_time (some objects))
          (files_in_range (λ o. o.named_wal) start_time end_time objects)
      × ((f : WalFile)
          → Elem f (find_wal_files_in_range start_time end_time (some objects))
            ↔ IsListed start_time end_time objects f)
unfolding find_wal_files_in_range
find_wal_files_in_range_sorted start_time end_time objects =
    let found = files_in_range (λ o. o.named_wal) start_time end_time objects in
    (
      sort_asc-IsChronological found,
      sort_asc-perm found,
      λ f. (
        λ h. files_in_range-IsListed start_time end_time f objects ((Elem-sort_asc f found).0 h),
        λ h. (Elem-sort_asc f found).1 (IsListed-files_in_range start_time end_time f objects h),
      ),
    )

-- An entry is logged to the object of its second. Between the snapshot's time and the target, that
-- object is in the restore's range exactly if the entry is of a later second than the snapshot, or
-- the snapshot was taken on the full second.
pub in_range_exact :
    (snapshot_time target ts : ℕ)
    → snapshot_time ≤ ts
    → ts ≤ target
    → (in_range snapshot_time target (ts / 1000000) ≡ true)
      ↔ ((ts / 1000000 ≢ snapshot_time / 1000000) ⊎ (snapshot_time % 1000000 ≡ 0))
in_range_exact snapshot_time target ts h k = (
  λ e. elim (Bool-cases (nat_beq (snapshot_time % 1000000) 0)) [
    | inl full ↦ inr ((nat_beq_iff _ 0).0 full)
    | inr part ↦ inl (λ p. absurd (past e part p))
  ],
  λ c. in_range_intro (from_cases c) (omega arith),
)
  where
    past :
        in_range snapshot_time target (ts / 1000000) ≡ true
        → nat_beq (snapshot_time % 1000000) 0 ≡ false
        → ts / 1000000 ≡ snapshot_time / 1000000
        → ⊥
    past e part p = ground arith

    from_cases :
        (ts / 1000000 ≢ snapshot_time / 1000000) ⊎ (snapshot_time % 1000000 ≡ 0)
        → snapshot_time ≤ ts / 1000000 * 1000000
    from_cases (inl ne) = omega arith
    from_cases (inr z) = omega arith

    in_range_intro :
        snapshot_time ≤ ts / 1000000 * 1000000
        → ts / 1000000 * 1000000 ≤ target
        → in_range snapshot_time target (ts / 1000000) ≡ true
    in_range_intro a b = ground arith

files_in_range-ge :
    (named : WalObject → Bool) (start_time end_time : ℕ) (os : List WalObject)
    → All (λ (f : WalFile). start_time ≤ f.timestamp) (files_in_range named start_time end_time os)
unfolding files_in_range
files_in_range-ge named start_time end_time [] = tt
files_in_range-ge named start_time end_time (o ∷ os) = elim (Option-cases o.second) [
  | inl e ↦ ground (arith, files_in_range-ge named start_time end_time os)
  | inr (second, e) ↦ ground (arith, files_in_range-ge named start_time end_time os)
]

sort_asc-ge :
    (n : ℕ) (xs : List WalFile)
    → All (λ (f : WalFile). n ≤ f.timestamp) xs
    → All (λ (f : WalFile). n ≤ f.timestamp) (sort_asc xs)
unfolding sort_asc
sort_asc-ge n [] h = tt
sort_asc-ge n (x ∷ xs) h = All-insert_asc n x (sort_asc xs) h.0 (sort_asc-ge n xs h.1)

All-ne :
    (n m : ℕ) (xs : List WalFile)
    → m < n
    → All (λ (f : WalFile). n ≤ f.timestamp) xs
    → All (λ (f : WalFile). f.timestamp ≢ m) xs
All-ne n m [] h k = tt
All-ne n m (x ∷ xs) h k = (omega arith, All-ne n m xs h k.1)

-- A snapshot taken within a second hides the rest of that second's log: whatever the target and the
-- objects listed, the file of an entry logged in the snapshot's second is not among those replayed.
pub rest_of_second_lost :
    (snapshot_time target ts : ℕ) (objects : List WalObject)
    → ts / 1000000 ≡ snapshot_time / 1000000
    → snapshot_time % 1000000 ≢ 0
    → All
        (λ (f : WalFile). f.timestamp ≢ ts / 1000000 * 1000000)
        (find_wal_files_in_range snapshot_time target (some objects))
unfolding find_wal_files_in_range
rest_of_second_lost snapshot_time target ts objects same within =
    All-ne snapshot_time (ts / 1000000 * 1000000) _ (omega arith) (
      sort_asc-ge snapshot_time _
        (files_in_range-ge (λ o. o.named_wal) snapshot_time target objects))
