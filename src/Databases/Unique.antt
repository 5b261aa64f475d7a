-- ===== src/Databases/Unique.antt =====
-- Tables whose rows are pairwise apart: what the key and uniqueness constraints of `kuzu_databases`
-- and `kuzu_db_snapshots` guarantee (backend/src/infrastructure/database/models.py).
use kuzu_event_bus.Prelude.{
  ◌≡◌, refl, Bool, false, none, some, List, [], ◌∷◌, ◌++◌, keep, All, arith, inl, inr, Bool-cases,
  nat_key, nat_beq_iff,
}
use kuzu_event_bus.Databases.Tables.{
  DatabaseRow, clashes, some_clash, save_database, SnapshotRow, collides, some_collision,
  save_snapshot, find_snapshot, find_database,
}

-- No later row is in the relation with an earlier one.
abbrev pub Apart {ℓ} : {A : Type ℓ} → (A → A → Bool) → List A → Type ℓ
Apart related [] = Unit
Apart related (x ∷ xs) = All (λ y. related y x ≡ false) xs × Apart related xs

module _ {ℓ} {A : Type ℓ} where
  pub All-keep {κ} : (P : A → Type κ) (p : A → Bool) (xs : List A) → All P xs → All P (keep p xs)
  All-keep P p [] h = tt
  All-keep P p (x ∷ xs) h = elim (Bool-cases (p x)) [
    | inl e ↦ rw e ((h.0, All-keep P p xs h.1))
    | inr e ↦ rw e (All-keep P p xs h.1)
  ]

  pub All-snoc {κ} : (P : A → Type κ) (xs : List A) (x : A) → All P xs → P x → All P (xs ++ x ∷ [])
  All-snoc P [] x h k = (k, tt)
  All-snoc P (y ∷ xs) x h k = (h.0, All-snoc P xs x h.1 k)

  module _ (related : A → A → Bool) where
    pub Apart-keep : (p : A → Bool) (xs : List A) → Apart related xs → Apart related (keep p xs)
    Apart-keep p [] h = tt
    Apart-keep p (x ∷ xs) h = elim (Bool-cases (p x)) [
      | inl e ↦ rw e ((All-keep _ p xs h.0, Apart-keep p xs h.1))
      | inr e ↦ rw e (Apart-keep p xs h.1)
    ]

    Apart-snoc :
        (xs : List A) (x : A)
        → Apart related xs
        → All (λ y. related x y ≡ false) xs
        → Apart related (xs ++ x ∷ [])
    Apart-snoc [] x h k = (tt, tt)
    Apart-snoc (y ∷ xs) x h k = (All-snoc _ xs x h.0 k.0, Apart-snoc xs x h.1 k.1)

no_clash :
    (new : DatabaseRow) (rs : List DatabaseRow)
    → some_clash new rs ≡ false
    → All (λ old. clashes new old ≡ false) rs
no_clash new [] h = tt
no_clash new (r ∷ rs) h = (ground arith, no_clash new rs (ground arith))

no_collision :
    (new : SnapshotRow) (rs : List SnapshotRow)
    → some_collision new rs ≡ false
    → All (λ old. collides new old ≡ false) rs
no_collision new [] h = tt
no_collision new (r ∷ rs) h = (ground arith, no_collision new rs (ground arith))

pub save_database-rows :
    (new : DatabaseRow) (rs : List DatabaseRow) {rows : List DatabaseRow}
    → save_database new rs ≡ some rows
    → (some_clash new rs ≡ false) × (rows ≡ rs ++ new ∷ [])
unfolding save_database
save_database-rows new rs {rows} h = ground arith

pub save_snapshot-rows :
    (new : SnapshotRow) (rs : List SnapshotRow) {rows : List SnapshotRow}
    → save_snapshot new rs ≡ some rows
    → (some_collision new rs ≡ false) × (rows ≡ rs ++ new ∷ [])
unfolding save_snapshot
save_snapshot-rows new rs {rows} h = ground arith

pub save_database-Apart :
    (new : DatabaseRow) (rs : List DatabaseRow) {rows : List DatabaseRow}
    → save_database new rs ≡ some rows
    → Apart clashes rs
    → Apart clashes rows
save_database-Apart new rs {rows} h k =
    let (free, shape) = save_database-rows new rs h in
    rw shape (Apart-snoc clashes rs new k (no_clash new rs free))

pub save_snapshot-Apart :
    (new : SnapshotRow) (rs : List SnapshotRow) {rows : List SnapshotRow}
    → save_snapshot new rs ≡ some rows
    → Apart collides rs
    → Apart collides rows
save_snapshot-Apart new rs {rows} h k =
    let (free, shape) = save_snapshot-rows new rs h in
    rw shape (Apart-snoc collides rs new k (no_collision new rs free))

find_snapshot-snoc :
    (new : SnapshotRow) (rs : List SnapshotRow)
    → some_collision new rs ≡ false
    → find_snapshot new.id (rs ++ new ∷ []) ≡ some new
unfolding find_snapshot
find_snapshot-snoc new [] h = ground (arith, nat_beq_iff new.id new.id)
find_snapshot-snoc new (r ∷ rs) h = ground (arith, find_snapshot-snoc new rs)

pub find_snapshot-saved :
    (new : SnapshotRow) (rs : List SnapshotRow) {rows : List SnapshotRow}
    → save_snapshot new rs ≡ some rows
    → find_snapshot new.id rows ≡ some new
find_snapshot-saved new rs {rows} h =
    let (free, shape) = save_snapshot-rows new rs h in rw shape (find_snapshot-snoc new rs free)

find_database-snoc :
    (new : DatabaseRow) (rs : List DatabaseRow)
    → some_clash new rs ≡ false
    → find_database new.id (rs ++ new ∷ []) ≡ some new
unfolding find_database
find_database-snoc new [] h = ground (arith, nat_beq_iff new.id new.id)
find_database-snoc new (r ∷ rs) h = ground (arith, find_database-snoc new rs)

pub find_database-saved :
    (new : DatabaseRow) (rs : List DatabaseRow) {rows : List DatabaseRow}
    → save_database new rs ≡ some rows
    → find_database new.id rows ≡ some new
find_database-saved new rs {rows} h =
    let (free, shape) = save_database-rows new rs h in rw shape (find_database-snoc new rs free)

pub find_database-new :
    (new : DatabaseRow) (rs : List DatabaseRow)
    → some_clash new rs ≡ false
    → find_database new.id rs ≡ none
unfolding find_database
find_database-new new [] h = refl
find_database-new new (r ∷ rs) h = ground (arith, find_database-new new rs)
