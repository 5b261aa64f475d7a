-- ===== src/Pitr/Listed.antt =====
-- Which files the listing of the WAL objects comes to
-- (backend/src/application/usecases/restore_database_pitr.py, `_find_wal_files_in_range`).
use kuzu_event_bus.Prelude.{
  ℕ, ◌*◌, ◌≤◌, ◌≡◌, refl, sym, ap, ◌∙◌, true, some, List, [], ◌∷◌, arith, Elem, inl, inr,
  Option-cases, Bool-cases,
}
use kuzu_event_bus.Pitr.{WalObject, WalFile, in_range, file_of, files_in_range}

-- A file is that of a listed object named as a WAL file, of a second from the start to the end.
abbrev pub IsListed : ℕ → ℕ → List WalObject → WalFile → Type 0
IsListed start_time end_time objects f =
    (o : WalObject) × (second : ℕ) × Elem o objects
    × (o.named_wal ≡ true)
    × (o.second ≡ some second)
    × (start_time ≤ second * 1000000)
    × (second * 1000000 ≤ end_time)
    × (f ≡ record { key = o.key; timestamp = second * 1000000; size = o.size })

module _ (start_time end_time : ℕ) (f : WalFile) where
  IsListed-later :
      (o : WalObject) (os : List WalObject)
      → IsListed start_time end_time os f
      → IsListed start_time end_time (o ∷ os) f
  IsListed-later o os (p, second, member, a, b, c, d, e) = (p, second, inr member, a, b, c, d, e)

  IsListed-first :
      (o : WalObject) (os : List WalObject) (second : ℕ)
      → o.named_wal ≡ true
      → o.second ≡ some second
      → in_range start_time end_time second ≡ true
      → (Elem f (files_in_range (λ o. o.named_wal) start_time end_time os)
          → IsListed start_time end_time (o ∷ os) f)
      → Elem f (file_of o second ∷ files_in_range (λ o. o.named_wal) start_time end_time os)
      → IsListed start_time end_time (o ∷ os) f
  IsListed-first o os second named spelled inside rest (inl same) =
      (o, second, inl refl, named, spelled, ground arith, ground arith, sym same)
  IsListed-first o os second named spelled inside rest (inr m) = rest m

  pub files_in_range-IsListed :
      (os : List WalObject)
      → Elem f (files_in_range (λ o. o.named_wal) start_time end_time os)
      → IsListed start_time end_time os f
  unfolding files_in_range
  files_in_range-IsListed [] = λ h. elim h [ ]
  files_in_range-IsListed (o ∷ os) =
      let rest : Elem f (files_in_range (λ o. o.named_wal) start_time end_time os)
          → IsListed start_time end_time (o ∷ os) f =
        λ m. IsListed-later o os (files_in_range-IsListed os m) in
      elim (Bool-cases o.named_wal) [
        | inl named ↦ elim (Option-cases o.second) [
          | inl unspelled ↦ simp (named, unspelled) rest
          | inr (second, spelled) ↦ elim (Bool-cases (in_range start_time end_time second)) [
            | inl inside ↦
                simp (named, spelled, inside) (IsListed-first o os second named spelled inside rest)
            | inr outside ↦ simp (named, spelled, outside) rest
          ]
        ]
        | inr unnamed ↦ simp unnamed rest
      ]

  -- What is found in the later objects is found with one more.
  Elem-files_in_range_later :
      (o : WalObject) (os : List WalObject)
      → Elem f (files_in_range (λ o. o.named_wal) start_time end_time os)
      → Elem f (files_in_range (λ o. o.named_wal) start_time end_time (o ∷ os))
  unfolding files_in_range
  Elem-files_in_range_later o os m = elim (Bool-cases o.named_wal) [
    | inl named ↦ elim (Option-cases o.second) [
      | inl unspelled ↦ rw (named, unspelled) m
      | inr (second, spelled) ↦ elim (Bool-cases (in_range start_time end_time second)) [
        | inl inside ↦ rw (named, spelled, inside) (inr m)
        | inr outside ↦ rw (named, spelled, outside) m
      ]
    ]
    | inr unnamed ↦ rw unnamed m
  ]

  pub IsListed-files_in_range :
      (os : List WalObject)
      → IsListed start_time end_time os f
      → Elem f (files_in_range (λ o. o.named_wal) start_time end_time os)
  unfolding files_in_range
  IsListed-files_in_range [] (o, second, member, named, spelled, low, high, e) = elim member [ ]
  IsListed-files_in_range (x ∷ os) (o, second, inl same, named, spelled, low, high, e) =
      let inside : in_range start_time end_time second ≡ true = ground (arith, low, high) in
      let named' : x.named_wal ≡ true = ap (λ (y : WalObject). y.named_wal) same ∙ named in
      let spelled' : x.second ≡ some second = ap (λ (y : WalObject). y.second) same ∙ spelled in
      rw (named', spelled', inside) (inl (ap (λ y. file_of y second) same ∙ sym e))
  IsListed-files_in_range (x ∷ os) (o, second, inr member, named, spelled, low, high, e) =
      Elem-files_in_range_later x os
        (IsListed-files_in_range os (o, second, member, named, spelled, low, high, e))
