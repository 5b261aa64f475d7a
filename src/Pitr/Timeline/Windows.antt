-- ===== src/Pitr/Timeline/Windows.antt =====
-- The windows of the timeline against the files that are listed
-- (backend/src/application/usecases/list_database_pitr.py).
use kuzu_event_bus.Prelude.{
  ℕ, suc, ◌+◌, ◌≡◌, refl, ap, ◌∙◌, Option, none, some, List, [], ◌∷◌, map, length, arith, inl, inr,
  Bool-cases, ltb, ◌==◌, nat_key, nat_beq_iff, if◌then◌else◌,
}
use kuzu_event_bus.Dict
use kuzu_event_bus.Dict.{Dict, get-put}
use kuzu_event_bus.Pitr.{WalFile}
use kuzu_event_bus.Pitr.Timeline.{
  TimelineCall, Slot, window_start, new_slot, or_new, with_file, group_files, files_of, insert_slot,
  sorted_slots, annotate, wal_windows,
}
use kuzu_event_bus.Pitr.Timeline.Listing.{total_size}
use kuzu_event_bus.Pitr.Timeline.Sorted.{
  window_at, bare, IsAscending, IsKeyed, window_at-annotate, annotate-IsAscending,
  window_at-sorted_slots, sorted_slots-IsAscending, group_files-IsKeyed,
}

-- The sums over the windows of a dictionary.
abbrev pub total_files : List Slot → ℕ
total_files [] = 0
total_files (s ∷ ss) = s.files + total_files ss

abbrev pub total_bytes : List Slot → ℕ
total_bytes [] = 0
total_bytes (s ∷ ss) = s.bytes + total_bytes ss

abbrev dict_files : Dict ℕ Slot → ℕ
dict_files [] = 0
dict_files ((w, s) ∷ d) = s.files + dict_files d

abbrev dict_bytes : Dict ℕ Slot → ℕ
dict_bytes [] = 0
dict_bytes ((w, s) ∷ d) = s.bytes + dict_bytes d

dict_files-put :
    (size w : ℕ) (f : WalFile) (d : Dict ℕ Slot)
    → dict_files (Dict.put d w (with_file f (or_new size w (Dict.get d w)))) ≡ suc (dict_files d)
unfolding Dict.get Dict.put
dict_files-put size w f [] = omega arith
dict_files-put size w f ((v, s) ∷ d) = elim (Bool-cases (v == w)) [
  | inl e ↦ simp e (omega arith)
  | inr e ↦ simp e (omega (arith, dict_files-put size w f d))
]

dict_bytes-put :
    (size w : ℕ) (f : WalFile) (d : Dict ℕ Slot)
    → dict_bytes (Dict.put d w (with_file f (or_new size w (Dict.get d w)))) ≡ f.size + dict_bytes d
unfolding Dict.get Dict.put
dict_bytes-put size w f [] = omega arith
dict_bytes-put size w f ((v, s) ∷ d) = elim (Bool-cases (v == w)) [
  | inl e ↦ simp e (omega arith)
  | inr e ↦ simp e (omega (arith, dict_bytes-put size w f d))
]

group_files-totals :
    (size : ℕ) (fs : List WalFile) (d : Dict ℕ Slot)
    → (dict_files (group_files size fs d) ≡ length fs + dict_files d)
      × (dict_bytes (group_files size fs d) ≡ total_size fs + dict_bytes d)
unfolding group_files
group_files-totals size [] d = (omega arith, omega arith)
group_files-totals size (f ∷ fs) d =
    let w = window_start size f in
    let d' = Dict.put d w (with_file f (or_new size w (Dict.get d w))) in
    let (n, b) = group_files-totals size fs d' in
    (omega (arith, n, dict_files-put size w f d), omega (arith, b, dict_bytes-put size w f d))

insert_slot-totals :
    (x : Slot) (ss : List Slot)
    → (total_files (insert_slot x ss) ≡ x.files + total_files ss)
      × (total_bytes (insert_slot x ss) ≡ x.bytes + total_bytes ss)
insert_slot-totals x [] = (refl, refl)
insert_slot-totals x (y ∷ ys) = elim (Bool-cases (ltb y.start x.start)) [
  | inl e ↦ let (n, b) = insert_slot-totals x ys in simp e ((omega (arith, n), omega (arith, b)))
  | inr e ↦ simp e ((refl, refl))
]

sorted_slots-totals :
    (d : Dict ℕ Slot)
    → (total_files (sorted_slots d) ≡ dict_files d) × (total_bytes (sorted_slots d) ≡ dict_bytes d)
unfolding sorted_slots
sorted_slots-totals [] = (refl, refl)
sorted_slots-totals ((w, s) ∷ d) =
    let (n, b) = insert_slot-totals s (sorted_slots d) in
    let (m, c) = sorted_slots-totals d in (omega (arith, n, m), omega (arith, b, c))

annotate-totals :
    (c : TimelineCall) (size : ℕ) (fs : List WalFile) (ss : List Slot)
    → (total_files (map (annotate c size fs) ss) ≡ total_files ss)
      × (total_bytes (map (annotate c size fs) ss) ≡ total_bytes ss)
annotate-totals c size fs [] = (refl, refl)
annotate-totals c size fs (s ∷ ss) =
    let (n, b) = annotate-totals c size fs ss in (ap (λ k. s.files + k) n, ap (λ k. s.bytes + k) b)

-- One file after the other, put into a window.
abbrev filled : ℕ → ℕ → List WalFile → Option Slot → Option Slot
filled size w [] o = o
filled size w (f ∷ fs) o =
    filled size w fs (if window_start size f == w then some (with_file f (or_new size w o)) else o)

group_files-get :
    (size w : ℕ) (fs : List WalFile) (d : Dict ℕ Slot)
    → Dict.get (group_files size fs d) w ≡ filled size w fs (Dict.get d w)
unfolding group_files
group_files-get size w [] d = refl
group_files-get size w (f ∷ fs) d =
    group_files-get size w fs _
    ∙ ap (filled size w fs) (get-put d (window_start size f) w _ ∙ same_window)
  where
    same_window :
        (if window_start size f == w
          then some
              (with_file f (or_new size (window_start size f) (Dict.get d (window_start size f))))
          else Dict.get d w)
        ≡ (if window_start size f == w
            then some (with_file f (or_new size w (Dict.get d w)))
            else Dict.get d w)
    same_window = elim (Bool-cases (window_start size f == w)) [
      | inl e ↦ simp e (
          ap (λ k. some (with_file f (or_new size k (Dict.get d k))))
            ((nat_beq_iff (window_start size f) w).0 e))
      | inr e ↦ simp e refl
    ]

abbrev more : List WalFile → Slot → Slot
more fs s = record s { files = s.files + length fs; bytes = s.bytes + total_size fs }

-- What a window of the given files is: nothing if there are none.
abbrev pub window_of : ℕ → ℕ → List WalFile → Option Slot
window_of size w [] = none
window_of size w (f ∷ fs) =
    some (record (new_slot size w) { files = length (f ∷ fs); bytes = total_size (f ∷ fs) })

same_slot :
    (s : Slot) {n m b c : ℕ}
    → n ≡ m
    → b ≡ c
    → record s { files = n; bytes = b } ≡ record s { files = m; bytes = c }
same_slot s hn hb = cc

more-with_file :
    (fs : List WalFile) (f : WalFile) (s : Slot) → more fs (with_file f s) ≡ more (f ∷ fs) s
more-with_file fs f s = same_slot s (omega arith) (omega arith)

filled-some :
    (size w : ℕ) (fs : List WalFile) (s : Slot)
    → filled size w fs (some s) ≡ some (more (files_of size w fs) s)
filled-some size w [] s = ap some (same_slot s (omega arith) (omega arith))
filled-some size w (f ∷ fs) s = elim (Bool-cases (window_start size f == w)) [
  | inl e ↦
      simp e
        (filled-some size w fs (with_file f s) ∙ ap some (more-with_file (files_of size w fs) f s))
  | inr e ↦ simp e (filled-some size w fs s)
]

filled-none :
    (size w : ℕ) (fs : List WalFile) → filled size w fs none ≡ window_of size w (files_of size w fs)
filled-none size w [] = refl
filled-none size w (f ∷ fs) = elim (Bool-cases (window_start size f == w)) [
  | inl e ↦ simp e (
      filled-some size w fs (with_file f (new_slot size w))
      ∙ ap some (same_slot (new_slot size w) (omega arith) (omega arith)))
  | inr e ↦ simp e (filled-none size w fs)
]

bare-window_of : (size w : ℕ) (fs : List WalFile) → bare (window_of size w fs) ≡ window_of size w fs
bare-window_of size w [] = refl
bare-window_of size w (f ∷ fs) = refl

-- The starts of the listed windows rise. There is a window of a given start exactly if a file falls
-- into it, and then it has the end of that window and the number and the total size of its own files;
-- what the request may add, the query and the types, is left out here. All windows together count each
-- file of the timeline once.
pub wal_windows_exact :
    (c : TimelineCall) (size w : ℕ) (fs : List WalFile)
    → IsAscending (wal_windows c size fs)
      × (bare (window_at w (wal_windows c size fs)) ≡ window_of size w (files_of size w fs))
      × (total_files (wal_windows c size fs) ≡ length fs)
      × (total_bytes (wal_windows c size fs) ≡ total_size fs)
unfolding wal_windows Dict.get
wal_windows_exact c size w fs =
    let d = group_files size fs [] in
    let keyed : IsKeyed d = group_files-IsKeyed size fs [] tt in
    let (n, b) = annotate-totals c size fs (sorted_slots d) in
    let (m, k) = sorted_slots-totals d in
    let (i, j) = group_files-totals size fs [] in
    (
      annotate-IsAscending c size fs (sorted_slots d) (sorted_slots-IsAscending d keyed),
      window_at-annotate c size fs w (sorted_slots d)
          ∙ ap bare (
              window_at-sorted_slots w d keyed
              ∙ group_files-get size w fs []
              ∙ filled-none size w fs)
          ∙ bare-window_of size w (files_of size w fs),
      omega (arith, n, m, i),
      omega (arith, b, k, j),
    )
