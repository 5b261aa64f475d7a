-- ===== src/Pitr/Timeline/Sorted.antt =====
-- The list of windows as it is looked up by the windows' starts, and the order of the starts
-- (backend/src/application/usecases/list_database_pitr.py, `sorted(windows.keys())`).
use kuzu_event_bus.Prelude.{
  ℕ, ◌<◌, ◌≡◌, refl, sym, ap, ◌∙◌, Option, none, some, List, [], ◌∷◌, map, arith, inl, inr,
  Bool-cases, Option-cases, All, ltb, ◌==◌, nat_key, nat_beq_iff, if◌then◌else◌,
}
use kuzu_event_bus.Dict
use kuzu_event_bus.Dict.{Dict, get-put}
use kuzu_event_bus.Pitr.{WalFile}
use kuzu_event_bus.Pitr.Timeline.{
  TimelineCall, Slot, window_start, or_new, group_files, insert_slot, sorted_slots, annotate,
}

-- The first window that starts at the given time.
abbrev pub window_at : ℕ → List Slot → Option Slot
window_at w [] = none
window_at w (s ∷ ss) = if s.start == w then some s else window_at w ss

-- A window without what the request may add to it.
abbrev pub bare : Option Slot → Option Slot
bare none = none
bare (some s) = some (record s { types = []; query = none })

-- Starts that rise from each window to the next.
abbrev pub IsAscending : List Slot → Type 0
IsAscending [] = Unit
IsAscending (s ∷ ss) = All (λ (y : Slot). s.start < y.start) ss × IsAscending ss

module _ (c : TimelineCall) (size : ℕ) (fs : List WalFile) where
  pub window_at-annotate :
      (w : ℕ) (ss : List Slot)
      → bare (window_at w (map (annotate c size fs) ss)) ≡ bare (window_at w ss)
  window_at-annotate w [] = refl
  window_at-annotate w (s ∷ ss) = elim (Bool-cases (s.start == w)) [
    | inl e ↦ simp e refl
    | inr e ↦ simp e (window_at-annotate w ss)
  ]

  All-annotate :
      (n : ℕ) (ss : List Slot)
      → All (λ (y : Slot). n < y.start) ss
      → All (λ (y : Slot). n < y.start) (map (annotate c size fs) ss)
  All-annotate n [] h = tt
  All-annotate n (s ∷ ss) h = (h.0, All-annotate n ss h.1)

  pub annotate-IsAscending :
      (ss : List Slot) → IsAscending ss → IsAscending (map (annotate c size fs) ss)
  annotate-IsAscending [] h = tt
  annotate-IsAscending (s ∷ ss) h = (All-annotate s.start ss h.0, annotate-IsAscending ss h.1)

window_at-insert_slot :
    (w : ℕ) (x : Slot) (ss : List Slot)
    → window_at w (insert_slot x ss) ≡ (if x.start == w then some x else window_at w ss)
window_at-insert_slot w x [] = refl
window_at-insert_slot w x (y ∷ ys) = elim (Bool-cases (ltb y.start x.start)) [
  | inl e ↦ simp e (ground (arith, window_at-insert_slot w x ys))
  | inr e ↦ simp e refl
]

All-insert_slot :
    (n : ℕ) (x : Slot) (ss : List Slot)
    → n < x.start
    → All (λ (y : Slot). n < y.start) ss
    → All (λ (y : Slot). n < y.start) (insert_slot x ss)
All-insert_slot n x [] h k = (h, tt)
All-insert_slot n x (y ∷ ys) h k = elim (Bool-cases (ltb y.start x.start)) [
  | inl e ↦ simp e (k.0, All-insert_slot n x ys h k.1)
  | inr e ↦ simp e (h, k)
]

All-lt :
    (m n : ℕ) (ss : List Slot)
    → m < n
    → All (λ (y : Slot). n < y.start) ss
    → All (λ (y : Slot). m < y.start) ss
All-lt m n [] h k = tt
All-lt m n (s ∷ ss) h k = (omega (arith, h, k.0), All-lt m n ss h k.1)

insert_slot-IsAscending :
    (x : Slot) (ss : List Slot)
    → window_at x.start ss ≡ none
    → IsAscending ss
    → IsAscending (insert_slot x ss)
insert_slot-IsAscending x [] free h = (tt, tt)
insert_slot-IsAscending x (y ∷ ys) free h = elim (Bool-cases (ltb y.start x.start)) [
  | inl e ↦ simp e (
    All-insert_slot y.start x ys (ground (arith, e)) h.0,
    insert_slot-IsAscending x ys (ground (arith, free)) h.1,
  )
  | inr e ↦
      let below : x.start < y.start = ground (arith, e, free) in
      simp e ((below, All-lt x.start y.start ys below h.0), h)
]

-- Each window stands under its start, and under no other key.
abbrev pub IsKeyed : Dict ℕ Slot → Type 0
IsKeyed [] = Unit
IsKeyed ((w, s) ∷ d) = (s.start ≡ w) × (Dict.get d w ≡ none) × IsKeyed d

pub window_at-sorted_slots :
    (w : ℕ) (d : Dict ℕ Slot) → IsKeyed d → window_at w (sorted_slots d) ≡ Dict.get d w
unfolding sorted_slots Dict.get
window_at-sorted_slots w [] k = refl
window_at-sorted_slots w ((v, s) ∷ d) k =
    window_at-insert_slot w s (sorted_slots d)
    ∙ simp k.0 (ap (λ o. if v == w then some s else o) (window_at-sorted_slots w d k.2))

pub sorted_slots-IsAscending : (d : Dict ℕ Slot) → IsKeyed d → IsAscending (sorted_slots d)
unfolding sorted_slots
sorted_slots-IsAscending [] k = tt
sorted_slots-IsAscending ((v, s) ∷ d) k =
    insert_slot-IsAscending s (sorted_slots d)
      (window_at-sorted_slots s.start d k.2 ∙ ap (Dict.get d) k.0 ∙ k.1)
      (sorted_slots-IsAscending d k.2)

get-empty : (w : ℕ) → Dict.get {V = Slot} [] w ≡ none
unfolding Dict.get
get-empty w = refl

put-IsKeyed :
    (w : ℕ) (x : Slot) (d : Dict ℕ Slot) → x.start ≡ w → IsKeyed d → IsKeyed (Dict.put d w x)
unfolding Dict.put
put-IsKeyed w x [] e k = (e, get-empty w, tt)
put-IsKeyed w x ((v, s) ∷ d) e k = elim (Bool-cases (v == w)) [
  | inl same ↦ simp same (e ∙ sym ((nat_beq_iff v w).0 same), k.1, k.2)
  | inr other ↦
      simp other (k.0, get-put d w v x ∙ ground (arith, other, k.1), put-IsKeyed w x d e k.2)
]

start-get : (w : ℕ) (d : Dict ℕ Slot) (s : Slot) → IsKeyed d → Dict.get d w ≡ some s → s.start ≡ w
unfolding Dict.get
start-get w [] s k h = cc
start-get w ((v, x) ∷ d) s k h = ground (arith, k.0, h, start-get w d s k.2)

start-or_new : (size w : ℕ) (d : Dict ℕ Slot) → IsKeyed d → (or_new size w (Dict.get d w)).start ≡ w
start-or_new size w d k = elim (Option-cases (Dict.get d w)) [
  | inl e ↦ rw e refl
  | inr (s, e) ↦ rw e (start-get w d s k e)
]

pub group_files-IsKeyed :
    (size : ℕ) (fs : List WalFile) (d : Dict ℕ Slot) → IsKeyed d → IsKeyed (group_files size fs d)
unfolding group_files
group_files-IsKeyed size [] d k = k
group_files-IsKeyed size (f ∷ fs) d k =
    group_files-IsKeyed size fs _
      (put-IsKeyed (window_start size f) _ d (start-or_new size (window_start size f) d k) k)
