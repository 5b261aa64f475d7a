-- ===== src/Pitr.antt =====
-- Point-in-time recovery: which snapshot and which WAL files a restore uses
-- (backend/src/application/usecases/restore_database_pitr.py, preview_database_pitr.py and
-- list_database_pitr.py). Times are microseconds, UTC. `created_at` is none where the ISO text does
-- not parse. Of an object of the WAL prefix the model keeps what its name says: that it begins with
-- `wal-`, that it ends with `.log`, and the second that the rest spells, if it spells one.
pub mod Nearest
pub mod Listed
pub mod Selection
pub mod Replay
pub mod Restore
pub mod Preview
pub mod Timeline
mod Tests
use kuzu_event_bus.Prelude.{
  ℕ, ◌*◌, Bool, true, false, not, ◌&&◌, ◌||◌, Option, none, some, List, [], ◌∷◌, ltb, leb,
  if◌then◌else◌,
}

pub record Snapshot : Type 0 where
  pub id : ℕ
  pub object_key : ℕ
  pub created_at : Option ℕ

-- A snapshot whose time has been read.
abbrev pub Timed : Type 0
Timed = ℕ × Snapshot

-- Python's `max(…, key=…)`: the first of the greatest.
abbrev pub later : Timed → Timed → Timed
later best x = if ltb best.0 x.0 then x else best

unfoldable pub max_from : Timed → List Timed → Timed
max_from best [] = best
max_from best (x ∷ xs) = max_from (later best x) xs

-- The restore's `_find_nearest_snapshot`: reading a time that does not parse raises (`none`).
abbrev pub cons_if : ℕ → Option ℕ → Snapshot → Option (List Timed) → Option (List Timed)
cons_if target none s rest = none
cons_if target (some t) s none = none
cons_if target (some t) s (some rest) = some (if leb t target then (t, s) ∷ rest else rest)

unfoldable pub valid_snapshots : ℕ → List Snapshot → Option (List Timed)
valid_snapshots target [] = some []
valid_snapshots target (s ∷ ss) = cons_if target s.created_at s (valid_snapshots target ss)

abbrev pub most_recent : List Timed → Option Timed
most_recent [] = none
most_recent (x ∷ xs) = some (max_from x xs)

unfoldable pub find_nearest_snapshot : ℕ → List Snapshot → Option (Option Timed)
find_nearest_snapshot target all_snapshots = elim (valid_snapshots target all_snapshots) [
  | none ↦ none
  | some valid ↦ some (most_recent valid)
]

-- The preview's `_find_nearest_snapshot` and the timeline's `_nearest_snapshot_before`: a time that
-- does not parse is passed over; then a stable sort, greatest first, and its head.
unfoldable pub candidates : ℕ → List Snapshot → List Timed
candidates target [] = []
candidates target (s ∷ ss) =
    let rest = candidates target ss in
    elim s.created_at [ none ↦ rest | some t ↦ if leb t target then (t, s) ∷ rest else rest ]

abbrev pub insert_desc : Timed → List Timed → List Timed
insert_desc x [] = x ∷ []
insert_desc x (y ∷ ys) = if ltb x.0 y.0 then y ∷ insert_desc x ys else x ∷ y ∷ ys

unfoldable pub sort_desc : List Timed → List Timed
sort_desc [] = []
sort_desc (x ∷ xs) = insert_desc x (sort_desc xs)

abbrev pub head? : List Timed → Option Timed
head? [] = none
head? (x ∷ xs) = some x

unfoldable pub nearest_snapshot_before : ℕ → List Snapshot → Option Timed
unfolding sort_desc
nearest_snapshot_before target snapshots = head? (sort_desc (candidates target snapshots))

pub record WalObject : Type 0 where
  pub key : ℕ
  pub named_wal : Bool
  pub named_log : Bool
  pub second : Option ℕ
  pub size : ℕ

pub record WalFile : Type 0 where
  pub key : ℕ
  pub timestamp : ℕ
  pub size : ℕ

-- `strptime` of the name's digits, in microseconds.
abbrev pub in_range : ℕ → ℕ → ℕ → Bool
in_range start_time end_time second =
    leb start_time (second * 1000000) && leb (second * 1000000) end_time

abbrev pub file_of : WalObject → ℕ → WalFile
file_of o second = record { key = o.key; timestamp = second * 1000000; size = o.size }

-- The objects whose names pass `named` and spell a second in the range.
unfoldable pub files_in_range : (WalObject → Bool) → ℕ → ℕ → List WalObject → List WalFile
files_in_range named start_time end_time [] = []
files_in_range named start_time end_time (o ∷ os) =
    let rest = files_in_range named start_time end_time os in
    if named o
    then (elim o.second [
      | none ↦ rest
      | some second ↦ if in_range start_time end_time second then file_of o second ∷ rest else rest
    ])
    else rest

-- Python's stable sort by timestamp.
abbrev pub insert_asc : WalFile → List WalFile → List WalFile
insert_asc x [] = x ∷ []
insert_asc x (y ∷ ys) = if ltb y.timestamp x.timestamp then y ∷ insert_asc x ys else x ∷ y ∷ ys

unfoldable pub sort_asc : List WalFile → List WalFile
sort_asc [] = []
sort_asc (x ∷ xs) = insert_asc x (sort_asc xs)

-- `_find_wal_files_in_range` of the restore; a listing that fails counts as no file.
unfoldable pub find_wal_files_in_range : ℕ → ℕ → Option (List WalObject) → List WalFile
unfolding files_in_range sort_asc
find_wal_files_in_range start_time end_time none = []
find_wal_files_in_range start_time end_time (some objects) =
    sort_asc (files_in_range (λ o. o.named_wal) start_time end_time objects)

-- The same step in the preview, which also asks for the suffix.
unfoldable pub preview_wal_files : ℕ → ℕ → List WalObject → List WalFile
unfolding files_in_range sort_asc
preview_wal_files start_time end_time objects =
    sort_asc (files_in_range (λ o. o.named_wal && o.named_log) start_time end_time objects)
