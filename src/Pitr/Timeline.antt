-- ===== src/Pitr/Timeline.antt =====
-- ListDatabasePITRUseCase.execute (backend/src/application/usecases/list_database_pitr.py): the
-- timeline of a database's snapshots and WAL files, with its windows; Listing has the whole call. Times are
-- microseconds; `year_ago` is now with the year before, which does not exist on 29 February. The rows
-- that a WAL entry may carry are left out.
pub mod Listing
pub mod Types
pub mod Sorted
pub mod Windows
pub mod Agreement
mod Tests
use kuzu_event_bus.Prelude.{
  ℕ, zero, suc, ◌+◌, ◌-◌, ◌*◌, ◌/◌, Bool, true, false, not, ◌&&◌, Option, none, some, List, [], ◌∷◌,
  map, keep, length, ltb, leb, ◌==◌, nat_key, if◌then◌else◌,
}
use kuzu_event_bus.Dict
use kuzu_event_bus.Dict.{Dict}
use kuzu_event_bus.Text.{Text, text, text_key, lower, upper, strip, starts_with}
use kuzu_event_bus.Pitr.{
  Snapshot, Timed, WalObject, WalFile, nearest_snapshot_before, files_in_range,
}
use kuzu_event_bus.Pitr.Replay.{Line, blank, garbage, entry}

-- `_query_type`
abbrev pub type_labels : List (Text × Text)
type_labels =
    (text "CREATE", text "CREATE")
    ∷ (text "MERGE", text "MERGE")
    ∷ (text "DELETE", text "DELETE")
    ∷ (text "SET ", text "SET")
    ∷ (text "DROP", text "DROP")
    ∷ (text "ALTER", text "ALTER")
    ∷ (text "INSERT", text "INSERT")
    ∷ (text "UPDATE", text "UPDATE")
    ∷ []

abbrev pub read_label : Text
read_label = text "READ"

abbrev pub first_label : List (Text × Text) → Text → Text
first_label [] q = read_label
first_label ((p, label) ∷ ls) q = if starts_with p q then label else first_label ls q

unfoldable pub query_type : Text → Text
unfolding strip upper
query_type query = first_label type_labels (upper (strip query))

pub record TimelineCall : Type 0 where
  pub allowed : Bool
  pub now : ℕ
  pub year_ago : Option ℕ
  pub start : Option ℕ
  pub end : Option ℕ
  pub window : Option Text
  pub include_queries : Bool
  pub include_types : Bool
  pub target_timestamp : Option ℕ
  pub all_snapshots : List Snapshot
  pub list_objects : Option (List WalObject)
  pub download_wal : ℕ → Option (List Line)

pub record Slot : Type 0 where
  pub start : ℕ
  pub end : ℕ
  pub files : ℕ
  pub bytes : ℕ
  pub types : Dict Text ℕ
  pub query : Option Text

-- 1. The snapshots of the range; a time that does not parse is passed over.
abbrev pub in_span : ℕ → ℕ → Option ℕ → Bool
in_span start end none = false
in_span start end (some t) = leb start t && leb t end

unfoldable pub snapshots_in : ℕ → ℕ → List Snapshot → List Snapshot
snapshots_in start end ss = keep (λ (s : Snapshot). in_span start end s.created_at) ss

-- 3. The windows: an hour if that is asked for, a minute otherwise.
abbrev pub window_size : Option Text → ℕ
window_size none = 60000000
window_size (some w) = if lower w == text "hour" then 3600000000 else 60000000

abbrev pub window_start : ℕ → WalFile → ℕ
window_start size f = f.timestamp / size * size

-- The last second of the window.
abbrev pub new_slot : ℕ → ℕ → Slot
new_slot size start = record {
  start = start;
  end = start + (size - 1000000);
  files = 0;
  bytes = 0;
  types = [];
  query = none;
}

-- windows.setdefault
abbrev pub or_new : ℕ → ℕ → Option Slot → Slot
or_new size start none = new_slot size start
or_new size start (some slot) = slot

abbrev pub with_file : WalFile → Slot → Slot
with_file f slot = record slot { files = slot.files + 1; bytes = slot.bytes + f.size }

unfoldable pub group_files : ℕ → List WalFile → Dict ℕ Slot → Dict ℕ Slot
group_files size [] d = d
group_files size (f ∷ fs) d = group_files size fs (
    Dict.put d (window_start size f)
      (with_file f (or_new size (window_start size f) (Dict.get d (window_start size f)))))

-- The files of a window, in the order of the listing.
abbrev pub files_of : ℕ → ℕ → List WalFile → List WalFile
files_of size start fs = keep (λ f. window_start size f == start) fs

-- max(files, key=timestamp): the first of the latest
abbrev pub later_file : WalFile → WalFile → WalFile
later_file best f = if ltb best.timestamp f.timestamp then f else best

abbrev pub latest_file : WalFile → List WalFile → WalFile
latest_file best [] = best
latest_file best (f ∷ fs) = latest_file (later_file best f) fs

-- The query of the last line that is not blank; no JSON in it, or none such, is nothing.
abbrev pub last_query : Option Text → List Line → Option Text
last_query found [] = found
last_query found (blank ∷ ls) = last_query found ls
last_query found (garbage ∷ ls) = last_query none ls
last_query found (entry ts query ∷ ls) = last_query (some query) ls

abbrev pub query_in : Option (List Line) → Option Text
query_in none = none
query_in (some ls) = last_query none ls

abbrev pub window_query : TimelineCall → List WalFile → Option Text
window_query c [] = none
window_query c (f ∷ fs) = query_in (c.download_wal (latest_file f fs).key)

-- counts[t] += 1
abbrev pub or_zero : Option ℕ → ℕ
or_zero none = 0
or_zero (some n) = n

unfoldable pub count_types : List Line → Dict Text ℕ → Dict Text ℕ
unfolding query_type
count_types [] d = d
count_types (blank ∷ ls) d = count_types ls d
count_types (garbage ∷ ls) d = count_types ls d
count_types (entry ts query ∷ ls) d =
    count_types ls (Dict.put d (query_type query) (or_zero (Dict.get d (query_type query)) + 1))

abbrev pub lines_or_none : Option (List Line) → List Line
lines_or_none none = []
lines_or_none (some ls) = ls

abbrev pub window_types : TimelineCall → List WalFile → Dict Text ℕ → Dict Text ℕ
window_types c [] d = d
window_types c (f ∷ fs) d = window_types c fs (count_types (lines_or_none (c.download_wal f.key)) d)

abbrev pub annotate : TimelineCall → ℕ → List WalFile → Slot → Slot
annotate c size fs slot = record slot {
  query = if c.include_queries then window_query c (files_of size slot.start fs) else none;
  types = if c.include_types then window_types c (files_of size slot.start fs) [] else [];
}

-- sorted(windows.keys())
abbrev pub insert_slot : Slot → List Slot → List Slot
insert_slot x [] = x ∷ []
insert_slot x (y ∷ ys) =
    let rest = insert_slot x ys in if ltb y.start x.start then y ∷ rest else x ∷ y ∷ ys

unfoldable pub sorted_slots : Dict ℕ Slot → List Slot
sorted_slots [] = []
sorted_slots ((start, slot) ∷ d) = insert_slot slot (sorted_slots d)

unfoldable pub wal_windows : TimelineCall → ℕ → List WalFile → List Slot
unfolding group_files sorted_slots
wal_windows c size fs = map (annotate c size fs) (sorted_slots (group_files size fs []))
