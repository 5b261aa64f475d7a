-- ===== src/Pitr/Timeline/Listing.antt =====
-- The whole call of the timeline: guards, snapshots, WAL files, windows and the plan
-- (backend/src/application/usecases/list_database_pitr.py).
use kuzu_event_bus.Prelude.{
  ℕ, ◌+◌, Bool, ◌&&◌, Option, none, some, List, [], ◌∷◌, keep, length, leb, if◌then◌else◌,
}
use kuzu_event_bus.Pitr.{
  Snapshot, Timed, WalObject, WalFile, nearest_snapshot_before, files_in_range,
}
use kuzu_event_bus.Pitr.Timeline.{TimelineCall, Slot, snapshots_in, window_size, wal_windows}

pub record Plan : Type 0 where
  pub target_timestamp : ℕ
  pub snapshot : Snapshot
  pub wal_files : List WalFile
  pub wal_count : ℕ
  pub bytes_to_read : ℕ

pub record Timeline : Type 0 where
  pub start : ℕ
  pub end : ℕ
  pub snapshots : List Snapshot
  pub wal_files : List WalFile
  pub wal_windows : List Slot
  pub plan : Option Plan

pub data TimelineError : Type 0 where
  permission_error value_error listing_failed file_not_found : TimelineError

pub data Listed : Type 0 where
  ok : Timeline → Listed
  err : TimelineError → Listed

abbrev pub total_size : List WalFile → ℕ
total_size [] = 0
total_size (f ∷ fs) = f.size + total_size fs

abbrev pub between : ℕ → ℕ → WalFile → Bool
between start target f = leb start f.timestamp && leb f.timestamp target

abbrev pub plan_from : ℕ → List WalFile → Timed → Plan
plan_from target files (time, snapshot) =
    let to_apply = keep (between time target) files in
    record {
      target_timestamp = target;
      snapshot = snapshot;
      wal_files = to_apply;
      wal_count = length to_apply;
      bytes_to_read = total_size to_apply;
    }

-- The files of the listing that are named as WAL files of a second in the range.
unfoldable pub wal_files_in : ℕ → ℕ → List WalObject → List WalFile
wal_files_in start end objects = files_in_range (λ o. o.named_wal && o.named_log) start end objects

abbrev pub timeline_of : TimelineCall → ℕ → ℕ → List WalFile → Option Plan → Timeline
timeline_of c start end files plan = record {
  start = start;
  end = end;
  snapshots = snapshots_in start end c.all_snapshots;
  wal_files = files;
  wal_windows = wal_windows c (window_size c.window) files;
  plan = plan;
}

abbrev pub with_plan : TimelineCall → ℕ → ℕ → List WalFile → ℕ → Option Timed → Listed
with_plan c start end files target none = err file_not_found
with_plan c start end files target (some nearest) =
    ok (timeline_of c start end files (some (plan_from target files nearest)))

abbrev pub planned : TimelineCall → ℕ → ℕ → List WalFile → Option ℕ → Listed
planned c start end files none = ok (timeline_of c start end files none)
planned c start end files (some target) =
    with_plan c start end files target
      (nearest_snapshot_before target (snapshots_in start end c.all_snapshots))

abbrev pub listed_objects : TimelineCall → ℕ → ℕ → Option (List WalObject) → Listed
listed_objects c start end none = err listing_failed
listed_objects c start end (some objects) =
    planned c start end (wal_files_in start end objects) c.target_timestamp

abbrev pub end_or : Option ℕ → ℕ → ℕ
end_or none now = now
end_or (some t) now = t

abbrev pub start_or : Option ℕ → Option ℕ → Option ℕ
start_or none year_ago = year_ago
start_or (some t) year_ago = some t

abbrev pub started : TimelineCall → Option ℕ → Listed
started c none = err value_error
started c (some start) = listed_objects c start (end_or c.end c.now) c.list_objects

unfoldable pub list_database_pitr : TimelineCall → Listed
list_database_pitr c =
    if c.allowed then started c (start_or c.start c.year_ago) else err permission_error
