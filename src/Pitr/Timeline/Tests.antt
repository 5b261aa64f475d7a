-- ===== src/Pitr/Timeline/Tests.antt =====
-- A timeline of two minutes with a plan.
use kuzu_event_bus.Prelude.{
  ℕ, ◌≤◌, ◌≡◌, refl, true, none, some, List, [], ◌∷◌, All, Elem, nat_key, arith,
}
use kuzu_event_bus.Text.{text}
use kuzu_event_bus.Pitr.{
  Snapshot, Timed, WalObject, WalFile, candidates, sort_asc, preview_wal_files, files_in_range,
  nearest_snapshot_before, sort_desc,
}
use kuzu_event_bus.Pitr.Replay.{entry, garbage}
use kuzu_event_bus.Pitr.Timeline.{TimelineCall, wal_windows, snapshots_in}
use kuzu_event_bus.Pitr.Timeline.Listing.{
  Plan, Timeline, ok, plan_from, timeline_of, list_database_pitr, wal_files_in,
}
use kuzu_event_bus.Pitr.Timeline.Sorted.{IsAscending, bare, window_at}
use kuzu_event_bus.Pitr.Timeline.Windows.{total_files, total_bytes, wal_windows_exact}
use kuzu_event_bus.Pitr.Timeline.Agreement.{plan-agrees}

abbrev base : Snapshot
base = record { id = 1; object_key = 11; created_at = some 2000000 }

abbrev objects : List WalObject
objects =
    record { key = 4; named_wal = true; named_log = true; second = some 61; size = 10 }
    ∷ record { key = 3; named_wal = true; named_log = true; second = some 3; size = 20 }
    ∷ record { key = 5; named_wal = true; named_log = true; second = some 62; size = 5 }
    ∷ []

abbrev request : TimelineCall
request = record {
  allowed = true;
  now = 90000000;
  year_ago = some 0;
  start = none;
  end = none;
  window = none;
  include_queries = true;
  include_types = true;
  target_timestamp = some 61500000;
  all_snapshots = base ∷ [];
  list_objects = some objects;
  download_wal = λ key. some (garbage ∷ entry (some 3000000) (text "CREATE (n)") ∷ []);
}

abbrev files : List WalFile
files =
    record { key = 4; timestamp = 61000000; size = 10 }
    ∷ record { key = 3; timestamp = 3000000; size = 20 }
    ∷ record { key = 5; timestamp = 62000000; size = 5 }
    ∷ []

wal_windows_exact_example :
    IsAscending (wal_windows request 60000000 files)
    × (bare (window_at 60000000 (wal_windows request 60000000 files))
        ≡ some (record {
          start = 60000000;
          end = 119000000;
          files = 2;
          bytes = 15;
          types = [];
          query = none;
        }))
    × (total_files (wal_windows request 60000000 files) ≡ 3)
    × (total_bytes (wal_windows request 60000000 files) ≡ 35)
wal_windows_exact_example = wal_windows_exact request 60000000 60000000 files

abbrev plan : Plan
plan = plan_from 61500000 files (2000000, base)

abbrev timeline : Timeline
timeline = timeline_of request 0 90000000 files (some plan)

listed : list_database_pitr request ≡ ok timeline
unfolding list_database_pitr wal_files_in files_in_range snapshots_in nearest_snapshot_before
    candidates sort_desc
listed = refl

plan-agrees_example :
    (time : ℕ) × (base.created_at ≡ some time)
    × (time ≤ 61500000)
    × Elem base (base ∷ [])
    × All (λ (x : Timed). x.0 ≤ time) (candidates 61500000 (base ∷ []))
    × (sort_asc plan.wal_files ≡ preview_wal_files time 61500000 objects)
plan-agrees_example = plan-agrees request objects timeline plan refl listed refl (omega arith)
