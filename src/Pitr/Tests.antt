-- ===== src/Pitr/Tests.antt =====
-- A concrete restore: a snapshot, a log of three entries and a target between the last two. The
-- contents are the list of the queries executed.
use kuzu_event_bus.Prelude.{
  ℕ, ◌/◌, ◌*◌, ◌≡◌, ◌≢◌, ◌⊎◌, refl, true, false, Option, none, some, List, [], ◌∷◌, ◌++◌, arith,
  All, Elem, ◌↔◌, ◌==◌, nat_key, if◌then◌else◌,
}
use mathlib.Core.List.{Perm}
use kuzu_event_bus.Text.{Text, text}
use kuzu_event_bus.Pitr.{
  Snapshot, WalObject, WalFile, nearest_snapshot_before, files_in_range, find_wal_files_in_range,
  candidates, preview_wal_files,
}
use kuzu_event_bus.Pitr.Nearest.{IsNearest, nearest_snapshot_before-IsNearest}
use kuzu_event_bus.Pitr.Listed.{IsListed}
use kuzu_event_bus.Pitr.Selection.{
  IsChronological, find_wal_files_in_range_sorted, rest_of_second_lost,
}
use kuzu_event_bus.Pitr.Replay.{Line, blank, entry, replay_wal_files, preview_files, preview_lines}
use kuzu_event_bus.Pitr.Replay.Agreement.{replay_wal_files_lem, preview-agrees}
use kuzu_event_bus.Pitr.Preview.{PreviewCall, preview_database_pitr, answered, shown, preview_base}
use kuzu_event_bus.Pitr.Preview.Replayed.{files_read, logs, preview_database_pitr-replay_wal_files}
use kuzu_event_bus.Pitr.Restore.{
  tar, raw, promote_raises, set_aside, err, not_authorized, Call, Site, Response, restore,
}
use kuzu_event_bus.Pitr.Restore.Effects.{restore_failed}

abbrev Graph : Type 0
Graph = List Text

abbrev execute : Text → Graph → Option Graph
execute query g = some (g ++ query ∷ [])

abbrev old : Snapshot
old = record { id = 1; object_key = 11; created_at = some 2000000 }

abbrev new : Snapshot
new = record { id = 2; object_key = 12; created_at = some 90000000 }

abbrev snapshots : List Snapshot
snapshots = old ∷ new ∷ []

nearest_snapshot_before-IsNearest_example :
    IsNearest 4000000 snapshots (nearest_snapshot_before 4000000 snapshots)
nearest_snapshot_before-IsNearest_example = nearest_snapshot_before-IsNearest 4000000 snapshots

abbrev objects : List WalObject
objects =
    record { key = 4; named_wal = true; named_log = true; second = some 4; size = 10 }
    ∷ record { key = 3; named_wal = true; named_log = true; second = some 3; size = 10 }
    ∷ record { key = 9; named_wal = false; named_log = true; second = none; size = 10 }
    ∷ []

find_wal_files_in_range_sorted_example :
    IsChronological (find_wal_files_in_range 2000000 5000000 (some objects))
    × Perm
        (find_wal_files_in_range 2000000 5000000 (some objects))
        (files_in_range (λ o. o.named_wal) 2000000 5000000 objects)
    × ((f : WalFile)
        → Elem f (find_wal_files_in_range 2000000 5000000 (some objects))
          ↔ IsListed 2000000 5000000 objects f)
find_wal_files_in_range_sorted_example = find_wal_files_in_range_sorted 2000000 5000000 objects

rest_of_second_lost_example :
    All
      (λ (f : WalFile). f.timestamp ≢ 3900000 / 1000000 * 1000000)
      (find_wal_files_in_range 3500000 5000000 (some objects))
rest_of_second_lost_example = rest_of_second_lost 3500000 5000000 3900000 objects refl (omega arith)

abbrev first_file : List Line
first_file =
    entry (some 3000000) (text "CREATE (a)") ∷ blank ∷ entry (some 3500000) (text "CREATE (b)") ∷ []

abbrev second_file : List Line
second_file = entry (some 4600000) (text "CREATE (c)") ∷ []

abbrev files : List (Option (List Line))
files = some first_file ∷ none ∷ some second_file ∷ []

replay_wal_files_lem_example :
    (replay_wal_files execute 4500000 files
      (record { graph = []; replayed = 0; reached = false })).graph
    ≡ (text "CREATE (a)" ∷ text "CREATE (b)" ∷ [])
replay_wal_files_lem_example =
    replay_wal_files_lem execute 4500000 files [] (omega arith, (omega arith, (omega arith, tt)))

preview-agrees_example :
    preview_files execute 4500000 files []
    ≡ (replay_wal_files execute 4500000 files
        (record { graph = []; replayed = 0; reached = false })).graph
preview-agrees_example =
    preview-agrees execute 4500000 files [] (omega arith, (omega arith, (omega arith, tt))) tt

abbrev download_wal : ℕ → Option (List Line)
download_wal key = if key == 3 then some first_file else if key == 4 then some second_file else none

abbrev request : Call Graph
request = record {
  allowed = true;
  now = 100000000;
  token = 1;
  tenant_id = 1;
  database_id = 7;
  target_timestamp = 4500000;
  found_tenant = some 1;
  has_path = true;
  root_name = "database";
  all_snapshots = snapshots;
  download_snapshot = λ key. some (tar (("database", some (false, [])) ∷ []));
  rename_fault = none;
  list_objects = some objects;
  download_wal = download_wal;
  execute_query = execute;
  archive = some 3;
  delete_replayed_wal = false;
  deletes = λ key. true;
}

abbrev site : Site Graph
site = record {
  locks = [];
  place = record { graph = some (text "CREATE (z)" ∷ []); is_directory = false; backups = [] };
  cached_info = true;
  archives = [];
  deleted_wal = [];
}

abbrev response : Response
response = record { snapshot_used = 1; wal_files_replayed = 2; snapshot_created = some 3 }

abbrev refused : Call Graph
refused = record request { allowed = false }

refused_fails : (restore refused site).0 ≡ err not_authorized
unfolding restore
refused_fails = refl

restore_failed_example :
    (((restore refused site).1.place ≡ site.place)
      ⊎ ((refused.rename_fault ≡ some promote_raises)
          × ((restore refused site).1.place.graph ≡ none)
          × ((restore refused site).1.place.backups
              ≡ set_aside site.place.graph site.place.backups)))
    × ((restore refused site).1.cached_info ≡ site.cached_info)
    × ((restore refused site).1.archives ≡ site.archives)
    × ((restore refused site).1.deleted_wal ≡ site.deleted_wal)
restore_failed_example = restore_failed refused site not_authorized refused_fails

-- The same state in a preview: the query returns the contents.
abbrev preview_request : PreviewCall Graph Text
preview_request = record {
  allowed = true;
  target_timestamp = 4500000;
  all_snapshots = snapshots;
  list_objects = some objects;
  download_snapshot = λ key. some (raw (text "CREATE (z)" ∷ []));
  download_wal = download_wal;
  execute_query = execute;
  run_query = λ query g. some g;
  new_graph = [];
  preview_query = none;
}

preview_database_pitr-replay_wal_files_example :
    preview_database_pitr preview_request
    ≡ answered 11
        (files_read preview_request 2000000 old objects)
        (text "MATCH (n) RETURN n LIMIT 100")
        (some
          (replay_wal_files execute 4500000
            (logs preview_request (files_read preview_request 2000000 old objects))
            (record { graph = text "CREATE (z)" ∷ []; replayed = 0; reached = false })).graph)
unfolding nearest_snapshot_before candidates preview_wal_files preview_base
preview_database_pitr-replay_wal_files_example =
    preview_database_pitr-replay_wal_files preview_request 2000000 old objects
      (raw (text "CREATE (z)" ∷ [])) refl refl refl refl
      (omega arith, (omega arith, (omega arith, tt))) tt

preview_test :
    preview_database_pitr preview_request
    ≡ shown (record {
      snapshot_used = 11;
      wal_files_replayed = 2;
      preview_query = text "MATCH (n) RETURN n LIMIT 100";
      results = text "CREATE (z)" ∷ text "CREATE (a)" ∷ text "CREATE (b)" ∷ [];
      rows_returned = 3;
    })
unfolding preview_database_pitr nearest_snapshot_before candidates preview_wal_files preview_files
    preview_lines
preview_test = refl
