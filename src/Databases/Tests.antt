-- ===== src/Databases/Tests.antt =====
-- Two tenants' databases, with a snapshot, a restore, a branch and a merge that run on them. The
-- contents of a database are a number.
use kuzu_event_bus.Prelude.{
  ℕ, ◌+◌, ◌≤◌, ◌≡◌, refl, true, false, none, some, List, [], ◌∷◌, inl, inr, length,
}
use kuzu_event_bus.Dict.{Dict, get, put, remove}
use kuzu_event_bus.Text.{text}
use kuzu_event_bus.Jobs.Locks.{holder, acquire_lock, release_lock}
use kuzu_event_bus.Branches.{branch_name, to_full_name}
use kuzu_event_bus.Databases.Tables.{
  DatabasePath, path_key, ObjectKey, object_key_key, DatabaseRow, SnapshotRow, find_database,
  find_by_name, save_database, find_snapshot, save_snapshot,
}
use kuzu_event_bus.Databases.Files.{Node, file, single}
use kuzu_event_bus.Databases.Snapshots.{
  UseCaseError, ok, err, file_not_found, Estate, SnapshotCall, RestoreCall, create_snapshot,
  restore_from_snapshot,
}
use kuzu_event_bus.Databases.Snapshots.Restoring.{restore_from_snapshot_failed}
use kuzu_event_bus.Databases.Snapshots.RoundTrip.{restore_of, restore_from_snapshot-create_snapshot}
use kuzu_event_bus.Databases.Provision.{database_name, provision}
use kuzu_event_bus.Databases.Provision.Invariant.{IsSound}
use kuzu_event_bus.Databases.Branching.{
  latest, of_snapshot, BranchCall, BranchResponse, create_branch,
}
use kuzu_event_bus.Databases.Branching.Copy.{create_branch_keeps}
use kuzu_event_bus.Databases.Branching.Latest.{
  create_branch_copies, create_branch_of_snapshot, create_branch_bounded,
}
use kuzu_event_bus.Databases.Branching.Merge.{MergeCall, merge_branch, merge_branch_refused}
use kuzu_event_bus.Databases.History.{
  Command, snapshot_database, restore_database, branch_database, merge_database, run_commands,
  run_commands-IsSound, restore_from_snapshot_isolated,
}

abbrev path_of : ℕ → ℕ → DatabasePath
path_of tenant id = record { tenant_id = tenant; database_id = id }

abbrev main : DatabaseRow
main = record {
  id = 10;
  tenant_id = 1;
  name = text "main";
  filesystem_path = some (path_of 1 10);
  created_at = 1;
}

abbrev others : DatabaseRow
others = record {
  id = 20;
  tenant_id = 2;
  name = text "main";
  filesystem_path = some (path_of 2 20);
  created_at = 2;
}

abbrev secret_key : ObjectKey
secret_key = record { tenant_id = 2; database_id = 20; stamp = 1 }

abbrev secret : SnapshotRow
secret = record {
  id = 200;
  tenant_id = 2;
  database_id = 20;
  object_key = secret_key;
  checksum = 0;
  size_bytes = 9;
  created_at = 3;
}

abbrev estate : Estate ℕ
estate = record {
  databases = main ∷ others ∷ [];
  snapshots = secret ∷ [];
  disk = (path_of 1 10, file 7) ∷ (path_of 2 20, file 42) ∷ [];
  objects = (secret_key, single 20 (some (file 42))) ∷ [];
  locks = [];
  cached_info = [];
  db_cache = [];
}

abbrev snapshot : SnapshotCall ℕ
snapshot = record {
  allowed = true;
  now = 5;
  token = 77;
  tenant_id = 1;
  database_id = 10;
  initialized = none;
  copy_fails = false;
  upload_fails = false;
  stamp = 3;
  snapshot_id = 100;
  created_at = 5;
  sha256 = λ o. 0;
  size = λ o. 1;
}

abbrev created_row : SnapshotRow
created_row = record {
  id = 100;
  tenant_id = 1;
  database_id = 10;
  object_key = record { tenant_id = 1; database_id = 10; stamp = 3 };
  checksum = 0;
  size_bytes = 1;
  created_at = 5;
}

-- The database has been changed, then lost.
abbrev later_disk : Dict DatabasePath (Node ℕ)
later_disk = (path_of 2 20, file 43) ∷ []

restore_from_snapshot-create_snapshot_example :
    ((restore_from_snapshot
        (restore_of snapshot 6 78)
        (record (create_snapshot snapshot estate).1 { disk = later_disk })).0
      ≡ ok tt)
    × (get
          (restore_from_snapshot
            (restore_of snapshot 6 78)
            (record (create_snapshot snapshot estate).1 { disk = later_disk })).1.disk
          (path_of 1 10)
        ≡ some (file 7))
unfolding create_snapshot find_database get put remove acquire_lock release_lock holder
    save_snapshot
restore_from_snapshot-create_snapshot_example =
    restore_from_snapshot-create_snapshot snapshot estate later_disk 6 78 {row = created_row}
      {path = path_of 1 10} {node = file 7} refl refl refl tt refl

-- The other tenant's snapshot is none of this database.
abbrev foreign_restore : RestoreCall
foreign_restore = record {
  allowed = true;
  now = 6;
  token = 79;
  tenant_id = 1;
  database_id = 10;
  snapshot_id = 200;
  fault = none;
}

restore_from_snapshot_failed_example :
    (get (restore_from_snapshot foreign_restore estate).1.disk (path_of 1 10)
      ≡ get estate.disk (path_of 1 10))
    × ((restore_from_snapshot foreign_restore estate).1.cached_info ≡ estate.cached_info)
unfolding restore_from_snapshot find_database find_snapshot
restore_from_snapshot_failed_example =
    restore_from_snapshot_failed foreign_restore estate file_not_found (path_of 1 10) refl
      (inr (λ e. cc))

estate-IsSound : IsSound estate
estate-IsSound = (((refl, tt), (tt, tt)), (((refl, refl), ((refl, refl), tt))), (tt, tt))

restore_from_snapshot_isolated_example :
    get (restore_from_snapshot foreign_restore estate).1.disk (path_of 2 20)
    ≡ get estate.disk (path_of 2 20)
unfolding find_database
restore_from_snapshot_isolated_example =
    restore_from_snapshot_isolated foreign_restore estate 20 {other = others} {path = path_of 2 20}
      estate-IsSound refl refl (inl (λ e. cc))

abbrev branch_call : BranchCall ℕ
branch_call = record {
  tenant_id = 1;
  source_database_id = 10;
  source_database_name = text "main";
  branch_name = text "dev";
  from_snapshot = latest;
  snapshot = snapshot;
  provision = record {
    tenant_id = 1;
    database_name = none;
    default_database_name = text "main";
    bucket_fails = false;
    metadata_id = 30;
    created = some (file 0);
    created_at = 6;
    initial = some (record snapshot { stamp = 4; snapshot_id = 101 });
  };
  branch_snapshot_id = 102;
  restore = foreign_restore;
  list_objects = none;
  download_wal = λ key. none;
  execute_query = λ query g. none;
}

abbrev branch_response : BranchResponse
branch_response = record {
  full_name = text "main--branch--dev";
  branch_database_id = 30;
  snapshot_id = 102;
  origin_snapshot_id = 100;
}

branch_succeeds : (create_branch branch_call estate).0 ≡ ok branch_response
unfolding create_branch branch_name to_full_name create_snapshot provision database_name
    restore_from_snapshot find_database find_by_name find_snapshot save_database save_snapshot get
    put remove acquire_lock release_lock holder
branch_succeeds = refl

create_branch_keeps_example :
    get (create_branch branch_call estate).1.disk (path_of 2 20) ≡ some (file 42)
unfolding get
create_branch_keeps_example = create_branch_keeps branch_call estate (path_of 2 20) (file 42) refl

create_branch_bounded_example : length (text "main") + length (text "dev") ≤ 31
create_branch_bounded_example =
    create_branch_bounded branch_call estate {r = branch_response} branch_succeeds

create_branch_copies_example :
    (get (create_branch branch_call estate).1.disk (path_of 1 10) ≡ some (file 7))
    × (get (create_branch branch_call estate).1.disk (path_of 1 30) ≡ some (file 7))
    × ((meta : DatabaseRow) × (find_database 30 (create_branch branch_call estate).1.databases
          ≡ some meta)
        × (meta.name ≡ to_full_name (text "dev") (text "main"))
        × (meta.tenant_id ≡ 1))
unfolding find_database get
create_branch_copies_example =
    create_branch_copies branch_call estate {r = branch_response} {path = path_of 1 10}
      {source = file 7} {made = file 0} refl branch_succeeds refl refl refl tt

-- A branch of the first tenant from the snapshot of the second one.
abbrev leaking_call : BranchCall ℕ
leaking_call = record branch_call { from_snapshot = of_snapshot 200 }

abbrev leaking_response : BranchResponse
leaking_response = record branch_response { origin_snapshot_id = 200 }

leak_succeeds : (create_branch leaking_call estate).0 ≡ ok leaking_response
unfolding create_branch branch_name to_full_name create_snapshot provision database_name
    restore_from_snapshot find_database find_by_name find_snapshot save_database save_snapshot get
    put remove acquire_lock release_lock holder
leak_succeeds = refl

create_branch_of_snapshot_example :
    (get (create_branch leaking_call estate).1.disk (path_of 1 30) ≡ some (file 42))
    × (leaking_response.origin_snapshot_id ≡ secret.id)
unfolding find_snapshot get
create_branch_of_snapshot_example =
    create_branch_of_snapshot leaking_call estate 200 {r = leaking_response} {base = secret}
      {object = single 20 (some (file 42))} {made = file 0} {node = file 42} refl leak_succeeds refl
      refl (λ e. cc) refl refl

-- The branch that has been created, into its source.
abbrev branched : Estate ℕ
branched = (create_branch branch_call estate).1

abbrev merge_call : MergeCall ℕ
merge_call = record {
  tenant_id = 1;
  branch_database_id = 30;
  target_database_id = 10;
  snapshot = record snapshot { now = 7; stamp = 5; snapshot_id = 103 };
  restore = record foreign_restore { now = 8 };
}

merge_branch_refused_example :
    ((e : UseCaseError) × ((merge_branch merge_call branched).0 ≡ err e))
    × (get (merge_branch merge_call branched).1.disk (path_of 1 10) ≡ some (file 7))
unfolding get
merge_branch_refused_example =
    merge_branch_refused merge_call branched (path_of 1 10) (file 7) (λ e. cc)
      (create_branch_keeps branch_call estate (path_of 1 10) (file 7) refl)

abbrev commands : List (Command ℕ)
commands =
    snapshot_database snapshot
    ∷ branch_database branch_call
    ∷ restore_database foreign_restore
    ∷ merge_database merge_call
    ∷ []

run_commands-IsSound_example : IsSound (run_commands commands estate)
run_commands-IsSound_example = run_commands-IsSound commands estate estate-IsSound
