-- ===== src/Databases/Branching.antt =====
-- Creating a branch (backend/src/application/usecases/branching/create_branch.py), from the calls of
-- snapshotting, provisioning and restoring that it makes. Its optional services are taken to be
-- configured.
pub mod Copy
pub mod Latest
pub mod Contents
pub mod Whole
pub mod Merge
use kuzu_event_bus.Prelude.{
  ℕ, true, Option, none, some, List, [], ◌∷◌, keep, ltb, leb, ◌==◌, nat_key, if◌then◌else◌,
}
use kuzu_event_bus.Dict
use kuzu_event_bus.Text.{Text}
use kuzu_event_bus.Branches.{branch_name, to_full_name}
use kuzu_event_bus.Branches.Replay.{branch_files}
use kuzu_event_bus.Pitr.{WalObject, WalFile, preview_wal_files}
use kuzu_event_bus.Pitr.Replay.{Line}
use kuzu_event_bus.Databases.Tables.{
  DatabasePath, path_key, DatabaseRow, find_database, SnapshotRow, find_snapshot, save_snapshot,
  list_by_database,
}
use kuzu_event_bus.Databases.Files.{Node, file, dir}
use kuzu_event_bus.Databases.Snapshots.{
  Reply, ok, err, Estate, SnapshotCall, RestoreCall, create_snapshot, restore_from_snapshot,
  value_error, integrity_error, located, forget,
}
use kuzu_event_bus.Databases.Provision.{ProvisionCall, provision}

-- `from_snapshot`: "latest" or nothing, a UUID, an ISO time, or neither.
pub data Origin : Type 0 where
  latest : Origin
  of_snapshot : ℕ → Origin
  at_time : ℕ → Origin
  unreadable : Origin

pub record BranchCall (G : Type 0) : Type 0 where
  pub tenant_id : ℕ
  pub source_database_id : ℕ
  pub source_database_name : Text
  pub branch_name : Text
  pub from_snapshot : Origin
  pub snapshot : SnapshotCall G
  pub provision : ProvisionCall G
  pub branch_snapshot_id : ℕ
  pub restore : RestoreCall
  pub list_objects : Option (List WalObject)
  pub download_wal : ℕ → Option (List Line)
  pub execute_query : Text → G → Option G

pub record BranchResponse : Type 0 where
  pub full_name : Text
  pub branch_database_id : ℕ
  pub snapshot_id : ℕ
  pub origin_snapshot_id : ℕ

-- `max(valid, key=…)`: the first of the latest.
abbrev pub later_row : SnapshotRow → SnapshotRow → SnapshotRow
later_row best r = if ltb best.created_at r.created_at then r else best

abbrev pub latest_from : SnapshotRow → List SnapshotRow → SnapshotRow
latest_from best [] = best
latest_from best (r ∷ rs) = latest_from (later_row best r) rs

abbrev pub latest_of : List SnapshotRow → Option SnapshotRow
latest_of [] = none
latest_of (r ∷ rs) = some (latest_from r rs)

unfoldable pub nearest_row : ℕ → List SnapshotRow → Option SnapshotRow
nearest_row target rs = latest_of (keep (λ (r : SnapshotRow). leb r.created_at target) rs)

-- A listing that fails counts as empty.
abbrev pub listed : Option (List WalObject) → List WalObject
listed none = []
listed (some objects) = objects

module _ {G : Type 0} where
  abbrev pub found_or_error : Option SnapshotRow → Estate G → Reply SnapshotRow × Estate G
  found_or_error none s = (err value_error, s)
  found_or_error (some r) s = (ok r, s)

  -- 1. The base snapshot.
  abbrev pub base_snapshot : BranchCall G → Origin → Estate G → Reply SnapshotRow × Estate G
  base_snapshot c latest s =
      create_snapshot
        (record c.snapshot { tenant_id = c.tenant_id; database_id = c.source_database_id }) s
  base_snapshot c (of_snapshot id) s = found_or_error (find_snapshot id s.snapshots) s
  base_snapshot c (at_time target) s =
      found_or_error (nearest_row target (list_by_database c.source_database_id s.snapshots)) s
  base_snapshot c unreadable s = (err value_error, s)

  -- The replay of the source's WAL into the branch, if a time was asked for.
  abbrev pub wal_contents : BranchCall G → List WalFile → List (Option (List Line))
  wal_contents c [] = []
  wal_contents c (f ∷ fs) = c.download_wal f.key ∷ wal_contents c fs

  abbrev pub replayed_node : (G → G) → Option (Node G) → Option (Node G)
  replayed_node f none = none
  replayed_node f (some (file g)) = some (file (f g))
  replayed_node f (some (dir g inner)) = some (dir (f g) inner)

  abbrev pub replay : BranchCall G → ℕ → SnapshotRow → G → G
  replay c target base =
      branch_files c.execute_query target
        (wal_contents c (preview_wal_files base.created_at target (listed c.list_objects)))

  abbrev pub put_node : DatabasePath → Option (Node G) → Estate G → Estate G
  put_node path none s = s
  put_node path (some node) s = record s { disk = Dict.put s.disk path node }

  abbrev pub replay_into : BranchCall G → ℕ → SnapshotRow → ℕ → DatabasePath → Estate G → Estate G
  replay_into c target base id path s =
      let s' = put_node path (replayed_node (replay c target base) (Dict.get s.disk path)) s in
      record s' { cached_info = forget id s'.cached_info }

  abbrev pub response : BranchCall G → SnapshotRow → DatabaseRow → BranchResponse
  response c base meta = record {
    full_name = to_full_name c.branch_name c.source_database_name;
    branch_database_id = meta.id;
    snapshot_id = c.branch_snapshot_id;
    origin_snapshot_id = base.id;
  }

  abbrev pub replay_located :
      BranchCall G
      → ℕ
      → SnapshotRow
      → DatabaseRow
      → Reply DatabasePath
      → Estate G
      → Reply BranchResponse × Estate G
  replay_located c target base meta (err e) s = (err e, s)
  replay_located c target base meta (ok path) s =
      (ok (response c base meta), replay_into c target base meta.id path s)

  abbrev pub replay_origin :
      BranchCall G → Origin → SnapshotRow → DatabaseRow → Estate G → Reply BranchResponse × Estate G
  replay_origin c (at_time target) base meta s =
      replay_located c target base meta
        (located true c.tenant_id (find_database meta.id s.databases)) s
  replay_origin c _ base meta s = (ok (response c base meta), s)

  -- 4. The restore into the branch.
  abbrev pub branch_restored :
      BranchCall G
      → SnapshotRow
      → DatabaseRow
      → Reply (Unit {0}) × Estate G
      → Reply BranchResponse × Estate G
  branch_restored c base meta (err e, s) = (err e, s)
  branch_restored c base meta (ok _, s) = replay_origin c c.from_snapshot base meta s

  -- 3. The row of the base snapshot once more, under the branch.
  abbrev pub duplicate : BranchCall G → SnapshotRow → DatabaseRow → SnapshotRow
  duplicate c base meta = record {
    id = c.branch_snapshot_id;
    tenant_id = c.tenant_id;
    database_id = meta.id;
    object_key = base.object_key;
    checksum = base.checksum;
    size_bytes = base.size_bytes;
    created_at = base.created_at;
  }

  abbrev pub restore_call : BranchCall G → DatabaseRow → RestoreCall
  restore_call c meta = record c.restore {
    tenant_id = c.tenant_id;
    database_id = meta.id;
    snapshot_id = c.branch_snapshot_id;
  }

  abbrev pub duplicated :
      BranchCall G
      → SnapshotRow
      → DatabaseRow
      → Option (List SnapshotRow)
      → Estate G
      → Reply BranchResponse × Estate G
  duplicated c base meta none s = (err integrity_error, s)
  duplicated c base meta (some rows) s =
      branch_restored c base meta
        (restore_from_snapshot (restore_call c meta) (record s { snapshots = rows }))

  -- 2. The branch's database.
  abbrev pub branch_provisioned :
      BranchCall G → SnapshotRow → Reply DatabaseRow × Estate G → Reply BranchResponse × Estate G
  branch_provisioned c base (err e, s) = (err e, s)
  branch_provisioned c base (ok meta, s) =
      duplicated c base meta (save_snapshot (duplicate c base meta) s.snapshots) s

  abbrev pub provision_call : BranchCall G → ProvisionCall G
  provision_call c = record c.provision {
    tenant_id = c.tenant_id;
    database_name = some (to_full_name c.branch_name c.source_database_name);
  }

  abbrev pub based_on :
      BranchCall G → Reply SnapshotRow × Estate G → Reply BranchResponse × Estate G
  based_on c (err e, s) = (err e, s)
  based_on c (ok base, s) = branch_provisioned c base (provision (provision_call c) s)

  abbrev pub with_valid_name :
      BranchCall G → Option Text → Estate G → Reply BranchResponse × Estate G
  with_valid_name c none s = (err value_error, s)
  with_valid_name c (some name) s = based_on c (base_snapshot c c.from_snapshot s)

  unfoldable pub create_branch : BranchCall G → Estate G → Reply BranchResponse × Estate G
  create_branch c s = with_valid_name c (branch_name c.branch_name) s
