-- ===== src/Databases/Snapshots.antt =====
-- Creating a snapshot and restoring from one (backend/src/application/usecases/
-- create_database_snapshot.py and restore_database_from_snapshot.py). A call's record holds the
-- request and what the other services answer to it. A checksum is a number, and so is the stamp of an
-- object key, the time with a random suffix. Dropping a cache entry is taken to succeed;
-- tags and events are best effort and change nothing that is modelled here.
pub mod Frame
pub mod Restoring
pub mod Restored
pub mod Taken
pub mod RoundTrip
use kuzu_event_bus.Prelude.{
  ℕ, String, Bool, true, false, not, ◌&&◌, Option, none, some, List, [], ◌∷◌, keep, ◌==◌, nat_key,
  if◌then◌else◌,
}
use kuzu_event_bus.Dict
use kuzu_event_bus.Dict.{Dict}
use kuzu_event_bus.Jobs.Locks.{LockStore, Resource, acquire_lock, release_lock}
use kuzu_event_bus.Databases.Tables.{
  DatabasePath, path_key, ObjectKey, object_key_key, DatabaseRow, find_database, SnapshotRow,
  find_snapshot, save_snapshot,
}
use kuzu_event_bus.Databases.Files.{
  Node, Object, single, snapshot_source, copy_database_to_archive, unpack_object, torn_object,
}

pub data UseCaseError : Type 0 where
  permission_error file_not_found path_unknown lock_timeout initialize_failed : UseCaseError
  copy_failed upload_failed integrity_error download_failed extract_failed : UseCaseError
  value_error bucket_failed database_exists delete_failed event_failed : UseCaseError

pub data Reply (A : Type 0) : Type 0 where
  ok : A → Reply A
  err : UseCaseError → Reply A

-- The state that the use cases share: `db_cache` is the provisioning adapter's.
pub record Estate (G : Type 0) : Type 0 where
  pub databases : List DatabaseRow
  pub snapshots : List SnapshotRow
  pub disk : Dict DatabasePath (Node G)
  pub objects : Dict ObjectKey (Object G)
  pub locks : LockStore
  pub cached_info : List ℕ
  pub db_cache : List DatabasePath

-- `initialized` is what Kuzu makes of a path at which nothing stands.
pub record SnapshotCall (G : Type 0) : Type 0 where
  pub allowed : Bool
  pub now : ℕ
  pub token : ℕ
  pub tenant_id : ℕ
  pub database_id : ℕ
  pub initialized : Option (Node G)
  pub copy_fails : Bool
  pub upload_fails : Bool
  pub stamp : ℕ
  pub snapshot_id : ℕ
  pub created_at : ℕ
  pub sha256 : Object G → ℕ
  pub size : Object G → ℕ

abbrev pub database_lock : String → ℕ → Resource
database_lock purpose id = record { purpose = purpose; id = id }

abbrev pub forget : ℕ → List ℕ → List ℕ
forget id ids = keep (λ i. not (i == id)) ids

-- Where the call fails, or on what row and path it goes on.
abbrev pub located : Bool → ℕ → Option DatabaseRow → Reply DatabasePath
located false tenant found = err permission_error
located true tenant none = err file_not_found
located true tenant (some r) =
    if r.tenant_id == tenant
    then (elim r.filesystem_path [ none ↦ err path_unknown | some path ↦ ok path ])
    else err file_not_found

module _ {G : Type 0} where
  abbrev pub object_key_of : SnapshotCall G → ObjectKey
  object_key_of c = record { tenant_id = c.tenant_id; database_id = c.database_id; stamp = c.stamp }

  abbrev pub row_of : SnapshotCall G → Object G → SnapshotRow
  row_of c object = record {
    id = c.snapshot_id;
    tenant_id = c.tenant_id;
    database_id = c.database_id;
    object_key = object_key_of c;
    checksum = c.sha256 object;
    size_bytes = c.size object;
    created_at = c.created_at;
  }

  -- After the upload: the row, and the cache entry.
  abbrev pub recorded :
      SnapshotCall G
      → Object G
      → Option (List SnapshotRow)
      → Estate G
      → Reply SnapshotRow × Estate G
  recorded c object none s = (err integrity_error, s)
  recorded c object (some rows) s = (
    ok (row_of c object),
    record s { snapshots = rows; cached_info = forget c.database_id s.cached_info },
  )

  abbrev pub uploaded : SnapshotCall G → Object G → Estate G → Reply SnapshotRow × Estate G
  uploaded c object s =
      if c.upload_fails
      then (err upload_failed, s)
      else recorded c object (save_snapshot (row_of c object) s.snapshots)
          (record s { objects = Dict.put s.objects (object_key_of c) object })

  abbrev pub archived : SnapshotCall G → Node G → Estate G → Reply SnapshotRow × Estate G
  archived c node s =
      if c.copy_fails
      then (err copy_failed, s)
      else uploaded c
          (single c.database_id (some (copy_database_to_archive (snapshot_source node)))) s

  abbrev pub initialize :
      SnapshotCall G → DatabasePath → Option (Node G) → Estate G → Reply SnapshotRow × Estate G
  initialize c path none s = (err initialize_failed, s)
  initialize c path (some node) s = archived c node (record s { disk = Dict.put s.disk path node })

  abbrev pub read_source :
      SnapshotCall G → DatabasePath → Option (Node G) → Estate G → Reply SnapshotRow × Estate G
  read_source c path (some node) s = archived c node s
  read_source c path none s = initialize c path c.initialized s

  abbrev pub unlock : ℕ → Resource → ℕ → Estate G → Estate G
  unlock now resource token s = record s { locks = (release_lock now resource token s.locks).1 }

  abbrev pub snapshot_locked :
      SnapshotCall G → DatabasePath → Option ℕ → Estate G → Reply SnapshotRow × Estate G
  snapshot_locked c path none s = (err lock_timeout, s)
  snapshot_locked c path (some token) s =
      let (r, s') = read_source c path (Dict.get s.disk path) s in
      (r, unlock c.now (database_lock "snapshot" c.database_id) token s')

  abbrev pub snapshot_located :
      SnapshotCall G → Reply DatabasePath → Estate G → Reply SnapshotRow × Estate G
  snapshot_located c (err e) s = (err e, s)
  snapshot_located c (ok path) s =
      let (token, locks) =
        acquire_lock c.now c.token (database_lock "snapshot" c.database_id) 10000000 s.locks in
      snapshot_locked c path token (record s { locks = locks })

  unfoldable pub create_snapshot : SnapshotCall G → Estate G → Reply SnapshotRow × Estate G
  create_snapshot c s =
      snapshot_located c (located c.allowed c.tenant_id (find_database c.database_id s.databases)) s

-- What the outside may make fail in a restore: the download, or the copying to the database's path.
pub data RestoreFault : Type 0 where
  download_raises copy_raises : RestoreFault

pub record RestoreCall : Type 0 where
  pub allowed : Bool
  pub now : ℕ
  pub token : ℕ
  pub tenant_id : ℕ
  pub database_id : ℕ
  pub snapshot_id : ℕ
  pub fault : Option RestoreFault

-- The snapshot must be of the database.
abbrev pub snapshot_of : ℕ → Option SnapshotRow → Option SnapshotRow
snapshot_of database none = none
snapshot_of database (some r) = if r.database_id == database then some r else none

module _ {G : Type 0} where
  abbrev pub replaced :
      RestoreCall → DatabasePath → Option (Node G) → Estate G → Reply (Unit {0}) × Estate G
  replaced c path none s = (err extract_failed, s)
  replaced c path (some node) s = (
    ok tt,
    record s { disk = Dict.put s.disk path node; cached_info = forget c.database_id s.cached_info },
  )

  -- A copy that raises leaves the path as it got with it.
  abbrev pub put_or_remove :
      DatabasePath → Option (Node G) → Dict DatabasePath (Node G) → Dict DatabasePath (Node G)
  put_or_remove path none disk = Dict.remove disk path
  put_or_remove path (some node) disk = Dict.put disk path node

  abbrev pub torn : DatabasePath → Object G → Estate G → Estate G
  torn path object s = record s {
    disk = put_or_remove path (torn_object object (Dict.get s.disk path)) s.disk;
  }

  abbrev pub unpacked :
      RestoreCall
      → Option RestoreFault
      → DatabasePath
      → Object G
      → Estate G
      → Reply (Unit {0}) × Estate G
  unpacked c (some download_raises) path object s = (err download_failed, s)
  unpacked c (some copy_raises) path object s = (err extract_failed, torn path object s)
  unpacked c none path object s = replaced c path (unpack_object object (Dict.get s.disk path)) s

  abbrev pub downloaded :
      RestoreCall → DatabasePath → Option (Object G) → Estate G → Reply (Unit {0}) × Estate G
  downloaded c path none s = (err download_failed, s)
  downloaded c path (some object) s = unpacked c c.fault path object s

  abbrev pub restore_locked :
      RestoreCall → DatabasePath → SnapshotRow → Option ℕ → Estate G → Reply (Unit {0}) × Estate G
  restore_locked c path snapshot none s = (err lock_timeout, s)
  restore_locked c path snapshot (some token) s =
      let (r, s') = downloaded c path (Dict.get s.objects snapshot.object_key) s in
      (r, unlock c.now (database_lock "restore" c.database_id) token s')

  abbrev pub restore_chosen :
      RestoreCall → DatabasePath → Option SnapshotRow → Estate G → Reply (Unit {0}) × Estate G
  restore_chosen c path none s = (err file_not_found, s)
  restore_chosen c path (some snapshot) s =
      let (token, locks) =
        acquire_lock c.now c.token (database_lock "restore" c.database_id) 30000000 s.locks in
      restore_locked c path snapshot token (record s { locks = locks })

  abbrev pub restore_located :
      RestoreCall → Reply DatabasePath → Estate G → Reply (Unit {0}) × Estate G
  restore_located c (err e) s = (err e, s)
  restore_located c (ok path) s =
      restore_chosen c path (snapshot_of c.database_id (find_snapshot c.snapshot_id s.snapshots)) s

  unfoldable pub restore_from_snapshot : RestoreCall → Estate G → Reply (Unit {0}) × Estate G
  restore_from_snapshot c s =
      restore_located c (located c.allowed c.tenant_id (find_database c.database_id s.databases)) s
