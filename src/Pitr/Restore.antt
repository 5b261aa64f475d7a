-- ===== src/Pitr/Restore.antt =====
-- RestoreDatabasePITRUseCase.execute (backend/src/application/usecases/restore_database_pitr.py):
-- guards, lock, snapshot, WAL replay, archive and clean-up. `Call` holds the request and what the
-- other services answer to this call; dropping the cache entry is taken to succeed. Notifications
-- change nothing that is modelled here.
pub mod Renames
pub mod Effects
use kuzu_event_bus.Prelude.{
  ℕ, ◌+◌, String, Bool, true, false, not, ◌&&◌, ◌||◌, Option, none, some, List, [], ◌∷◌, ◌++◌, map,
  length, keep, contains, ltb, ◌==◌, nat_key, string_key, if◌then◌else◌,
}
use kuzu_event_bus.Text.{Text}
use kuzu_event_bus.Jobs.Locks.{LockStore, Resource, acquire_lock, release_lock}
use kuzu_event_bus.Pitr.{
  Snapshot, Timed, WalObject, WalFile, find_nearest_snapshot, find_wal_files_in_range,
}
use kuzu_event_bus.Pitr.Replay.{Line, Progress, replay_wal_files}

pub data RestoreError : Type 0 where
  not_authorized future_timestamp database_not_found path_unknown bad_snapshot_time no_snapshot :
      RestoreError
  lock_timeout download_failed : RestoreError
  not_single_root wrong_root no_data_kuzu replace_failed : RestoreError

-- What a snapshot object holds: the top-level directories of an archive, each with the contents of
-- its `data.kuzu` if it has one, and whether that is a directory, or a bare database file.
pub data Archive (G : Type 0) : Type 0 where
  tar : List (String × Option (Bool × G)) → Archive G
  raw : G → Archive G

-- The database at the target path, whether a directory stands there, and the directories with a
-- database that restores set aside. The directories that they staged are left out.
pub record Place (G : Type 0) : Type 0 where
  pub graph : Option G
  pub is_directory : Bool
  pub backups : List G

-- Which of the renames raises: of the contents to the staged directory, of the target to the backup,
-- of the staged directory to the target; or that of a bare file.
pub data RenameFault : Type 0 where
  stage_raises backup_raises promote_raises file_raises : RenameFault

pub data Outcome (A : Type 0) : Type 0 where
  ok : A → Outcome A
  err : RestoreError → Outcome A

-- The place with the snapshot in it, or as a failure left it.
pub data Placing (G : Type 0) : Type 0 where
  placed : Place G → Placing G
  failed : RestoreError → Place G → Placing G

module _ {G : Type 0} where
  abbrev pub set_aside : Option G → List G → List G
  set_aside none backups = backups
  set_aside (some g) backups = backups ++ g ∷ []

  abbrev pub moved_away : Place G → Place G
  moved_away place = record {
    graph = none;
    is_directory = false;
    backups = set_aside place.graph place.backups;
  }

  -- The target is renamed to the backup if it is there, and the staged directory to the target.
  abbrev pub promote : Option RenameFault → Bool × G → Place G → Placing G
  promote (some promote_raises) found place = failed replace_failed (moved_away place)
  promote _ (directory, g) place =
      placed (record (moved_away place) { graph = some g; is_directory = directory })

  abbrev pub back_up : Option RenameFault → Bool × G → Option G → Place G → Placing G
  back_up (some backup_raises) found (some g) place = failed replace_failed place
  back_up fault found _ place = promote fault found place

  abbrev pub stage : Option RenameFault → Bool × G → Place G → Placing G
  stage (some stage_raises) found place = failed replace_failed place
  stage fault found place = back_up fault found place.graph place

  -- `_restore_snapshot`
  abbrev pub from_root :
      Option RenameFault → String → String → Option (Bool × G) → Place G → Placing G
  from_root fault expected name none place =
      if not (name == expected) then failed wrong_root place else failed no_data_kuzu place
  from_root fault expected name (some found) place =
      if not (name == expected) then failed wrong_root place else stage fault found place

  -- `os.replace` of a file onto a directory raises.
  abbrev pub replace_onto : Bool → G → Place G → Placing G
  replace_onto true g place = failed replace_failed place
  replace_onto false g place = placed (record place { graph = some g })

  abbrev pub replace_file : Option RenameFault → G → Place G → Placing G
  replace_file (some file_raises) g place = failed replace_failed place
  replace_file _ g place = replace_onto place.is_directory g place

  abbrev pub unpack : Option RenameFault → String → Archive G → Place G → Placing G
  unpack fault expected (raw g) place = replace_file fault g place
  unpack fault expected (tar []) place = failed not_single_root place
  unpack fault expected (tar ((name, found) ∷ [])) place = from_root fault expected name found place
  unpack fault expected (tar (x ∷ y ∷ more)) place = failed not_single_root place

  unfoldable pub restore_snapshot :
      Option RenameFault → String → Option (Archive G) → Place G → Placing G
  restore_snapshot fault expected none place = failed download_failed place
  restore_snapshot fault expected (some archive) place = unpack fault expected archive place

pub record Call (G : Type 0) : Type 0 where
  pub allowed : Bool
  pub now : ℕ
  pub token : ℕ
  pub tenant_id : ℕ
  pub database_id : ℕ
  pub target_timestamp : ℕ
  pub found_tenant : Option ℕ
  pub has_path : Bool
  pub root_name : String
  pub all_snapshots : List Snapshot
  pub download_snapshot : ℕ → Option (Archive G)
  pub rename_fault : Option RenameFault
  pub list_objects : Option (List WalObject)
  pub download_wal : ℕ → Option (List Line)
  pub execute_query : Text → G → Option G
  pub archive : Option ℕ
  pub delete_replayed_wal : Bool
  pub deletes : ℕ → Bool

pub record Site (G : Type 0) : Type 0 where
  pub locks : LockStore
  pub place : Place G
  pub cached_info : Bool
  pub archives : List ℕ
  pub deleted_wal : List ℕ

pub record Response : Type 0 where
  pub snapshot_used : ℕ
  pub wal_files_replayed : ℕ
  pub snapshot_created : Option ℕ

abbrev pub add_archive : Option ℕ → List ℕ → List ℕ
add_archive none archives = archives
add_archive (some id) archives = id ∷ archives

module _ {G : Type 0} where
  abbrev pub restore_lock : Call G → Resource
  restore_lock c = record { purpose = "pitr_restore"; id = c.database_id }

  -- The WAL files from the snapshot's time to the target, and what they make of the contents.
  abbrev pub wal_of : Call G → ℕ → List WalFile
  wal_of c snapshot_time = find_wal_files_in_range snapshot_time c.target_timestamp c.list_objects

  abbrev pub contents_of : Call G → List WalFile → List (Option (List Line))
  contents_of c [] = []
  contents_of c (f ∷ fs) = c.download_wal f.key ∷ contents_of c fs

  abbrev pub replay_on : Call G → List WalFile → Option G → Option G × ℕ
  replay_on c files none = (none, 0)
  replay_on c files (some g) =
      let p =
        replay_wal_files c.execute_query c.target_timestamp (contents_of c files)
          (record { graph = g; replayed = 0; reached = false }) in
      (some p.graph, p.replayed)

  abbrev pub keys_deleted : Call G → List WalFile → List ℕ
  keys_deleted c [] = []
  keys_deleted c (f ∷ fs) =
      let rest = keys_deleted c fs in if c.deletes f.key then f.key ∷ rest else rest

  abbrev pub clean_up : Call G → Option ℕ → List WalFile → List ℕ
  clean_up c none files = []
  clean_up c (some id) files = if c.delete_replayed_wal then keys_deleted c files else []

  -- Between taking the lock and giving it back.
  abbrev pub replay_and_archive : Call G → Timed → Placing G → Site G → Outcome Response × Site G
  replay_and_archive c snapshot (failed e place) s = (err e, record s { place = place })
  replay_and_archive c snapshot (placed place) s =
      let files = wal_of c snapshot.0 in
      let (graph, count) = replay_on c files place.graph in
      (
        ok (record {
          snapshot_used = snapshot.1.id;
          wal_files_replayed = count;
          snapshot_created = c.archive;
        }),
        record s {
          place = record place { graph = graph };
          cached_info = false;
          archives = add_archive c.archive s.archives;
          deleted_wal = clean_up c c.archive files ++ s.deleted_wal;
        },
      )

  abbrev pub locked : Call G → Timed → Option ℕ → Site G → Outcome Response × Site G
  locked c snapshot none s = (err lock_timeout, s)
  locked c snapshot (some token) s =
      let place =
        restore_snapshot c.rename_fault c.root_name (c.download_snapshot snapshot.1.object_key)
          s.place in
      let (r, s') = replay_and_archive c snapshot place s in
      (r, record s' { locks = (release_lock c.now (restore_lock c) token s'.locks).1 })

  abbrev pub with_snapshot : Call G → Option (Option Timed) → Site G → Outcome Response × Site G
  with_snapshot c none s = (err bad_snapshot_time, s)
  with_snapshot c (some none) s = (err no_snapshot, s)
  with_snapshot c (some (some snapshot)) s =
      let (token, locks) = acquire_lock c.now c.token (restore_lock c) 60000000 s.locks in
      locked c snapshot token (record s { locks = locks })

  abbrev pub owns : Call G → Option ℕ → Bool
  owns c none = false
  owns c (some tenant) = tenant == c.tenant_id

  unfoldable pub restore : Call G → Site G → Outcome Response × Site G
  restore c s =
      if not c.allowed
      then (err not_authorized, s)
      else if ltb c.now c.target_timestamp
      then (err future_timestamp, s)
      else if not (owns c c.found_tenant)
      then (err database_not_found, s)
      else if not c.has_path
      then (err path_unknown, s)
      else with_snapshot c (find_nearest_snapshot c.target_timestamp c.all_snapshots) s
