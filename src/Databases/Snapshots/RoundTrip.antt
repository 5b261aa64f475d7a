-- ===== src/Databases/Snapshots/RoundTrip.antt =====
-- Creating a snapshot and restoring from it later.
use kuzu_event_bus.Prelude.{
  ℕ, ◌≡◌, refl, Option-cases, Bool, true, false, Option, none, some, arith, nat_key, nat_beq_iff,
  inl, inr,
}
use kuzu_event_bus.Dict
use kuzu_event_bus.Dict.{Dict, get-put_same}
use kuzu_event_bus.Jobs.Locks.{LockStore, Resource, acquire_lock, holder}
use kuzu_event_bus.Databases.Tables.{
  DatabasePath, path_key, object_key_key, DatabaseRow, SnapshotRow, find_snapshot,
}
use kuzu_event_bus.Databases.Files.{
  Node, file, dir, Object, unpack_object, snapshot_source, extract_database,
}
use kuzu_event_bus.Databases.Snapshots.{
  Reply, ok, Estate, SnapshotCall, RestoreCall, database_lock, located, downloaded, restore_chosen,
  create_snapshot, restore_from_snapshot,
}
use kuzu_event_bus.Databases.Snapshots.Frame.{create_snapshot_keeps}
use kuzu_event_bus.Databases.Snapshots.Taken.{snapshot_target, taken}
use kuzu_event_bus.Databases.Snapshots.Restoring.{restore_target}

acquire_lock-free :
    (now token : ℕ) (resource : Resource) (seconds : ℕ) (locks : LockStore)
    → holder now resource locks ≡ none
    → (acquire_lock now token resource seconds locks).0 ≡ some token
unfolding acquire_lock
acquire_lock-free now token resource seconds locks free =
    elim (Option-cases (holder now resource locks)) [
      | inl e ↦ ground arith
      | inr (t, e) ↦ absurd (ground arith)
    ]

located-allowed :
    (allowed : Bool) (tenant : ℕ) (o : Option DatabaseRow) {path : DatabasePath}
    → located allowed tenant o ≡ ok path
    → located true tenant o ≡ ok path
located-allowed true tenant o h = h
located-allowed false tenant o h = cc

module _ {G : Type 0} where
  -- Nothing stands at the destination, or what stands there is of the same kind: a file or a directory.
  abbrev pub SameKind : Node G → Option (Node G) → Type 0
  SameKind (file g) (some (dir h inner)) = ⊥
  SameKind (dir g inner) (some (file h)) = ⊥
  SameKind _ _ = Unit

  pub extract_database-same :
      (n : Node G) (dest : Option (Node G)) → SameKind n dest → extract_database n dest ≡ some n
  extract_database-same (file g) none h = refl
  extract_database-same (file g) (some (file k)) h = refl
  extract_database-same (file g) (some (dir k inner)) h = elim h [ ]
  extract_database-same (dir g i) none h = refl
  extract_database-same (dir g i) (some (file k)) h = elim h [ ]
  extract_database-same (dir g i) (some (dir k inner)) h = refl

  abbrev Done : DatabasePath → Node G → Reply (Unit {0}) × Estate G → Type 0
  Done path node out = (out.0 ≡ ok tt) × (Dict.get out.1.disk path ≡ some node)

  downloaded-works :
      (c : RestoreCall) (path : DatabasePath) (object : Object G) (node : Node G) (s : Estate G)
      → c.fault ≡ none
      → unpack_object object (Dict.get s.disk path) ≡ some node
      → Done path node (downloaded c path (some object) s)
  downloaded-works c path object node s h unpacked =
      simp (h, unpacked) ((refl, get-put_same s.disk path node))

  restore_chosen-works :
      (c : RestoreCall) (s : Estate G) (path : DatabasePath) (snapshot : SnapshotRow)
      (object : Object G) (node : Node G)
      → holder c.now (database_lock "restore" c.database_id) s.locks ≡ none
      → Dict.get s.objects snapshot.object_key ≡ some object
      → c.fault ≡ none
      → unpack_object object (Dict.get s.disk path) ≡ some node
      → Done path node (restore_chosen c path (some snapshot) s)
  restore_chosen-works c s path snapshot object node free stored h unpacked =
      simp
        (
          acquire_lock-free c.now c.token (database_lock "restore" c.database_id) 30000000 s.locks
              free,
          stored,
          h,
          unpacked,
        )
        ((refl, get-put_same s.disk path node))

  pub restore_from_snapshot_works :
      (c : RestoreCall) (s : Estate G) (path : DatabasePath) (snapshot : SnapshotRow)
      (object : Object G) (node : Node G)
      → restore_target c s ≡ ok path
      → find_snapshot c.snapshot_id s.snapshots ≡ some snapshot
      → snapshot.database_id ≡ c.database_id
      → holder c.now (database_lock "restore" c.database_id) s.locks ≡ none
      → Dict.get s.objects snapshot.object_key ≡ some object
      → c.fault ≡ none
      → unpack_object object (Dict.get s.disk path) ≡ some node
      → Done path node (restore_from_snapshot c s)
  unfolding restore_from_snapshot
  restore_from_snapshot_works c s path snapshot object node target found own free stored h
        unpacked =
      simp (target, found, (nat_beq_iff snapshot.database_id c.database_id).1 own)
        (restore_chosen-works c s path snapshot object node free stored h unpacked)

  -- The call that restores the database from the snapshot that `c` has made.
  abbrev pub restore_of : SnapshotCall G → ℕ → ℕ → RestoreCall
  restore_of c now token = record {
    allowed = true;
    now = now;
    token = token;
    tenant_id = c.tenant_id;
    database_id = c.database_id;
    snapshot_id = c.snapshot_id;
    fault = none;
  }

  -- Whatever becomes of the files at the databases' paths after a snapshot was created, a restore from
  -- it, permitted and undisturbed, succeeds and puts back what the snapshot was taken of, provided
  -- that the path is then free or holds a file for a file, a directory for a directory.
  pub restore_from_snapshot-create_snapshot :
      (c : SnapshotCall G) (s : Estate G) (disk : Dict DatabasePath (Node G)) (now token : ℕ)
      {row : SnapshotRow} {path : DatabasePath} {node : Node G}
      → (create_snapshot c s).0 ≡ ok row
      → snapshot_target c s ≡ ok path
      → Dict.get (create_snapshot c s).1.disk path ≡ some node
      → SameKind (snapshot_source node) (Dict.get disk path)
      → holder now (database_lock "restore" c.database_id) (create_snapshot c s).1.locks ≡ none
      → Done path (snapshot_source node) (
          restore_from_snapshot
            (restore_of c now token)
            (record (create_snapshot c s).1 { disk = disk }))
  restore_from_snapshot-create_snapshot c s disk now token {row} {path} {node} created at stands
        kind free =
      let (found, own, stored, key) = taken c s created at stands in
      restore_from_snapshot_works (restore_of c now token)
        (record (create_snapshot c s).1 { disk = disk }) path row _ (snapshot_source node)
        (rw (create_snapshot_keeps c s).0 (located-allowed c.allowed c.tenant_id _ at)) found own
        free stored refl (extract_database-same _ _ kind)
