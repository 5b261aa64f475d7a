-- ===== src/Databases/Snapshots/Restored.antt =====
-- What a restore from a snapshot that succeeds has passed, and what it leaves at its target.
use kuzu_event_bus.Prelude.{ℕ, ◌≡◌, refl, Option, none, some, arith, nat_key, nat_beq_iff}
use kuzu_event_bus.Dict
use kuzu_event_bus.Dict.{Dict, get-put_other, get-put_same}
use kuzu_event_bus.Databases.Tables.{
  DatabasePath, path_key, object_key_key, SnapshotRow, find_snapshot,
}
use kuzu_event_bus.Databases.Files.{Node, Object, unpack_object}
use kuzu_event_bus.Databases.Snapshots.{
  Reply, ok, err, Estate, RestoreFault, download_raises, copy_raises, RestoreCall, snapshot_of,
  replaced, unpacked, downloaded, restore_locked, restore_chosen, restore_located,
  restore_from_snapshot,
}
use kuzu_event_bus.Databases.Snapshots.Restoring.{restore_target}

pub snapshot_of-some :
    (database : ℕ) (o : Option SnapshotRow) {snapshot : SnapshotRow}
    → snapshot_of database o ≡ some snapshot
    → (o ≡ some snapshot) × (snapshot.database_id ≡ database)
snapshot_of-some database none h = cc
snapshot_of-some database (some r) {snapshot} h = ground (arith, nat_beq_iff r.database_id database)

module _ {G : Type 0} (c : RestoreCall) where
  -- What a call that succeeds has passed, and what it leaves at its target.
  pub record Passed (path : DatabasePath) (s s' : Estate G) : Type 0 where
    pub snapshot : SnapshotRow
    pub object : Object G
    pub node : Node G
    pub at_target : restore_target c s ≡ ok path
    pub found : find_snapshot c.snapshot_id s.snapshots ≡ some snapshot
    pub own : snapshot.database_id ≡ c.database_id
    pub stored : Dict.get s.objects snapshot.object_key ≡ some object
    pub unpacked : unpack_object object (Dict.get s.disk path) ≡ some node
    pub placed : Dict.get s'.disk path ≡ some node

  abbrev Unpacked : DatabasePath → Option (Object G) → Estate G → Estate G → Type 0
  Unpacked path o s s' =
      (object : Object G) × (node : Node G) × (o ≡ some object)
      × (unpack_object object (Dict.get s.disk path) ≡ some node)
      × (Dict.get s'.disk path ≡ some node)

  replaced-ok :
      (path : DatabasePath) (o : Option (Node G)) (s : Estate G) {u : Unit {0}}
      → (replaced c path o s).0 ≡ ok u
      → (node : Node G) × (o ≡ some node) × (Dict.get (replaced c path o s).1.disk path ≡ some node)
  replaced-ok path none s h = cc
  replaced-ok path (some node) s h = (node, refl, get-put_same s.disk path node)

  unpacked-ok :
      (fault : Option RestoreFault) (path : DatabasePath) (object : Object G) (s : Estate G)
      {u : Unit {0}}
      → (unpacked c fault path object s).0 ≡ ok u
      → Unpacked path (some object) s (unpacked c fault path object s).1
  unpacked-ok none path object s h =
      let (node, found, placed) =
        replaced-ok path (unpack_object object (Dict.get s.disk path)) s h in
      (object, node, refl, found, placed)
  unpacked-ok (some download_raises) path object s h = cc
  unpacked-ok (some copy_raises) path object s h = cc

  downloaded-ok :
      (path : DatabasePath) (o : Option (Object G)) (s : Estate G) {u : Unit {0}}
      → (downloaded c path o s).0 ≡ ok u
      → Unpacked path o s (downloaded c path o s).1
  downloaded-ok path none s h = cc
  downloaded-ok path (some object) s h = unpacked-ok c.fault path object s h

  restore_locked-ok :
      (path : DatabasePath) (snapshot : SnapshotRow) (token : Option ℕ) (s : Estate G)
      {u : Unit {0}}
      → (restore_locked c path snapshot token s).0 ≡ ok u
      → Unpacked path
          (Dict.get s.objects snapshot.object_key)
          s
          (restore_locked c path snapshot token s).1
  restore_locked-ok path snapshot none s h = cc
  restore_locked-ok path snapshot (some token) s h =
      downloaded-ok path (Dict.get s.objects snapshot.object_key) s h

  restore_chosen-ok :
      (path : DatabasePath) (o : Option SnapshotRow) (s : Estate G) {u : Unit {0}}
      → (restore_chosen c path o s).0 ≡ ok u
      → (snapshot : SnapshotRow) × (o ≡ some snapshot)
        × Unpacked path (Dict.get s.objects snapshot.object_key) s (restore_chosen c path o s).1
  restore_chosen-ok path none s h = cc
  restore_chosen-ok path (some snapshot) s h =
      (snapshot, refl, restore_locked-ok path snapshot _ _ h)

  restore_located-ok :
      (target : Reply DatabasePath) (s : Estate G) {u : Unit {0}}
      → restore_target c s ≡ target
      → (restore_located c target s).0 ≡ ok u
      → (path : DatabasePath) × Passed path s (restore_located c target s).1
  restore_located-ok (err e) s t h = cc
  restore_located-ok (ok path) s t h =
      let (snapshot, chosen, contents) =
        restore_chosen-ok path (snapshot_of c.database_id (find_snapshot c.snapshot_id s.snapshots))
          s h in
      let (object, node, stored, unpacked, placed) = contents in
      let (found, own) =
        snapshot_of-some c.database_id (find_snapshot c.snapshot_id s.snapshots) chosen in
      (
        path,
        record {
          snapshot = snapshot;
          object = object;
          node = node;
          at_target = t;
          found = found;
          own = own;
          stored = stored;
          unpacked = unpacked;
          placed = placed;
        },
      )

  pub restore_from_snapshot_succeeded :
      (s : Estate G) {u : Unit {0}}
      → (restore_from_snapshot c s).0 ≡ ok u
      → (path : DatabasePath) × Passed path s (restore_from_snapshot c s).1
  unfolding restore_from_snapshot
  restore_from_snapshot_succeeded s h = restore_located-ok (restore_target c s) s refl h
