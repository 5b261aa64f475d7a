-- ===== src/Databases/Snapshots/Taken.antt =====
-- What a snapshot that is created holds.
use kuzu_event_bus.Prelude.{
  ℕ, ◌≡◌, refl, sym, ap, ◌∙◌, Option, none, some, List, arith, inl, inr, Bool-cases,
}
use kuzu_event_bus.Dict
use kuzu_event_bus.Dict.{get-put_same}
use kuzu_event_bus.Databases.Tables.{
  DatabasePath, path_key, object_key_key, SnapshotRow, find_snapshot, find_database, save_snapshot,
}
use kuzu_event_bus.Databases.Unique.{find_snapshot-saved}
use kuzu_event_bus.Databases.Files.{Node, Object, single, snapshot_source}
use kuzu_event_bus.Databases.Snapshots.{
  Reply, ok, err, Estate, SnapshotCall, object_key_of, row_of, located, recorded, uploaded,
  archived, initialize, read_source, snapshot_locked, snapshot_located, create_snapshot,
}

pub ok-injective : {A : Type 0} {a b : A} → ok a ≡ ok b → a ≡ b
ok-injective {A} {a} {b} h = cc

pub some-injective : {A : Type 0} {a b : A} → some a ≡ some b → a ≡ b
some-injective {A} {a} {b} h = cc

module _ {G : Type 0} (c : SnapshotCall G) where
  -- Where the call takes the database from, if it is allowed to.
  abbrev pub snapshot_target : Estate G → Reply DatabasePath
  snapshot_target s = located c.allowed c.tenant_id (find_database c.database_id s.databases)

  -- The archive of a database: one directory of its id, with what stands for the database in it.
  abbrev pub archive_of : Node G → Object G
  archive_of node = single c.database_id (some (snapshot_source node))

  -- The row is found, and its object is the archive of what stands at the database's path.
  abbrev pub Holds : DatabasePath → SnapshotRow → Estate G → Type 0
  Holds path row s' =
      (node : Node G) × (Dict.get s'.disk path ≡ some node)
      × (row ≡ row_of c (archive_of node))
      × (find_snapshot c.snapshot_id s'.snapshots ≡ some row)
      × (Dict.get s'.objects (object_key_of c) ≡ some (archive_of node))

  recorded-ok :
      (object : Object G) (o : Option (List SnapshotRow)) (s : Estate G) {row : SnapshotRow}
      → save_snapshot (row_of c object) s.snapshots ≡ o
      → (recorded c object o s).0 ≡ ok row
      → (row ≡ row_of c object)
        × (find_snapshot c.snapshot_id (recorded c object o s).1.snapshots ≡ some row)
        × ((recorded c object o s).1.disk ≡ s.disk)
        × ((recorded c object o s).1.objects ≡ s.objects)
  recorded-ok object none s e h = cc
  recorded-ok object (some rows) s {row} e h =
      let same : row ≡ row_of c object = ground arith in
      (same, rw same (find_snapshot-saved (row_of c object) s.snapshots e), refl, refl)

  abbrev Stored : Object G → Estate G → SnapshotRow → Reply SnapshotRow × Estate G → Type 0
  Stored object s row out =
      (row ≡ row_of c object)
      × (find_snapshot c.snapshot_id out.1.snapshots ≡ some row)
      × (out.1.disk ≡ s.disk)
      × (Dict.get out.1.objects (object_key_of c) ≡ some object)

  uploaded-ok :
      (object : Object G) (s : Estate G) {row : SnapshotRow}
      → (uploaded c object s).0 ≡ ok row
      → Stored object s row (uploaded c object s)
  uploaded-ok object s {row} h = elim (Bool-cases c.upload_fails) [
    | inl e ↦ absurd (ground arith)
    | inr e ↦
        let (same, found, disk, objects) =
          recorded-ok object (save_snapshot (row_of c object) s.snapshots)
            (record s { objects = Dict.put s.objects (object_key_of c) object }) refl
            (ground arith) in
        simp e ((same, found, disk, rw objects (get-put_same s.objects (object_key_of c) object)))
  ]

  archived-ok :
      (node : Node G) (s : Estate G) {row : SnapshotRow}
      → (archived c node s).0 ≡ ok row
      → Stored (archive_of node) s row (archived c node s)
  archived-ok node s {row} h = elim (Bool-cases c.copy_fails) [
    | inl e ↦ absurd (ground arith)
    | inr e ↦ simp e (uploaded-ok (archive_of node) s (ground arith))
  ]

  read_source-ok :
      (path : DatabasePath) (o : Option (Node G)) (s : Estate G) {row : SnapshotRow}
      → Dict.get s.disk path ≡ o
      → (read_source c path o s).0 ≡ ok row
      → Holds path row (read_source c path o s).1
  read_source-ok path none s {row} e h = go c.initialized h
    where
      go :
          (o : Option (Node G))
          → (initialize c path o s).0 ≡ ok row
          → Holds path row (initialize c path o s).1
      go none k = cc
      go (some node) k =
          let (same, found, disk, objects) =
            archived-ok node (record s { disk = Dict.put s.disk path node }) k in
          (node, rw disk (get-put_same s.disk path node), same, found, objects)
  read_source-ok path (some node) s e h =
      let (same, found, disk, objects) = archived-ok node s h in
      (node, rw disk e, same, found, objects)

  snapshot_locked-ok :
      (path : DatabasePath) (token : Option ℕ) (s : Estate G) {row : SnapshotRow}
      → (snapshot_locked c path token s).0 ≡ ok row
      → Holds path row (snapshot_locked c path token s).1
  snapshot_locked-ok path none s h = cc
  snapshot_locked-ok path (some token) s h = read_source-ok path (Dict.get s.disk path) s refl h

  snapshot_located-ok :
      (target : Reply DatabasePath) (s : Estate G) {row : SnapshotRow}
      → (snapshot_located c target s).0 ≡ ok row
      → (path : DatabasePath) × (target ≡ ok path) × Holds path row (snapshot_located c target s).1
  snapshot_located-ok (err e) s h = cc
  snapshot_located-ok (ok path) s h = (path, refl, snapshot_locked-ok path _ _ h)

  -- A snapshot that is created is of a database of the tenant; its row is found under its id, and its
  -- object is the archive of what stands at the database's path.
  pub create_snapshot_succeeded :
      (s : Estate G) {row : SnapshotRow}
      → (create_snapshot c s).0 ≡ ok row
      → (path : DatabasePath) × (snapshot_target s ≡ ok path)
        × Holds path row (create_snapshot c s).1
  unfolding create_snapshot
  create_snapshot_succeeded s h = snapshot_located-ok (snapshot_target s) s h

  -- The same at a given path and for what stands there.
  pub taken :
      (s : Estate G) {row : SnapshotRow} {path : DatabasePath} {node : Node G}
      → (create_snapshot c s).0 ≡ ok row
      → snapshot_target s ≡ ok path
      → Dict.get (create_snapshot c s).1.disk path ≡ some node
      → (find_snapshot c.snapshot_id (create_snapshot c s).1.snapshots ≡ some row)
        × (row.database_id ≡ c.database_id)
        × (Dict.get (create_snapshot c s).1.objects row.object_key ≡ some (archive_of node))
        × (row.object_key ≡ object_key_of c)
  taken s {row} {path} {node} created at stands =
      let (p, target, holds) = create_snapshot_succeeded s created in
      let (n, at_p, same, found, stored) = holds in
      let p_path : p ≡ path = ok-injective (sym target ∙ at) in
      let n_node : n ≡ node =
        some-injective
          (sym at_p ∙ ap (λ q. Dict.get (create_snapshot c s).1.disk q) p_path ∙ stands) in
      (
        found,
        ap (λ (r : SnapshotRow). r.database_id) same,
        ap (λ k. Dict.get (create_snapshot c s).1.objects k)
              (ap (λ (r : SnapshotRow). r.object_key) same)
            ∙ stored
            ∙ ap (λ m. some (archive_of m)) n_node,
        ap (λ (r : SnapshotRow). r.object_key) same,
      )
