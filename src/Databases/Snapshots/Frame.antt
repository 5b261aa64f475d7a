-- ===== src/Databases/Snapshots/Frame.antt =====
-- What creating a snapshot leaves as it was, whatever its outcome.
use kuzu_event_bus.Prelude.{
  ℕ, ◌≡◌, ◌≢◌, refl, sym, ◌∙◌, Option, none, some, List, inl, inr, Bool-cases,
}
use kuzu_event_bus.Dict
use kuzu_event_bus.Dict.{Dict, get-put_other}
use kuzu_event_bus.Jobs.Locks.{acquire_lock}
use kuzu_event_bus.Databases.Tables.{
  DatabasePath, path_key, ObjectKey, object_key_key, SnapshotRow, collides, save_snapshot,
  find_database,
}
use kuzu_event_bus.Databases.Unique.{Apart, save_snapshot-Apart}
use kuzu_event_bus.Databases.Files.{Node, Object}
use kuzu_event_bus.Databases.Snapshots.{
  Reply, ok, err, Estate, SnapshotCall, object_key_of, row_of, database_lock, located, recorded,
  uploaded, archived, initialize, read_source, snapshot_locked, snapshot_located, create_snapshot,
}

module _ {G : Type 0} (c : SnapshotCall G) where
  -- The databases and the provisioning adapter's cache are as before, every file or directory at a
  -- database's path is as before, every object but the call's own is as before, and the rows of
  -- snapshots stay apart.
  abbrev pub Framed : Estate G → Estate G → Type 0
  Framed s s' =
      (s'.databases ≡ s.databases)
      × (s'.db_cache ≡ s.db_cache)
      × ((p : DatabasePath) (n : Node G) → Dict.get s.disk p ≡ some n → Dict.get s'.disk p ≡ some n)
      × ((k : ObjectKey) → k ≢ object_key_of c → Dict.get s'.objects k ≡ Dict.get s.objects k)
      × (Apart collides s.snapshots → Apart collides s'.snapshots)

  refl-Framed : (s : Estate G) → Framed s s
  refl-Framed s = (refl, refl, (λ p n h. h), (λ k h. refl), λ h. h)

  put_object :
      (object : Object G) (s : Estate G) (k : ObjectKey)
      → k ≢ object_key_of c
      → Dict.get (Dict.put s.objects (object_key_of c) object) k ≡ Dict.get s.objects k
  put_object object s k h = get-put_other s.objects (object_key_of c) k object (λ e. h (sym e))

  recorded-Framed :
      (object : Object G) (o : Option (List SnapshotRow)) (s : Estate G)
      → save_snapshot (row_of c object) s.snapshots ≡ o
      → Framed s
          (recorded c object o
            (record s { objects = Dict.put s.objects (object_key_of c) object })).1
  recorded-Framed object none s h = (refl, refl, (λ p n e. e), put_object object s, λ e. e)
  recorded-Framed object (some rows) s h = (
    refl,
    refl,
    (λ p n e. e),
    put_object object s,
    save_snapshot-Apart (row_of c object) s.snapshots h,
  )

  uploaded-Framed : (object : Object G) (s : Estate G) → Framed s (uploaded c object s).1
  uploaded-Framed object s = elim (Bool-cases c.upload_fails) [
    | inl e ↦ simp e (refl-Framed s)
    | inr e ↦ simp e (recorded-Framed object (save_snapshot (row_of c object) s.snapshots) s refl)
  ]

  archived-Framed : (node : Node G) (s : Estate G) → Framed s (archived c node s).1
  archived-Framed node s = elim (Bool-cases c.copy_fails) [
    | inl e ↦ simp e (refl-Framed s)
    | inr e ↦ simp e (uploaded-Framed _ s)
  ]

  -- What `Framed` says is the same of an estate that has a further path.
  put_path :
      (path : DatabasePath) (node : Node G) (s : Estate G) (p : DatabasePath) (n : Node G)
      → Dict.get s.disk path ≡ none
      → Dict.get s.disk p ≡ some n
      → Dict.get (Dict.put s.disk path node) p ≡ some n
  put_path path node s p n free h = get-put_other s.disk path p node (λ e. clash e) ∙ h
    where
      clash : path ≡ p → ⊥
      clash e = cc

  initialize-Framed :
      (path : DatabasePath) (o : Option (Node G)) (s : Estate G)
      → Dict.get s.disk path ≡ none
      → Framed s (initialize c path o s).1
  initialize-Framed path none s free = refl-Framed s
  initialize-Framed path (some node) s free =
      let (dbs, cache, disk, objects, rows) =
        archived-Framed node (record s { disk = Dict.put s.disk path node }) in
      (dbs, cache, (λ p n h. disk p n (put_path path node s p n free h)), objects, rows)

  read_source-Framed :
      (path : DatabasePath) (o : Option (Node G)) (s : Estate G)
      → Dict.get s.disk path ≡ o
      → Framed s (read_source c path o s).1
  read_source-Framed path none s e = initialize-Framed path c.initialized s e
  read_source-Framed path (some node) s e = archived-Framed node s

  snapshot_locked-Framed :
      (path : DatabasePath) (token : Option ℕ) (s : Estate G)
      → Framed s (snapshot_locked c path token s).1
  snapshot_locked-Framed path none s = refl-Framed s
  snapshot_locked-Framed path (some token) s = read_source-Framed path (Dict.get s.disk path) s refl

  snapshot_located-Framed :
      (o : Reply DatabasePath) (s : Estate G) → Framed s (snapshot_located c o s).1
  snapshot_located-Framed (err e) s = refl-Framed s
  snapshot_located-Framed (ok path) s =
      let (token, locks) =
        acquire_lock c.now c.token (database_lock "snapshot" c.database_id) 10000000 s.locks in
      snapshot_locked-Framed path token (record s { locks = locks })

  pub create_snapshot_keeps : (s : Estate G) → Framed s (create_snapshot c s).1
  unfolding create_snapshot
  create_snapshot_keeps s =
      snapshot_located-Framed
        (located c.allowed c.tenant_id (find_database c.database_id s.databases)) s

  -- Creating a snapshot, whatever its outcome, changes no row of a database, no file or directory that
  -- stands at a database's path, and no object under another key than its own.
  pub create_snapshot_framed :
      (s : Estate G) (path : DatabasePath) (node : Node G) (key : ObjectKey)
      → Dict.get s.disk path ≡ some node
      → key ≢ object_key_of c
      → ((create_snapshot c s).1.databases ≡ s.databases)
        × (Dict.get (create_snapshot c s).1.disk path ≡ some node)
        × (Dict.get (create_snapshot c s).1.objects key ≡ Dict.get s.objects key)
  create_snapshot_framed s path node key stands other =
      let (dbs, cache, disk, objects, rows) = create_snapshot_keeps s in
      (dbs, disk path node stands, objects key other)
