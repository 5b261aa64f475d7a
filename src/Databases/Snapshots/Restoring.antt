-- ===== src/Databases/Snapshots/Restoring.antt =====
-- What restoring from a snapshot changes, and what it leaves as it was.
use kuzu_event_bus.Prelude.{
  ℕ, ◌≡◌, ◌≢◌, refl, ap, ◌∙◌, ◌⊎◌, Option, none, some, arith, inl, inr, nat_key, nat_beq_iff,
}
use kuzu_event_bus.Dict
use kuzu_event_bus.Dict.{Dict, get-put_other, get-remove}
use kuzu_event_bus.Jobs.Locks.{acquire_lock}
use kuzu_event_bus.Databases.Tables.{
  DatabasePath, path_key, same_path_iff, object_key_key, SnapshotRow, find_snapshot, find_database,
}
use kuzu_event_bus.Databases.Files.{Node, dir, Object, single, unpack_object}
use kuzu_event_bus.Databases.Snapshots.{
  UseCaseError, extract_failed, RestoreFault, download_raises, copy_raises, put_or_remove, unpacked,
  Reply, ok, err, Estate, RestoreCall, database_lock, located, snapshot_of, replaced, downloaded,
  restore_locked, restore_chosen, restore_located, restore_from_snapshot,
}

-- The path is not the call's target, or the copying does not raise.
abbrev pub IsSpared : RestoreCall → Reply DatabasePath → DatabasePath → Type 0
IsSpared c target p = (target ≢ ok p) ⊎ (c.fault ≢ some copy_raises)

module _ {G : Type 0} (c : RestoreCall) where
  -- Where the call would restore to, if it is allowed to.
  abbrev pub restore_target : Estate G → Reply DatabasePath
  restore_target s = located c.allowed c.tenant_id (find_database c.database_id s.databases)

  -- All but the file at the call's own target, the locks and the cached information is as before.
  abbrev pub Kept : Reply DatabasePath → Estate G → Estate G → Type 0
  Kept target s s' =
      (s'.databases ≡ s.databases)
      × (s'.snapshots ≡ s.snapshots)
      × (s'.objects ≡ s.objects)
      × (s'.db_cache ≡ s.db_cache)
      × ((p : DatabasePath) → target ≢ ok p → Dict.get s'.disk p ≡ Dict.get s.disk p)

  refl-Kept : (target : Reply DatabasePath) (s : Estate G) → Kept target s s
  refl-Kept target s = (refl, refl, refl, refl, λ p h. refl)

  replaced-Kept :
      (path : DatabasePath) (o : Option (Node G)) (s : Estate G)
      → Kept (ok path) s (replaced c path o s).1
  replaced-Kept path none s = refl-Kept (ok path) s
  replaced-Kept path (some node) s =
      (refl, refl, refl, refl, λ p h. get-put_other s.disk path p node (λ e. h (ap ok e)))

  put_or_remove-other :
      (path p : DatabasePath) (o : Option (Node G)) (disk : Dict DatabasePath (Node G))
      → path ≢ p
      → Dict.get (put_or_remove path o disk) p ≡ Dict.get disk p
  put_or_remove-other path p (some node) disk ne = get-put_other disk path p node ne
  put_or_remove-other path p none disk ne =
      get-remove disk path p ∙ ground (arith, same_path_iff path p)

  unpacked-Kept :
      (fault : Option RestoreFault) (path : DatabasePath) (object : Object G) (s : Estate G)
      → Kept (ok path) s (unpacked c fault path object s).1
  unpacked-Kept none path object s =
      replaced-Kept path (unpack_object object (Dict.get s.disk path)) s
  unpacked-Kept (some download_raises) path object s = refl-Kept (ok path) s
  unpacked-Kept (some copy_raises) path object s =
      (refl, refl, refl, refl, λ p h. put_or_remove-other path p _ s.disk (λ e. h (ap ok e)))

  downloaded-Kept :
      (path : DatabasePath) (o : Option (Object G)) (s : Estate G)
      → Kept (ok path) s (downloaded c path o s).1
  downloaded-Kept path none s = refl-Kept (ok path) s
  downloaded-Kept path (some object) s = unpacked-Kept c.fault path object s

  restore_locked-Kept :
      (path : DatabasePath) (snapshot : SnapshotRow) (token : Option ℕ) (s : Estate G)
      → Kept (ok path) s (restore_locked c path snapshot token s).1
  restore_locked-Kept path snapshot none s = refl-Kept (ok path) s
  restore_locked-Kept path snapshot (some token) s =
      downloaded-Kept path (Dict.get s.objects snapshot.object_key) s

  restore_located-Kept :
      (target : Reply DatabasePath) (s : Estate G) → Kept target s (restore_located c target s).1
  restore_located-Kept (err e) s = refl-Kept (err e) s
  restore_located-Kept (ok path) s =
      go (snapshot_of c.database_id (find_snapshot c.snapshot_id s.snapshots))
    where
      go : (o : Option SnapshotRow) → Kept (ok path) s (restore_chosen c path o s).1
      go none = refl-Kept (ok path) s
      go (some snapshot) =
          let (token, locks) =
            acquire_lock c.now c.token (database_lock "restore" c.database_id) 30000000 s.locks in
          restore_locked-Kept path snapshot token (record s { locks = locks })

  pub restore_from_snapshot_keeps :
      (s : Estate G) → Kept (restore_target s) s (restore_from_snapshot c s).1
  unfolding restore_from_snapshot
  restore_from_snapshot_keeps s = restore_located-Kept (restore_target s) s

  abbrev At : DatabasePath → Estate G → Estate G → Type 0
  At p s s' = (Dict.get s'.disk p ≡ Dict.get s.disk p) × (s'.cached_info ≡ s.cached_info)

  replaced-At :
      (path p : DatabasePath) (o : Option (Node G)) (s : Estate G) (e : UseCaseError)
      → (replaced c path o s).0 ≡ err e
      → At p s (replaced c path o s).1
  replaced-At path p none s e h = (refl, refl)
  replaced-At path p (some node) s e h = cc

  unpacked-At :
      (fault : Option RestoreFault) (path p : DatabasePath) (object : Object G) (s : Estate G)
      (e : UseCaseError)
      → c.fault ≡ fault
      → IsSpared c (ok path) p
      → (unpacked c fault path object s).0 ≡ err e
      → At p s (unpacked c fault path object s).1
  unpacked-At none path p object s e f spared h =
      replaced-At path p (unpack_object object (Dict.get s.disk path)) s e h
  unpacked-At (some download_raises) path p object s e f spared h = (refl, refl)
  unpacked-At (some copy_raises) path p object s e f (inl other) h =
      (put_or_remove-other path p _ s.disk (λ q. other (ap ok q)), refl)
  unpacked-At (some copy_raises) path p object s e f (inr whole) h = elim (whole f) [ ]

  downloaded-At :
      (path p : DatabasePath) (o : Option (Object G)) (s : Estate G) (e : UseCaseError)
      → IsSpared c (ok path) p
      → (downloaded c path o s).0 ≡ err e
      → At p s (downloaded c path o s).1
  downloaded-At path p none s e spared h = (refl, refl)
  downloaded-At path p (some object) s e spared h =
      unpacked-At c.fault path p object s e refl spared h

  restore_locked-At :
      (path p : DatabasePath) (snapshot : SnapshotRow) (token : Option ℕ) (s : Estate G)
      (e : UseCaseError)
      → IsSpared c (ok path) p
      → (restore_locked c path snapshot token s).0 ≡ err e
      → At p s (restore_locked c path snapshot token s).1
  restore_locked-At path p snapshot none s e spared h = (refl, refl)
  restore_locked-At path p snapshot (some token) s e spared h =
      downloaded-At path p (Dict.get s.objects snapshot.object_key) s e spared h

  restore_chosen-At :
      (path p : DatabasePath) (o : Option SnapshotRow) (s : Estate G) (e : UseCaseError)
      → IsSpared c (ok path) p
      → (restore_chosen c path o s).0 ≡ err e
      → At p s (restore_chosen c path o s).1
  restore_chosen-At path p none s e spared h = (refl, refl)
  restore_chosen-At path p (some snapshot) s e spared h =
      restore_locked-At path p snapshot _ _ e spared h

  restore_located-At :
      (target : Reply DatabasePath) (p : DatabasePath) (s : Estate G) (e : UseCaseError)
      → IsSpared c target p
      → (restore_located c target s).0 ≡ err e
      → At p s (restore_located c target s).1
  restore_located-At (err x) p s e spared h = (refl, refl)
  restore_located-At (ok path) p s e spared h =
      restore_chosen-At path p (snapshot_of c.database_id (find_snapshot c.snapshot_id s.snapshots))
        s e spared h

  -- A restore from a snapshot that is refused or fails leaves the cached information as it was, and
  -- what stands at a path, if that is not the path to restore to, or if it is not the copying from the
  -- archive to it that raises on its way: a missing permission, snapshot, lock or download, and an
  -- archive that does not fit, cost no database.
  pub restore_from_snapshot_failed :
      (s : Estate G) (e : UseCaseError) (p : DatabasePath)
      → (restore_from_snapshot c s).0 ≡ err e
      → IsSpared c (restore_target s) p
      → (Dict.get (restore_from_snapshot c s).1.disk p ≡ Dict.get s.disk p)
        × ((restore_from_snapshot c s).1.cached_info ≡ s.cached_info)
  unfolding restore_from_snapshot
  restore_from_snapshot_failed s e p h spared = restore_located-At (restore_target s) p s e spared h

  -- If the copying of an archived directory raises, the directory that it was to replace is gone.
  pub downloaded_torn :
      (path : DatabasePath) (root : ℕ) (g old : G) (inner i : Option G) (s : Estate G)
      → c.fault ≡ some copy_raises
      → Dict.get s.disk path ≡ some (dir old i)
      → let object = single root (some (dir g inner)) in
        ((downloaded c path (some object) s).0 ≡ err extract_failed)
        × (Dict.get (downloaded c path (some object) s).1.disk path ≡ none)
  downloaded_torn path root g old inner i s f held =
      rw (f, held) (refl, get-remove s.disk path path ∙ ground (arith, same_path_iff path path))

  -- A snapshot of another database is refused before anything is done.
  pub restore_from_snapshot_foreign :
      (s : Estate G) (row : SnapshotRow)
      → find_snapshot c.snapshot_id s.snapshots ≡ some row
      → row.database_id ≢ c.database_id
      → (restore_from_snapshot c s).1 ≡ s
  unfolding restore_from_snapshot
  restore_from_snapshot_foreign s row found foreign = go (restore_target s)
    where
      refused : snapshot_of c.database_id (find_snapshot c.snapshot_id s.snapshots) ≡ none
      refused = rw found (ground (arith, nat_beq_iff row.database_id c.database_id))

      go : (target : Reply DatabasePath) → (restore_located c target s).1 ≡ s
      go (err e) = refl
      go (ok path) = rw refused refl
