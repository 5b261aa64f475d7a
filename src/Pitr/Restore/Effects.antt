-- ===== src/Pitr/Restore/Effects.antt =====
-- What a restore leaves, and what a refused or failed one does not touch.
use kuzu_event_bus.Prelude.{ℕ, ◌≡◌, ◌⊎◌, inl, refl, Option, none, some, List, arith}
use kuzu_event_bus.Pitr.{Timed, find_nearest_snapshot}
use kuzu_event_bus.Pitr.Replay.{Line}
use kuzu_event_bus.Pitr.Replay.Agreement.{lines_of, state_at}
use kuzu_event_bus.Pitr.Restore.{
  Outcome, err, RestoreError, Place, Placing, placed, failed, promote_raises, set_aside, Call, Site,
  Response, restore_snapshot, wal_of, contents_of, locked, replay_and_archive, with_snapshot,
  restore,
}
use kuzu_event_bus.Pitr.Restore.Renames.{LeftAt, LeftBy, restore_snapshot-LeftBy}

module _ {G : Type 0} (c : Call G) where
  -- Nothing but the locks may differ, and the place as a failure leaves it.
  abbrev pub Left : Site G → Site G → Type 0
  Left s s' =
      LeftAt c.rename_fault s.place s'.place
      × (s'.cached_info ≡ s.cached_info)
      × (s'.archives ≡ s.archives)
      × (s'.deleted_wal ≡ s.deleted_wal)

  replay_and_archive-Left :
      (snapshot : Timed) (o : Placing G) (s : Site G) (e : RestoreError)
      → LeftBy c.rename_fault s.place o
      → (replay_and_archive c snapshot o s).0 ≡ err e
      → Left s (replay_and_archive c snapshot o s).1
  replay_and_archive-Left snapshot (failed x place) s e left h = (left, refl, refl, refl)
  replay_and_archive-Left snapshot (placed place) s e left h = cc

  locked-Left :
      (snapshot : Timed) (token : Option ℕ) (s : Site G) (e : RestoreError)
      → (locked c snapshot token s).0 ≡ err e
      → Left s (locked c snapshot token s).1
  locked-Left snapshot none s e h = (inl refl, refl, refl, refl)
  locked-Left snapshot (some token) s e h =
      let found = c.download_snapshot snapshot.1.object_key in
      replay_and_archive-Left snapshot (restore_snapshot c.rename_fault c.root_name found s.place) s
        e (restore_snapshot-LeftBy c.rename_fault c.root_name found s.place) h

  with_snapshot-Left :
      (o : Option (Option Timed)) (s : Site G) (e : RestoreError)
      → (with_snapshot c o s).0 ≡ err e
      → Left s (with_snapshot c o s).1
  with_snapshot-Left none s e h = (inl refl, refl, refl, refl)
  with_snapshot-Left (some none) s e h = (inl refl, refl, refl, refl)
  with_snapshot-Left (some (some snapshot)) s e h = locked-Left snapshot _ _ e h

  -- A restore that is refused, or fails at any step up to putting the snapshot in place, leaves the
  -- cached information, the archives and the WAL as they were, and the database and the directories
  -- set aside too; only if the rename of the staged directory to the target raises may the
  -- database be gone from its place, and then the one that was there, if any, is added behind the
  -- directories set aside.
  pub restore_failed :
      (s : Site G) (e : RestoreError)
      → (restore c s).0 ≡ err e
      → (((restore c s).1.place ≡ s.place)
          ⊎ ((c.rename_fault ≡ some promote_raises)
              × ((restore c s).1.place.graph ≡ none)
              × ((restore c s).1.place.backups ≡ set_aside s.place.graph s.place.backups)))
        × ((restore c s).1.cached_info ≡ s.cached_info)
        × ((restore c s).1.archives ≡ s.archives)
        × ((restore c s).1.deleted_wal ≡ s.deleted_wal)
  unfolding restore
  restore_failed s e h =
      ground
        (arith, with_snapshot-Left (find_nearest_snapshot c.target_timestamp c.all_snapshots) s e)

module _ {G : Type 0} (c : Call G) (snapshot : Timed) (s : Site G) where
  -- The snapshot object as it is put in place.
  abbrev pub restored_place : Placing G
  restored_place =
      restore_snapshot c.rename_fault c.root_name (c.download_snapshot snapshot.1.object_key)
        s.place

  abbrev pub replayed_lines : List Line
  replayed_lines = lines_of (contents_of c (wal_of c snapshot.0))

  -- The database after the replay, from the place that the snapshot was put in.
  abbrev pub Restored : Response → Outcome Response × Site G → Type 0
  Restored r p =
      (r.snapshot_used ≡ snapshot.1.id)
      × ((pl : Place G) × (base : G) × (restored_place ≡ placed pl)
          × (pl.graph ≡ some base)
          × (p.1.place.graph
              ≡ some (state_at c.execute_query c.target_timestamp replayed_lines base)))
