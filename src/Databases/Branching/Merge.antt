-- ===== src/Databases/Branching/Merge.antt =====
-- Merging a branch (backend/src/application/usecases/branching/merge_branch.py): a snapshot of the
-- branch, restored into the target.
use kuzu_event_bus.Prelude.{ℕ, ◌≡◌, ◌≢◌, refl, ap, sym, subst, ◌∙◌, some, arith, nat_key}
use kuzu_event_bus.Dict
use kuzu_event_bus.Databases.Tables.{
  DatabasePath, path_key, object_key_key, SnapshotRow, find_snapshot,
}
use kuzu_event_bus.Databases.Snapshots.{
  Reply, ok, err, UseCaseError, Estate, SnapshotCall, RestoreCall, create_snapshot,
  restore_from_snapshot,
}
use kuzu_event_bus.Databases.Files.{Node}
use kuzu_event_bus.Databases.Snapshots.Frame.{create_snapshot_keeps}
use kuzu_event_bus.Databases.Snapshots.Taken.{create_snapshot_succeeded}
use kuzu_event_bus.Databases.Snapshots.Restoring.{restore_from_snapshot_foreign}
use kuzu_event_bus.Databases.Snapshots.Restored.{restore_from_snapshot_succeeded}

pub record MergeCall (G : Type 0) : Type 0 where
  pub tenant_id : ℕ
  pub branch_database_id : ℕ
  pub target_database_id : ℕ
  pub snapshot : SnapshotCall G
  pub restore : RestoreCall

module _ {G : Type 0} where
  abbrev pub merge_restored :
      SnapshotRow → Reply (Unit {0}) × Estate G → Reply SnapshotRow × Estate G
  merge_restored row (err e, s) = (err e, s)
  merge_restored row (ok _, s) = (ok row, s)

  abbrev pub merge_snapshotted :
      MergeCall G → Reply SnapshotRow × Estate G → Reply SnapshotRow × Estate G
  merge_snapshotted c (err e, s) = (err e, s)
  merge_snapshotted c (ok row, s) = merge_restored row (
      restore_from_snapshot
        (record c.restore {
          tenant_id = c.tenant_id;
          database_id = c.target_database_id;
          snapshot_id = row.id;
        })
        s)

  -- The response is given by the snapshot's row.
  unfoldable pub merge_branch : MergeCall G → Estate G → Reply SnapshotRow × Estate G
  merge_branch c s = merge_snapshotted c (
      create_snapshot
        (record c.snapshot { tenant_id = c.tenant_id; database_id = c.branch_database_id }) s)

module _ {G : Type 0} (c : MergeCall G) where
  abbrev snapshot_call : SnapshotCall G
  snapshot_call = record c.snapshot { tenant_id = c.tenant_id; database_id = c.branch_database_id }

  abbrev merge_call : SnapshotRow → RestoreCall
  merge_call row = record c.restore {
    tenant_id = c.tenant_id;
    database_id = c.target_database_id;
    snapshot_id = row.id;
  }

  -- An error, with every file or directory of a database as it was.
  abbrev Refused : {A : Type 0} → Estate G → Reply A × Estate G → Type 0
  Refused s out =
      (e : UseCaseError) × (out.0 ≡ err e)
      × ((p : DatabasePath) (n : Node G)
          → Dict.get s.disk p ≡ some n
          → Dict.get out.1.disk p ≡ some n)

  own_target :
      {row : SnapshotRow} (snapshot : SnapshotRow)
      → some row ≡ some snapshot
      → snapshot.database_id ≡ c.target_database_id
      → row.database_id ≡ c.target_database_id
  own_target {row} snapshot h own = ground arith

  foreign_restore :
      (row : SnapshotRow) (s : Estate G)
      → find_snapshot row.id s.snapshots ≡ some row
      → row.database_id ≢ c.target_database_id
      → Refused s (merge_restored row (restore_from_snapshot (merge_call row) s))
  foreign_restore row s found foreign = go _ refl
    where
      go :
          (out : Reply (Unit {0}) × Estate G)
          → restore_from_snapshot (merge_call row) s ≡ out
          → Refused s (merge_restored row out)
      go (err e, s') h =
          let unchanged : s' ≡ s =
            sym (ap (λ o. o.1) h)
            ∙ restore_from_snapshot_foreign (merge_call row) s row found foreign in
          (e, refl, λ p n k. rw unchanged k)
      go (ok u, s') h =
          let (path, passed) =
            restore_from_snapshot_succeeded (merge_call row) s (ap (λ o. o.0) h) in
          absurd (foreign (own_target passed.snapshot (sym found ∙ passed.found) passed.own))

  merge_branch-Refused :
      (s : Estate G) → c.branch_database_id ≢ c.target_database_id → Refused s (merge_branch c s)
  unfolding merge_branch
  merge_branch-Refused s foreign = go _ refl
    where
      kept :
          (p : DatabasePath) (n : Node G)
          → Dict.get s.disk p ≡ some n
          → Dict.get (create_snapshot snapshot_call s).1.disk p ≡ some n
      kept = (create_snapshot_keeps snapshot_call s).2

      go :
          (out : Reply SnapshotRow × Estate G)
          → create_snapshot snapshot_call s ≡ out
          → Refused s (merge_snapshotted c out)
      go (err e, s') h =
          (e, refl, λ p n k. subst (λ o. Dict.get o.1.disk p ≡ some n) h (kept p n k))
      go (ok row, s') h =
          let (path, target, holds) = create_snapshot_succeeded snapshot_call s (ap (λ o. o.0) h) in
          let (node, at_path, same, found, stored) = holds in
          let (e, error, disk) =
            foreign_restore row s'
              (subst (λ o. find_snapshot row.id o.1.snapshots ≡ some row) h
                (subst
                  (λ i. find_snapshot i (create_snapshot snapshot_call s).1.snapshots ≡ some row)
                  (sym (ap (λ (r : SnapshotRow). r.id) same)) found))
              (λ f. foreign (sym (ap (λ (r : SnapshotRow). r.database_id) same) ∙ f)) in
          (e, error, λ p n k. disk p n (subst (λ o. Dict.get o.1.disk p ≡ some n) h (kept p n k)))

  -- A merge into another database than the branch itself is never carried out: the call ends in an
  -- error, whatever the services answer, and every file or directory of a database is as it was.
  pub merge_branch_refused :
      (s : Estate G) (path : DatabasePath) (node : Node G)
      → c.branch_database_id ≢ c.target_database_id
      → Dict.get s.disk path ≡ some node
      → ((e : UseCaseError) × ((merge_branch c s).0 ≡ err e))
        × (Dict.get (merge_branch c s).1.disk path ≡ some node)
  merge_branch_refused s path node foreign h =
      let (e, error, disk) = merge_branch-Refused s foreign in ((e, error), disk path node h)
