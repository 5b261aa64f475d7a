-- ===== src/Databases/Branching/Whole.antt =====
-- Creating a branch as a whole: what a call that succeeds has made.
use kuzu_event_bus.Prelude.{◌≡◌, refl, sym, ap, subst, ◌∙◌, arith, Option, none, some}
use kuzu_event_bus.Text.{Text}
use kuzu_event_bus.Branches.{branch_name}
use kuzu_event_bus.Databases.Tables.{
  path_key, object_key_key, DatabaseRow, SnapshotRow, save_snapshot,
}
use kuzu_event_bus.Databases.Snapshots.{Reply, ok, err, Estate}
use kuzu_event_bus.Databases.Provision.{provision}
use kuzu_event_bus.Databases.Provision.Created.{Created, provision_succeeded}
use kuzu_event_bus.Databases.Branching.{
  BranchCall, BranchResponse, base_snapshot, duplicate, branch_provisioned, provision_call,
  based_on, with_valid_name, create_branch,
}
use kuzu_event_bus.Databases.Branching.Copy.{Listed-provision}
use kuzu_event_bus.Databases.Branching.Contents.{Filled, duplicated-ok}

module _ {G : Type 0} (c : BranchCall G) where
  -- The whole call: the base snapshot, the branch's database, and what it was filled with.
  pub record Branched (s : Estate G) (r : BranchResponse) (s' : Estate G) : Type 0 where
    pub base : SnapshotRow
    pub meta : DatabaseRow
    pub valid : branch_name c.branch_name ≡ some c.branch_name
    pub based : (base_snapshot c c.from_snapshot s).0 ≡ ok base
    pub created :
        Created
          (provision_call c)
          meta
          (base_snapshot c c.from_snapshot s).1
          (provision (provision_call c) (base_snapshot c c.from_snapshot s).1).1
    pub filled :
        Filled c base meta
          (provision (provision_call c) (base_snapshot c c.from_snapshot s).1).1
          r
          s'

  branch_provisioned-ok :
      (base : SnapshotRow) (s : Estate G) (out : Reply DatabaseRow × Estate G) {r : BranchResponse}
      → provision (provision_call c) s ≡ out
      → (branch_provisioned c base out).0 ≡ ok r
      → (meta : DatabaseRow) × Created (provision_call c) meta s out.1
        × Filled c base meta out.1 r (branch_provisioned c base out).1
  branch_provisioned-ok base s (err e, s') q h = cc
  branch_provisioned-ok base s (ok meta, s') q h =
      let made : Created (provision_call c) meta s s' =
        subst (λ o. Created (provision_call c) meta s o.1) q
          (provision_succeeded (provision_call c) s (ap (λ o. o.0) q)) in
      (
        meta,
        made,
        duplicated-ok c base meta (save_snapshot (duplicate c base meta) s'.snapshots) s'
            (Listed-provision c s s' made) refl h,
      )

  branch_name-same : (value : Text) {name : Text} → branch_name value ≡ some name → name ≡ value
  unfolding branch_name
  branch_name-same value {name} h = ground arith

  with_valid_name-ok :
      (o : Option Text) (s : Estate G) {r : BranchResponse}
      → branch_name c.branch_name ≡ o
      → (with_valid_name c o s).0 ≡ ok r
      → Branched s r (with_valid_name c o s).1
  with_valid_name-ok none s e h = cc
  with_valid_name-ok (some name) s {r} e h = go (base_snapshot c c.from_snapshot s) refl h
    where
      go :
          (out : Reply SnapshotRow × Estate G)
          → base_snapshot c c.from_snapshot s ≡ out
          → (based_on c out).0 ≡ ok r
          → Branched s r (based_on c out).1
      go (err x, s') q k = cc
      go (ok base, s') q k =
          let (meta, made, filled) =
            branch_provisioned-ok base s' (provision (provision_call c) s') refl k in
          record {
            base = base;
            meta = meta;
            valid = e ∙ ap some (branch_name-same c.branch_name e);
            based = ap (λ o. o.0) q;
            created =
                subst (λ x. Created (provision_call c) meta x (provision (provision_call c) x).1)
                  (sym (ap (λ o. o.1) q)) made;
            filled =
                subst
                  (λ x.
                    Filled c base meta (provision (provision_call c) x).1 r
                      (branch_provisioned c base (provision (provision_call c) s')).1)
                  (sym (ap (λ o. o.1) q)) filled;
          }

  pub create_branch_succeeded :
      (s : Estate G) {r : BranchResponse}
      → (create_branch c s).0 ≡ ok r
      → Branched s r (create_branch c s).1
  unfolding create_branch
  create_branch_succeeded s h = with_valid_name-ok (branch_name c.branch_name) s refl h
