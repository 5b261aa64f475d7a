-- ===== src/Databases/Branching/Latest.antt =====
-- A branch that is created from the latest contents of its source, and one from a chosen snapshot.
use kuzu_event_bus.Prelude.{
  ℕ, ◌+◌, ◌≤◌, length, Bool, false, [], ◌∷◌, ◌≡◌, ◌≢◌, refl, sym, ap, ◌∙◌, true, Option, none, some,
  arith, nat_key,
}
use kuzu_event_bus.Dict
use kuzu_event_bus.Text.{Text}
use kuzu_event_bus.Branches.{to_full_name}
use kuzu_event_bus.Databases.Tables.{
  DatabasePath, path_key, ObjectKey, object_key_key, DatabaseRow, SnapshotRow, find_database,
  find_snapshot,
}
use kuzu_event_bus.Databases.Files.{Node, Object, snapshot_source, unpack_object}
use kuzu_event_bus.Databases.Snapshots.{ok, Estate, SnapshotCall, located, create_snapshot}
use kuzu_event_bus.Databases.Snapshots.Frame.{create_snapshot_keeps}
use kuzu_event_bus.Databases.Snapshots.Taken.{
  snapshot_target, taken, archive_of, some-injective, ok-injective,
}
use kuzu_event_bus.Databases.Snapshots.RoundTrip.{SameKind, extract_database-same}
use kuzu_event_bus.Databases.Provision.{name_or}
use kuzu_event_bus.Databases.Provision.Names.{database_name_bounded, length-to_full_name}
use kuzu_event_bus.Databases.Provision.Created.{provision-objects}
use kuzu_event_bus.Databases.Branching.{
  latest, of_snapshot, BranchCall, BranchResponse, base_snapshot, found_or_error, provision_call,
  create_branch,
}
use kuzu_event_bus.Databases.Branching.Copy.{branch_path, create_branch-Grown}
use kuzu_event_bus.Databases.Branching.Contents.{finished}
use kuzu_event_bus.Databases.Branching.Whole.{Branched, create_branch_succeeded}

module _ {G : Type 0} (c : BranchCall G) where
  abbrev pub source_snapshot : SnapshotCall G
  source_snapshot = record c.snapshot {
    tenant_id = c.tenant_id;
    database_id = c.source_database_id;
  }

  source-other :
      (allowed : Bool) (o : Option DatabaseRow) {path : DatabasePath}
      → located allowed c.tenant_id o ≡ ok path
      → o ≢ none
  source-other false o at e = cc
  source-other true none at e = cc
  source-other true (some r) at e = cc

  full_name-given :
      (value parent default : Text)
      → name_or (some (to_full_name value parent)) default ≡ to_full_name value parent
  unfolding to_full_name
  full_name-given value [] default = refl
  full_name-given value (x ∷ parent) default = refl

  abbrev pub branch_state : Estate G → Estate G
  branch_state s = (create_branch c s).1

  -- The row of the branch that the call has answered with.
  branch_row :
      (s : Estate G) {r : BranchResponse}
      → Branched c s r (branch_state s)
      → (meta : DatabaseRow) × (find_database r.branch_database_id (branch_state s).databases
          ≡ some meta)
        × (meta.name ≡ to_full_name c.branch_name c.source_database_name)
        × (meta.tenant_id ≡ c.tenant_id)
  branch_row s {r} b =
      let made = b.created in
      let id : r.branch_database_id ≡ c.provision.metadata_id =
        ap (λ (x : BranchResponse). x.branch_database_id) b.filled.is_response
        ∙ ap (λ (m : DatabaseRow). m.id) made.is_meta in
      let name : made.name ≡ to_full_name c.branch_name c.source_database_name =
        (database_name_bounded _ made.valid).0
        ∙ full_name-given c.branch_name c.source_database_name c.provision.default_database_name in
      (
        b.meta,
        ap (λ i. find_database i (branch_state s).databases) id
            ∙ ap (find_database c.provision.metadata_id) b.filled.databases
            ∙ made.found,
        ap (λ (m : DatabaseRow). m.name) made.is_meta ∙ name,
        ap (λ (m : DatabaseRow). m.tenant_id) made.is_meta,
      )

  abbrev base_state : Estate G → Estate G
  base_state s = (base_snapshot c c.from_snapshot s).1

  -- The branch holds what the base snapshot's object unpacks to, where that object is not one of the
  -- new database itself.
  branch_holds :
      (s : Estate G) {r : BranchResponse} (b : Branched c s r (branch_state s)) (object : Object G)
      (made node : Node G)
      → Dict.get (base_state s).objects b.base.object_key ≡ some object
      → b.base.object_key.database_id ≢ c.provision.metadata_id
      → c.provision.created ≡ some made
      → unpack_object object (some made) ≡ some node
      → Dict.get (branch_state s).disk (branch_path c)
        ≡ some (finished c c.from_snapshot b.base node)
  branch_holds s b object made node stored other kuzu unpacks =
      let f = b.filled in
      let same_object : f.object ≡ object = some-injective (
        sym f.stored
        ∙ provision-objects (provision_call c) (base_state s) b.base.object_key other
        ∙ stored) in
      let same_made : b.created.node ≡ made = some-injective (sym b.created.made ∙ kuzu) in
      let unpacked : unpack_object object (some made) ≡ some f.node =
        ap (λ o. unpack_object o (some made)) (sym same_object)
        ∙ ap (λ m. unpack_object f.object (some m)) (sym same_made)
        ∙ ap (unpack_object f.object) (sym b.created.placed)
        ∙ f.unpacked in
      let same_node : f.node ≡ node = some-injective (sym unpacked ∙ unpacks) in
      f.placed ∙ ap (λ n. some (finished c c.from_snapshot b.base n)) same_node

  -- Where creating a branch from the latest contents succeeds and Kuzu has made a database of the same
  -- kind for it, a file or a directory, the source stays as it was, the branch holds what a snapshot
  -- takes of the source, and its row stands in the table under the full name and the tenant.
  pub create_branch_copies :
      (s : Estate G) {r : BranchResponse} {path : DatabasePath} {source made : Node G}
      → c.from_snapshot ≡ latest
      → (create_branch c s).0 ≡ ok r
      → snapshot_target source_snapshot s ≡ ok path
      → Dict.get s.disk path ≡ some source
      → c.provision.created ≡ some made
      → SameKind (snapshot_source source) (some made)
      → (Dict.get (create_branch c s).1.disk path ≡ some source)
        × (Dict.get (create_branch c s).1.disk (branch_path c) ≡ some (snapshot_source source))
        × ((meta : DatabaseRow) × (find_database r.branch_database_id
                (create_branch c s).1.databases
              ≡ some meta)
            × (meta.name ≡ to_full_name c.branch_name c.source_database_name)
            × (meta.tenant_id ≡ c.tenant_id))
  create_branch_copies s {r} {path} {source} {made} mode h at stands kuzu kind =
      let b = create_branch_succeeded c s h in
      let as_latest : base_snapshot c c.from_snapshot s ≡ create_snapshot source_snapshot s =
        ap (λ o. base_snapshot c o s) mode in
      let keeps = create_snapshot_keeps source_snapshot s in
      let (found, own, stored, key) =
        taken source_snapshot s (sym (ap (λ o. o.0) as_latest) ∙ b.based) at
          (keeps.2 path source stands) in
      let new : find_database c.provision.metadata_id s.databases ≡ none =
        ap (find_database c.provision.metadata_id) (sym keeps.0)
        ∙ ap (λ o. find_database c.provision.metadata_id o.1.databases) (sym as_latest)
        ∙ b.created.new_id in
      (
        (create_branch-Grown c s).files path source stands,
        branch_holds s b (archive_of source_snapshot source) made (snapshot_source source)
              (ap (λ o. Dict.get o.1.objects b.base.object_key) as_latest ∙ stored)
              (λ e.
                source-other c.snapshot.allowed (find_database c.source_database_id s.databases) at
                  (ap (λ i. find_database i s.databases)
                      (sym (ap (λ (k : ObjectKey). k.database_id) key) ∙ e)
                    ∙ new))
              kuzu (extract_database-same (snapshot_source source) (some made) kind)
            ∙ ap (λ o. some (finished c o b.base (snapshot_source source))) mode,
        branch_row s b,
      )

  -- Where creating a branch from a snapshot's id succeeds, the branch holds what the snapshot's object
  -- unpacks to on what Kuzu has made for it, if that object is stored and is not the branch's own. The
  -- snapshot is looked up by its id alone: its tenant and its database may be any.
  pub create_branch_of_snapshot :
      (s : Estate G) (id : ℕ) {r : BranchResponse} {base : SnapshotRow} {object : Object G}
      {made node : Node G}
      → c.from_snapshot ≡ of_snapshot id
      → (create_branch c s).0 ≡ ok r
      → find_snapshot id s.snapshots ≡ some base
      → Dict.get s.objects base.object_key ≡ some object
      → base.object_key.database_id ≢ c.provision.metadata_id
      → c.provision.created ≡ some made
      → unpack_object object (some made) ≡ some node
      → (Dict.get (create_branch c s).1.disk (branch_path c) ≡ some node)
        × (r.origin_snapshot_id ≡ base.id)
  create_branch_of_snapshot s id {r} {base} {object} {made} {node} mode h found stored other kuzu
        unpacks =
      let b = create_branch_succeeded c s h in
      let chosen : base_snapshot c c.from_snapshot s ≡ (ok base, s) =
        ap (λ o. base_snapshot c o s) mode ∙ ap (λ o. found_or_error o s) found in
      let same : base ≡ b.base = ok-injective (sym (ap (λ o. o.0) chosen) ∙ b.based) in
      (
        branch_holds s b object made node
              (ap (λ o. Dict.get o.1.objects b.base.object_key) chosen
                ∙ ap (λ (x : SnapshotRow). Dict.get s.objects x.object_key) (sym same)
                ∙ stored)
              (λ e. other (ap (λ (x : SnapshotRow). x.object_key.database_id) same ∙ e)) kuzu
              unpacks
            ∙ ap (λ o. some (finished c o b.base node)) mode,
        ap (λ (x : BranchResponse). x.origin_snapshot_id) b.filled.is_response
            ∙ ap (λ (x : SnapshotRow). x.id) (sym same),
      )

  -- A branch is created only if the names of its source and of the branch have at most 31 characters
  -- together.
  pub create_branch_bounded :
      (s : Estate G) {r : BranchResponse}
      → (create_branch c s).0 ≡ ok r
      → length c.source_database_name + length c.branch_name ≤ 31
  create_branch_bounded s h =
      let b = create_branch_succeeded c s h in
      let bound = (database_name_bounded _ b.created.valid).2 in
      let full =
        full_name-given c.branch_name c.source_database_name c.provision.default_database_name in
      omega (arith, bound, ap length full, length-to_full_name c.branch_name c.source_database_name)
