-- ===== src/Databases/Branching/Contents.antt =====
-- What the new branch holds.
use kuzu_event_bus.Prelude.{ℕ, ◌≡◌, refl, sym, ap, subst, ◌∙◌, true, Option, none, some, List}
use kuzu_event_bus.Dict
use kuzu_event_bus.Dict.{get-put_same}
use kuzu_event_bus.Databases.Tables.{
  DatabasePath, path_key, object_key_key, DatabaseRow, SnapshotRow, find_database, find_snapshot,
  save_snapshot,
}
use kuzu_event_bus.Databases.Unique.{find_snapshot-saved}
use kuzu_event_bus.Databases.Files.{Node, file, dir, Object, unpack_object}
use kuzu_event_bus.Databases.Snapshots.{Reply, ok, err, Estate, located, restore_from_snapshot}
use kuzu_event_bus.Databases.Snapshots.Restoring.{restore_from_snapshot_keeps}
use kuzu_event_bus.Databases.Snapshots.Restored.{restore_from_snapshot_succeeded}
use kuzu_event_bus.Databases.Snapshots.Taken.{some-injective}
use kuzu_event_bus.Databases.Branching.{
  Origin, latest, of_snapshot, at_time, unreadable, BranchCall, BranchResponse, put_node,
  replayed_node, replay, replay_located, replay_origin, response, branch_restored, duplicate,
  restore_call, duplicated,
}
use kuzu_event_bus.Databases.Branching.Copy.{branch_path, Listed, located-own}

module _ {G : Type 0} (c : BranchCall G) where
  -- What the replay makes of the restored contents, if a time was asked for.
  abbrev pub finished : Origin → SnapshotRow → Node G → Node G
  finished (at_time target) base (file g) = file (replay c target base g)
  finished (at_time target) base (dir g inner) = dir (replay c target base g) inner
  finished _ base node = node

  abbrev Replayed :
      Origin
      → SnapshotRow
      → DatabaseRow
      → Estate G
      → Node G
      → BranchResponse
      → Reply BranchResponse × Estate G
      → Type 0
  Replayed o base meta s node r out =
      (r ≡ response c base meta)
      × (Dict.get out.1.disk (branch_path c) ≡ some (finished o base node))
      × (out.1.objects ≡ s.objects)
      × (out.1.databases ≡ s.databases)

  put_node_placed :
      (path : DatabasePath) (o : Option (Node G)) (s : Estate G) {node : Node G}
      → o ≡ some node
      → (Dict.get (put_node path o s).disk path ≡ some node)
        × ((put_node path o s).objects ≡ s.objects)
        × ((put_node path o s).databases ≡ s.databases)
  put_node_placed path none s e = cc
  put_node_placed path (some n) s e = (get-put_same s.disk path n ∙ e, refl, refl)

  replayed_at :
      (target : ℕ) (base : SnapshotRow) (node : Node G)
      → replayed_node (replay c target base) (some node)
        ≡ some (finished (at_time target) base node)
  replayed_at target base (file g) = refl
  replayed_at target base (dir g inner) = refl

  replay_located-ok :
      (target : ℕ) (base : SnapshotRow) (meta : DatabaseRow) (o : Reply DatabasePath) (s : Estate G)
      (node : Node G) {r : BranchResponse}
      → ((path : DatabasePath) → o ≡ ok path → path ≡ branch_path c)
      → Dict.get s.disk (branch_path c) ≡ some node
      → (replay_located c target base meta o s).0 ≡ ok r
      → Replayed (at_time target) base meta s node r (replay_located c target base meta o s)
  replay_located-ok target base meta (err e) s node own at h = cc
  replay_located-ok target base meta (ok path) s node {r} own at h =
      let here = own path refl in
      let node_at : replayed_node (replay c target base) (Dict.get s.disk path)
          ≡ some (finished (at_time target) base node) =
        ap (λ p. replayed_node (replay c target base) (Dict.get s.disk p)) here
        ∙ ap (replayed_node (replay c target base)) at
        ∙ replayed_at target base node in
      let (placed, objects, databases) = put_node_placed path _ s node_at in
      (cc, ap (Dict.get _) (sym here) ∙ placed, objects, databases)

  replay_origin-ok :
      (o : Origin) (base : SnapshotRow) (meta : DatabaseRow) (s : Estate G) (node : Node G)
      {r : BranchResponse}
      → Listed c meta s
      → Dict.get s.disk (branch_path c) ≡ some node
      → (replay_origin c o base meta s).0 ≡ ok r
      → Replayed o base meta s node r (replay_origin c o base meta s)
  replay_origin-ok latest base meta s node l at h = (cc, at, refl, refl)
  replay_origin-ok (of_snapshot id) base meta s node l at h = (cc, at, refl, refl)
  replay_origin-ok (at_time target) base meta s node l at h =
      replay_located-ok target base meta
        (located true c.tenant_id (find_database meta.id s.databases)) s node
        (located-own c true meta s l) at h
  replay_origin-ok unreadable base meta s node l at h = (cc, at, refl, refl)

  -- From the provisioned branch: the restored object, unpacked onto what stands at the branch's path.
  pub record Filled (base : SnapshotRow) (meta : DatabaseRow) (s : Estate G) (r : BranchResponse)
      (s' : Estate G) : Type 0 where
    pub object : Object G
    pub node : Node G
    pub is_response : r ≡ response c base meta
    pub stored : Dict.get s.objects base.object_key ≡ some object
    pub unpacked : unpack_object object (Dict.get s.disk (branch_path c)) ≡ some node
    pub placed : Dict.get s'.disk (branch_path c) ≡ some (finished c.from_snapshot base node)
    pub databases : s'.databases ≡ s.databases

  branch_restored-ok :
      (base : SnapshotRow) (meta : DatabaseRow) (s : Estate G) (out : Reply (Unit {0}) × Estate G)
      {r : BranchResponse}
      → Listed c meta s
      → find_snapshot c.branch_snapshot_id s.snapshots ≡ some (duplicate c base meta)
      → restore_from_snapshot (restore_call c meta) s ≡ out
      → (branch_restored c base meta out).0 ≡ ok r
      → Filled base meta s r (branch_restored c base meta out).1
  branch_restored-ok base meta s (err e, s') l dup q h = cc
  branch_restored-ok base meta s (ok u, s') {r} l dup q h =
      let (path, passed) =
        restore_from_snapshot_succeeded (restore_call c meta) s (ap (λ o. o.0) q) in
      let same_dbs : s'.databases ≡ s.databases =
        subst (λ o. o.1.databases ≡ s.databases) q
          (restore_from_snapshot_keeps (restore_call c meta) s).0 in
      let here = located-own c c.restore.allowed meta s l path passed.at_target in
      let row : passed.snapshot ≡ duplicate c base meta = some-injective (sym passed.found ∙ dup) in
      let placed : Dict.get s'.disk (branch_path c) ≡ some passed.node =
        subst (λ o. Dict.get o.1.disk (branch_path c) ≡ some passed.node) q
          (ap (Dict.get _) (sym here) ∙ passed.placed) in
      let l' : Listed c meta s' = record {
        name = l.name;
        is_meta = l.is_meta;
        found = rw same_dbs l.found;
      } in
      let (is_response, at, objects, dbs) =
        replay_origin-ok c.from_snapshot base meta s' passed.node l' placed h in
      record {
        object = passed.object;
        node = passed.node;
        is_response = is_response;
        stored =
            ap (λ (x : SnapshotRow). Dict.get s.objects x.object_key) (sym row) ∙ passed.stored;
        unpacked =
            ap (λ p. unpack_object passed.object (Dict.get s.disk p)) (sym here) ∙ passed.unpacked;
        placed = at;
        databases = dbs ∙ same_dbs;
      }

  pub duplicated-ok :
      (base : SnapshotRow) (meta : DatabaseRow) (o : Option (List SnapshotRow)) (s : Estate G)
      {r : BranchResponse}
      → Listed c meta s
      → save_snapshot (duplicate c base meta) s.snapshots ≡ o
      → (duplicated c base meta o s).0 ≡ ok r
      → Filled base meta s r (duplicated c base meta o s).1
  duplicated-ok base meta none s l e h = cc
  duplicated-ok base meta (some rows) s l e h =
      let s' = record s { snapshots = rows } in
      let l' : Listed c meta s' = record { name = l.name; is_meta = l.is_meta; found = l.found } in
      let f =
        branch_restored-ok base meta s' (restore_from_snapshot (restore_call c meta) s') l'
          (find_snapshot-saved (duplicate c base meta) s.snapshots e) refl h in
      record {
        object = f.object;
        node = f.node;
        is_response = f.is_response;
        stored = f.stored;
        unpacked = f.unpacked;
        placed = f.placed;
        databases = f.databases;
      }
