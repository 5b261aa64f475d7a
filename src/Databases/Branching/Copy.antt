-- ===== src/Databases/Branching/Copy.antt =====
-- What creating a branch makes, and what it leaves as it was.
use kuzu_event_bus.Prelude.{
  ℕ, ◌≡◌, ◌≢◌, refl, sym, ap, subst, ◌∙◌, Bool, true, false, Option, none, some, List, arith,
  nat_key, nat_beq_iff,
}
use kuzu_event_bus.Dict
use kuzu_event_bus.Dict.{get-put_other}
use kuzu_event_bus.Text.{Text}
use kuzu_event_bus.Branches.{branch_name}
use kuzu_event_bus.Databases.Tables.{
  DatabasePath, path_key, object_key_key, DatabaseRow, SnapshotRow, find_database, find_snapshot,
  save_snapshot, list_by_database,
}
use kuzu_event_bus.Databases.Unique.{save_snapshot-Apart}
use kuzu_event_bus.Databases.Files.{Node}
use kuzu_event_bus.Databases.Snapshots.{Reply, ok, err, Estate, located, restore_from_snapshot}
use kuzu_event_bus.Databases.Snapshots.Restoring.{restore_from_snapshot_keeps}
use kuzu_event_bus.Databases.Provision.{path_of, metadata, provision}
use kuzu_event_bus.Databases.Provision.Invariant.{
  IsSound, Grown, refl-Grown, trans-Grown, create_snapshot-Grown, provision-Grown,
}
use kuzu_event_bus.Databases.Provision.Created.{Created, provision_succeeded}
use kuzu_event_bus.Databases.Branching.{
  Origin, latest, of_snapshot, at_time, unreadable, BranchCall, nearest_row, found_or_error,
  base_snapshot, put_node, replayed_node, replay, replay_located, replay_origin, branch_restored,
  duplicate, restore_call, duplicated, branch_provisioned, provision_call, based_on,
  with_valid_name, create_branch,
}

module _ {G : Type 0} (c : BranchCall G) where
  found_or_error-Grown : (o : Option SnapshotRow) (s : Estate G) → Grown s (found_or_error o s).1
  found_or_error-Grown none s = refl-Grown s
  found_or_error-Grown (some r) s = refl-Grown s

  base_snapshot-Grown : (o : Origin) (s : Estate G) → Grown s (base_snapshot c o s).1
  base_snapshot-Grown latest s = create_snapshot-Grown _ s
  base_snapshot-Grown (of_snapshot id) s = found_or_error-Grown (find_snapshot id s.snapshots) s
  base_snapshot-Grown (at_time target) s =
      found_or_error-Grown (nearest_row target (list_by_database c.source_database_id s.snapshots))
        s
  base_snapshot-Grown unreadable s = refl-Grown s

  abbrev pub branch_path : DatabasePath
  branch_path = path_of (provision_call c)

  -- Soundness is kept, and so is what stands at any other path than the branch's.
  record Aside (s s' : Estate G) : Type 0 where
    sound : IsSound s → IsSound s'
    files :
        (p : DatabasePath) (n : Node G)
        → p ≢ branch_path
        → Dict.get s.disk p ≡ some n
        → Dict.get s'.disk p ≡ some n

  refl-Aside : (s : Estate G) → Aside s s
  refl-Aside s = record { sound = λ h. h; files = λ p n ne h. h }

  -- The branch's row, as it stands in the table.
  pub record Listed (meta : DatabaseRow) (s : Estate G) : Type 0 where
    pub name : Text
    pub is_meta : meta ≡ metadata (provision_call c) name
    pub found : find_database meta.id s.databases ≡ some meta

  located-branch :
      (allowed : Bool) (name : Text) {path : DatabasePath}
      → located allowed c.tenant_id (some (metadata (provision_call c) name)) ≡ ok path
      → path ≡ branch_path
  located-branch false name h = cc
  located-branch true name {path} h = ground (arith, nat_beq_iff c.tenant_id c.tenant_id)

  pub located-own :
      (allowed : Bool) (meta : DatabaseRow) (s : Estate G)
      → Listed meta s
      → (path : DatabasePath)
      → located allowed c.tenant_id (find_database meta.id s.databases) ≡ ok path
      → path ≡ branch_path
  located-own allowed meta s l path h =
      located-branch allowed l.name
        (ap (located allowed c.tenant_id) (sym (l.found ∙ ap some l.is_meta)) ∙ h)

  put_node-Aside :
      (path : DatabasePath) (o : Option (Node G)) (s : Estate G)
      → path ≡ branch_path
      → Aside s (put_node path o s)
  put_node-Aside path none s at = refl-Aside s
  put_node-Aside path (some node) s at = record {
    sound = λ h. h;
    files = λ p n ne h. get-put_other s.disk path p node (λ e. ne (sym e ∙ at)) ∙ h;
  }

  replay_located-Aside :
      (target : ℕ) (base : SnapshotRow) (meta : DatabaseRow) (o : Reply DatabasePath) (s : Estate G)
      → ((path : DatabasePath) → o ≡ ok path → path ≡ branch_path)
      → Aside s (replay_located c target base meta o s).1
  replay_located-Aside target base meta (err e) s own = refl-Aside s
  replay_located-Aside target base meta (ok path) s own =
      let aside =
        put_node-Aside path (replayed_node (replay c target base) (Dict.get s.disk path)) s
          (own path refl) in
      record { sound = aside.sound; files = aside.files }

  replay_origin-Aside :
      (o : Origin) (base : SnapshotRow) (meta : DatabaseRow) (s : Estate G)
      → Listed meta s
      → Aside s (replay_origin c o base meta s).1
  replay_origin-Aside latest base meta s l = refl-Aside s
  replay_origin-Aside (of_snapshot id) base meta s l = refl-Aside s
  replay_origin-Aside (at_time target) base meta s l =
      replay_located-Aside target base meta
        (located true c.tenant_id (find_database meta.id s.databases)) s (located-own true meta s l)
  replay_origin-Aside unreadable base meta s l = refl-Aside s

  -- The restore, and what follows it.
  branch_restored-Aside :
      (base : SnapshotRow) (meta : DatabaseRow) (s : Estate G) (out : Reply (Unit {0}) × Estate G)
      → Listed meta s
      → out.1.databases ≡ s.databases
      → Aside s out.1
      → Aside s (branch_restored c base meta out).1
  branch_restored-Aside base meta s (err e, s') l same aside = aside
  branch_restored-Aside base meta s (ok u, s') l same aside =
      let l' : Listed meta s' = record {
        name = l.name;
        is_meta = l.is_meta;
        found = rw same l.found;
      } in
      let more = replay_origin-Aside c.from_snapshot base meta s' l' in
      record {
        sound = λ h. more.sound (aside.sound h);
        files = λ p n ne h. more.files p n ne (aside.files p n ne h);
      }

  restored-Aside :
      (meta : DatabaseRow) (s : Estate G)
      → Listed meta s
      → Aside s (restore_from_snapshot (restore_call c meta) s).1
  restored-Aside meta s l =
      let (dbs, rows, objects, cache, disk) = restore_from_snapshot_keeps (restore_call c meta) s in
      record {
        sound = λ h. (rw dbs h.0, rw dbs h.1, rw rows h.2);
        files = λ p n ne h. disk p (λ t. ne (located-own c.restore.allowed meta s l p t)) ∙ h;
      }

  duplicated-Aside :
      (base : SnapshotRow) (meta : DatabaseRow) (o : Option (List SnapshotRow)) (s : Estate G)
      → Listed meta s
      → save_snapshot (duplicate c base meta) s.snapshots ≡ o
      → Aside s (duplicated c base meta o s).1
  duplicated-Aside base meta none s l e = refl-Aside s
  duplicated-Aside base meta (some rows) s l e =
      let s' = record s { snapshots = rows } in
      let l' : Listed meta s' = record { name = l.name; is_meta = l.is_meta; found = l.found } in
      let aside =
        branch_restored-Aside base meta s' (restore_from_snapshot (restore_call c meta) s') l'
          (restore_from_snapshot_keeps (restore_call c meta) s').0 (restored-Aside meta s' l') in
      record {
        sound = λ h.
            aside.sound ((h.0, h.1, save_snapshot-Apart (duplicate c base meta) s.snapshots e h.2));
        files = aside.files;
      }

  pub Listed-provision :
      {meta : DatabaseRow} (s s' : Estate G) → Created (provision_call c) meta s s' → Listed meta s'
  Listed-provision {meta} s s' made = record {
    name = made.name;
    is_meta = made.is_meta;
    found = ap (λ (m : DatabaseRow). find_database m.id s'.databases) made.is_meta ∙ made.found;
  }

  branch_provisioned-Grown :
      (base : SnapshotRow) (s : Estate G) (out : Reply DatabaseRow × Estate G)
      → provision (provision_call c) s ≡ out
      → Grown s (branch_provisioned c base out).1
  branch_provisioned-Grown base s (err e, s') q =
      subst (λ o. Grown s o.1) q (provision-Grown (provision_call c) s)
  branch_provisioned-Grown base s (ok meta, s') q =
      let grown : Grown s s' = subst (λ o. Grown s o.1) q (provision-Grown (provision_call c) s) in
      let made : Created (provision_call c) meta s s' =
        subst (λ o. Created (provision_call c) meta s o.1) q
          (provision_succeeded (provision_call c) s (ap (λ o. o.0) q)) in
      let aside =
        duplicated-Aside base meta (save_snapshot (duplicate c base meta) s'.snapshots) s'
          (Listed-provision s s' made) refl in
      record {
        sound = λ h. aside.sound (grown.sound h);
        files = λ p n h. aside.files p n (other s s' made p n h) (grown.files p n h);
      }
    where
      other :
          {meta : DatabaseRow} (s s' : Estate G)
          → Created (provision_call c) meta s s'
          → (p : DatabasePath) (n : Node G) → Dict.get s.disk p ≡ some n
          → p ≢ branch_path
      other s s' made p n h e =
          let clash : none ≡ some n = sym made.free ∙ ap (Dict.get s.disk) (sym e) ∙ h in cc

  based_on-Grown :
      (s : Estate G) (out : Reply SnapshotRow × Estate G)
      → Grown s out.1
      → Grown s (based_on c out).1
  based_on-Grown s (err e, s') grown = grown
  based_on-Grown s (ok base, s') grown =
      trans-Grown grown (branch_provisioned-Grown base s' (provision (provision_call c) s') refl)

  with_valid_name-Grown : (o : Option Text) (s : Estate G) → Grown s (with_valid_name c o s).1
  with_valid_name-Grown none s = refl-Grown s
  with_valid_name-Grown (some name) s =
      based_on-Grown s (base_snapshot c c.from_snapshot s) (base_snapshot-Grown c.from_snapshot s)

  pub create_branch-Grown : (s : Estate G) → Grown s (create_branch c s).1
  unfolding create_branch
  create_branch-Grown s = with_valid_name-Grown (branch_name c.branch_name) s

  -- Creating a branch, in each of its modes and whatever its outcome, changes no file or directory
  -- that stands at a database's path.
  pub create_branch_keeps :
      (s : Estate G) (path : DatabasePath) (node : Node G)
      → Dict.get s.disk path ≡ some node
      → Dict.get (create_branch c s).1.disk path ≡ some node
  create_branch_keeps s path node h = (create_branch-Grown s).files path node h
