-- ===== src/Databases/History.antt =====
-- Use cases on databases, one after the other, in any order and with any outcome.
use kuzu_event_bus.Prelude.{
  ℕ, ◌≡◌, ◌≢◌, refl, sym, ap, subst, ◌∙◌, ◌⊎◌, Bool, true, false, Option, none, some, List, [], ◌∷◌,
  All, arith, inl, inr, Bool-cases, ◌==◌, nat_key, nat_beq_iff,
}
use kuzu_event_bus.Dict
use kuzu_event_bus.Databases.Tables.{
  DatabasePath, path_key, DatabaseRow, find_database, clashes, delete_database_row,
}
use kuzu_event_bus.Databases.Unique.{Apart-keep, All-keep}
use kuzu_event_bus.Databases.Snapshots.{
  Reply, ok, err, Estate, SnapshotCall, RestoreCall, located, create_snapshot,
  restore_from_snapshot,
}
use kuzu_event_bus.Databases.Snapshots.Taken.{some-injective}
use kuzu_event_bus.Databases.Snapshots.Restoring.{restore_target, restore_from_snapshot_keeps}
use kuzu_event_bus.Databases.Provision.{
  ProvisionCall, provision, DeleteCall, row_deleted, delete_found, delete_kuzu_database,
}
use kuzu_event_bus.Databases.Provision.Invariant.{
  OwnPath, HasOwnPath, IsSound, create_snapshot-Grown, provision-Grown,
}
use kuzu_event_bus.Databases.Branching.{BranchCall, create_branch}
use kuzu_event_bus.Databases.Branching.Copy.{create_branch-Grown}
use kuzu_event_bus.Databases.Branching.Merge.{
  MergeCall, merge_branch, merge_snapshotted, merge_restored,
}

pub data Command (G : Type 0) : Type 0 where
  provision_database : ProvisionCall G → Command G
  snapshot_database : SnapshotCall G → Command G
  restore_database : RestoreCall → Command G
  delete_database : DeleteCall → Command G
  branch_database : BranchCall G → Command G
  merge_database : MergeCall G → Command G

module _ {G : Type 0} where
  abbrev pub run_command : Command G → Estate G → Estate G
  run_command (provision_database c) s = (provision c s).1
  run_command (snapshot_database c) s = (create_snapshot c s).1
  run_command (restore_database c) s = (restore_from_snapshot c s).1
  run_command (delete_database c) s = (delete_kuzu_database c s).1
  run_command (branch_database c) s = (create_branch c s).1
  run_command (merge_database c) s = (merge_branch c s).1

  abbrev pub run_commands : List (Command G) → Estate G → Estate G
  run_commands [] s = s
  run_commands (c ∷ cs) s = run_commands cs (run_command c s)

  restore_from_snapshot-IsSound :
      (c : RestoreCall) (s : Estate G) → IsSound s → IsSound (restore_from_snapshot c s).1
  restore_from_snapshot-IsSound c s h =
      let (dbs, rows, objects, cache, disk) = restore_from_snapshot_keeps c s in
      (rw dbs h.0, rw dbs h.1, rw rows h.2)

  row_deleted-IsSound :
      (c : DeleteCall) (found : Bool) (rows : List DatabaseRow) (s : Estate G)
      → IsSound (record s { databases = rows })
      → IsSound (row_deleted c (found, rows) s).1
  row_deleted-IsSound c false rows s h = h
  row_deleted-IsSound c true rows s h = h

  delete_found-IsSound :
      (c : DeleteCall) (o : Option DatabaseRow) (s : Estate G)
      → IsSound s
      → IsSound (delete_found c o s).1
  unfolding delete_database_row
  delete_found-IsSound c none s h = h
  delete_found-IsSound c (some info) s h = elim (Bool-cases (info.tenant_id == c.tenant_id)) [
    | inl e ↦ simp e (
        row_deleted-IsSound c _ _ s
          ((Apart-keep clashes _ s.databases h.0, All-keep HasOwnPath _ s.databases h.1, h.2)))
    | inr e ↦ simp e h
  ]

  delete_kuzu_database-IsSound :
      (c : DeleteCall) (s : Estate G) → IsSound s → IsSound (delete_kuzu_database c s).1
  unfolding delete_kuzu_database
  delete_kuzu_database-IsSound c s h = elim (Bool-cases c.allowed) [
    | inl e ↦ simp e (delete_found-IsSound c (find_database c.database_id s.databases) s h)
    | inr e ↦ simp e h
  ]

  merge_snapshotted-IsSound :
      (c : MergeCall G) (out : Reply _ × Estate G)
      → IsSound out.1
      → IsSound (merge_snapshotted c out).1
  merge_snapshotted-IsSound c (err e, s) h = h
  merge_snapshotted-IsSound c (ok row, s) h = go _ (restore_from_snapshot-IsSound _ s h)
    where
      go : (out : Reply (Unit {0}) × Estate G) → IsSound out.1 → IsSound (merge_restored row out).1
      go (err e, s') k = k
      go (ok u, s') k = k

  merge_branch-IsSound : (c : MergeCall G) (s : Estate G) → IsSound s → IsSound (merge_branch c s).1
  unfolding merge_branch
  merge_branch-IsSound c s h = merge_snapshotted-IsSound c _ ((create_snapshot-Grown _ s).sound h)

  run_command-IsSound : (c : Command G) (s : Estate G) → IsSound s → IsSound (run_command c s)
  run_command-IsSound (provision_database c) s h = (provision-Grown c s).sound h
  run_command-IsSound (snapshot_database c) s h = (create_snapshot-Grown c s).sound h
  run_command-IsSound (restore_database c) s h = restore_from_snapshot-IsSound c s h
  run_command-IsSound (delete_database c) s h = delete_kuzu_database-IsSound c s h
  run_command-IsSound (branch_database c) s h = (create_branch-Grown c s).sound h
  run_command-IsSound (merge_database c) s h = merge_branch-IsSound c s h

  -- Whatever use cases run on a sound estate, in any order and with any outcome, it stays sound: no
  -- two databases share an id, or a tenant and name; each has its own path; and no two snapshots
  -- share an id, or a database and object.
  pub run_commands-IsSound :
      (cs : List (Command G)) (s : Estate G) → IsSound s → IsSound (run_commands cs s)
  run_commands-IsSound [] s h = h
  run_commands-IsSound (c ∷ cs) s h =
      run_commands-IsSound cs (run_command c s) (run_command-IsSound c s h)

find_database_sound :
    (id : ℕ) (rs : List DatabaseRow) {r : DatabaseRow}
    → All HasOwnPath rs
    → find_database id rs ≡ some r
    → (r.id ≡ id) × HasOwnPath r
unfolding find_database
find_database_sound id [] h e = cc
find_database_sound id (q ∷ rs) {r} h e = elim (Bool-cases (q.id == id)) [
  | inl k ↦
      let same : some q ≡ some r = ground arith in
      let row : q ≡ r = some-injective same in
      (
        ap (λ (x : DatabaseRow). x.id) (sym row) ∙ (nat_beq_iff q.id id).0 k,
        subst HasOwnPath row h.0,
      )
  | inr k ↦
      let later : find_database id rs ≡ some r = ground arith in find_database_sound id rs h.1 later
]

located-path :
    (allowed : Bool) (tenant : ℕ) (o : Option DatabaseRow) {path : DatabasePath}
    → located allowed tenant o ≡ ok path
    → (r : DatabaseRow) × (o ≡ some r) × (r.tenant_id ≡ tenant) × (r.filesystem_path ≡ some path)
located-path false tenant o h = cc
located-path true tenant none h = cc
located-path true tenant (some r) {path} h =
    (r, refl, ground (arith, nat_beq_iff r.tenant_id tenant), ground arith)

module _ {G : Type 0} where
  -- On a sound estate a restore, whatever its outcome, leaves the file or directory of every database
  -- with another id or of another tenant as it was.
  pub restore_from_snapshot_isolated :
      (c : RestoreCall) (s : Estate G) (id : ℕ) {other : DatabaseRow} {path : DatabasePath}
      → IsSound s
      → find_database id s.databases ≡ some other
      → other.filesystem_path ≡ some path
      → (id ≢ c.database_id) ⊎ (other.tenant_id ≢ c.tenant_id)
      → Dict.get (restore_from_snapshot c s).1.disk path ≡ Dict.get s.disk path
  restore_from_snapshot_isolated c s id {other} {path} sound found at apart =
      (restore_from_snapshot_keeps c s).4 path (λ t. clash t apart)
    where
      clash :
          restore_target c s ≡ ok path → (id ≢ c.database_id) ⊎ (other.tenant_id ≢ c.tenant_id) → ⊥
      clash t apart =
          let (r, is_r, tenant, at_r) =
            located-path c.allowed c.tenant_id (find_database c.database_id s.databases) t in
          let (r_id, r_own) = find_database_sound c.database_id s.databases sound.1 is_r in
          let (o_id, o_own) = find_database_sound id s.databases sound.1 found in
          let r_path = subst (OwnPath r) at_r r_own in
          let o_path = subst (OwnPath other) at o_own in
          elim apart [
            | inl ne ↦ ne (sym o_id ∙ sym o_path.1 ∙ r_path.1 ∙ r_id)
            | inr ne ↦ ne (sym o_path.0 ∙ r_path.0 ∙ tenant)
          ]
