-- ===== src/Databases/Provision.antt =====
-- Creating and deleting a database (backend/src/application/usecases/provision_tenant_resources.py,
-- delete_kuzu_database.py and branching/delete_branch.py, backend/src/infrastructure/kuzu/
-- kuzu_database_provisioning.py, and DatabaseName in
-- backend/src/domain/database_management/value_objects.py).
pub mod Names
pub mod Invariant
pub mod Created
use kuzu_event_bus.Prelude.{
  ℕ, suc, Bool, true, false, ◌||◌, Option, none, some, [], ◌∷◌, List, contains, leb, ◌==◌, nat_key,
  if◌then◌else◌,
}
use kuzu_event_bus.Dict
use kuzu_event_bus.Text.{Text, is_some}
use kuzu_event_bus.Branches.{is_lower}
use kuzu_event_bus.Databases.Tables.{
  DatabasePath, path_key, DatabaseRow, find_database, find_by_name, save_database,
  delete_database_row,
}
use kuzu_event_bus.Databases.Files.{Node}
use kuzu_event_bus.Databases.Snapshots.{
  UseCaseError, value_error, bucket_failed, database_exists, initialize_failed, integrity_error,
  permission_error, delete_failed, event_failed, Reply, ok, err, Estate, SnapshotCall, forget,
  create_snapshot,
}

-- The length of what `[a-z0-9_-]*$` matches, a final newline apart.
abbrev pub one_more : Option ℕ → Option ℕ
one_more none = none
one_more (some n) = some (suc n)

abbrev pub lower_length : Text → Option ℕ
lower_length [] = some 0
lower_length (c ∷ []) = if c == 10 then some 0 else if is_lower c then some 1 else none
lower_length (c ∷ d ∷ s) =
    let rest = lower_length (d ∷ s) in if is_lower c then one_more rest else none

abbrev pub from_3_to_40 : Option ℕ → Bool
from_3_to_40 none = false
from_3_to_40 (some n) = if leb 3 n then leb n 40 else false

-- The constructor of DatabaseName, unless the validation raises.
unfoldable pub database_name : Text → Option Text
database_name value = if from_3_to_40 (lower_length value) then some value else none

-- `created` is what Kuzu makes at the new path; `initial` is the call of the best-effort snapshot.
pub record ProvisionCall (G : Type 0) : Type 0 where
  pub tenant_id : ℕ
  pub database_name : Option Text
  pub default_database_name : Text
  pub bucket_fails : Bool
  pub metadata_id : ℕ
  pub created : Option (Node G)
  pub created_at : ℕ
  pub initial : Option (SnapshotCall G)

-- `a or b`
abbrev pub name_or : Option Text → Text → Text
name_or none default = default
name_or (some []) default = default
name_or (some (c ∷ s)) default = c ∷ s

module _ {G : Type 0} where
  abbrev pub path_of : ProvisionCall G → DatabasePath
  path_of c = record { tenant_id = c.tenant_id; database_id = c.metadata_id }

  abbrev pub metadata : ProvisionCall G → Text → DatabaseRow
  metadata c name = record {
    id = c.metadata_id;
    tenant_id = c.tenant_id;
    name = name;
    filesystem_path = some (path_of c);
    created_at = c.created_at;
  }

  abbrev pub initial_snapshot : ProvisionCall G → Option (SnapshotCall G) → Estate G → Estate G
  initial_snapshot c none s = s
  initial_snapshot c (some snapshot) s =
      (create_snapshot (record snapshot { tenant_id = c.tenant_id; database_id = c.metadata_id })
        s).1

  abbrev pub saved :
      ProvisionCall G → Text → Option (List DatabaseRow) → Estate G → Reply DatabaseRow × Estate G
  saved c name none s = (err integrity_error, s)
  saved c name (some rows) s =
      (ok (metadata c name), initial_snapshot c c.initial (record s { databases = rows }))

  abbrev pub created_at_path :
      ProvisionCall G → Text → Option (Node G) → Estate G → Reply DatabaseRow × Estate G
  created_at_path c name none s = (err initialize_failed, s)
  created_at_path c name (some node) s =
      saved c name (save_database (metadata c name) s.databases)
        (record s { disk = Dict.put s.disk (path_of c) node; db_cache = path_of c ∷ s.db_cache })

  -- KuzuDatabaseProvisioningAdapter.create_database
  abbrev pub create_database : ProvisionCall G → Text → Estate G → Reply DatabaseRow × Estate G
  create_database c name s =
      if contains (path_of c) s.db_cache || is_some (Dict.get s.disk (path_of c))
      then (err database_exists, s)
      else created_at_path c name c.created s

  abbrev pub unless_taken :
      ProvisionCall G → Text → Option DatabaseRow → Estate G → Reply DatabaseRow × Estate G
  unless_taken c name (some existing) s = (err value_error, s)
  unless_taken c name none s =
      if c.bucket_fails then (err bucket_failed, s) else create_database c name s

  abbrev pub provision_named :
      ProvisionCall G → Option Text → Estate G → Reply DatabaseRow × Estate G
  provision_named c none s = (err value_error, s)
  provision_named c (some name) s =
      unless_taken c name (find_by_name c.tenant_id name s.databases) s

  unfoldable pub provision : ProvisionCall G → Estate G → Reply DatabaseRow × Estate G
  provision c s =
      provision_named c (database_name (name_or c.database_name c.default_database_name)) s

pub record DeleteCall : Type 0 where
  pub allowed : Bool
  pub tenant_id : ℕ
  pub database_id : ℕ
  pub event_fails : Bool

module _ {G : Type 0} where
  -- The row goes; the call of the object storage with a path of the local disk removes nothing.
  abbrev pub row_deleted : DeleteCall → Bool × List DatabaseRow → Estate G → Reply Bool × Estate G
  row_deleted c (false, rows) s = (ok false, record s { databases = rows })
  row_deleted c (true, rows) s = (
    if c.event_fails then err event_failed else ok true,
    record s { databases = rows; cached_info = forget c.database_id s.cached_info },
  )

  abbrev pub delete_found : DeleteCall → Option DatabaseRow → Estate G → Reply Bool × Estate G
  delete_found c none s = (ok false, s)
  delete_found c (some info) s =
      if info.tenant_id == c.tenant_id
      then row_deleted c (delete_database_row c.database_id s.databases) s
      else (ok false, s)

  unfoldable pub delete_kuzu_database : DeleteCall → Estate G → Reply Bool × Estate G
  delete_kuzu_database c s =
      if c.allowed
      then delete_found c (find_database c.database_id s.databases) s
      else (err permission_error, s)

  -- DeleteBranchUseCase: no deletion is an error here.
  abbrev pub deleted_or_error : Reply Bool × Estate G → Reply (Unit {0}) × Estate G
  deleted_or_error (err e, s) = (err e, s)
  deleted_or_error (ok true, s) = (ok tt, s)
  deleted_or_error (ok false, s) = (err delete_failed, s)

  unfoldable pub delete_branch : DeleteCall → Estate G → Reply (Unit {0}) × Estate G
  unfolding delete_kuzu_database
  delete_branch c s = deleted_or_error (delete_kuzu_database c s)
