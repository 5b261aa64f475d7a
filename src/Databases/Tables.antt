-- ===== src/Databases/Tables.antt =====
-- The tables of databases and of snapshots, as lists of rows
-- (backend/src/infrastructure/database/kuzu_database_repository.py, database_metadata_repository.py
-- and snapshot_repository.py). An INSERT that violates a key or a uniqueness constraint raises.
use kuzu_event_bus.Prelude.{
  ℕ, ◌≡◌, ◌↔◌, arith, Bool, true, false, not, ◌&&◌, ◌||◌, Option, none, some, List, [], ◌∷◌, ◌++◌,
  keep, length, ltb, ◌==◌, nat_key, nat_beq, nat_beq_iff, HashKey, if◌then◌else◌,
}
use kuzu_event_bus.Text.{Text, text_key}

-- `<base>/<tenant>/<database>/data.kuzu`
pub record DatabasePath : Type 0 where
  pub tenant_id : ℕ
  pub database_id : ℕ

abbrev pub same_path : DatabasePath → DatabasePath → Bool
same_path p q = nat_beq p.tenant_id q.tenant_id && nat_beq p.database_id q.database_id

pub same_path_iff : (p q : DatabasePath) → (same_path p q ≡ true) ↔ (p ≡ q)
same_path_iff p q =
    ground (arith, nat_beq_iff p.tenant_id q.tenant_id, nat_beq_iff p.database_id q.database_id)

instance abbrev pub path_key : HashKey DatabasePath
path_key = record { same = same_path; same_exact = same_path_iff }

-- `tenants/<tenant>/<database>/snapshots/snapshot-<stamp>.tar.gz`
pub record ObjectKey : Type 0 where
  pub tenant_id : ℕ
  pub database_id : ℕ
  pub stamp : ℕ

abbrev pub same_object_key : ObjectKey → ObjectKey → Bool
same_object_key j k =
    nat_beq j.tenant_id k.tenant_id
    && nat_beq j.database_id k.database_id
    && nat_beq j.stamp k.stamp

pub same_object_key_iff : (j k : ObjectKey) → (same_object_key j k ≡ true) ↔ (j ≡ k)
same_object_key_iff j k = ground (
  arith,
  nat_beq_iff j.tenant_id k.tenant_id,
  nat_beq_iff j.database_id k.database_id,
  nat_beq_iff j.stamp k.stamp,
)

instance abbrev pub object_key_key : HashKey ObjectKey
object_key_key = record { same = same_object_key; same_exact = same_object_key_iff }

-- An empty path is none.
pub record DatabaseRow : Type 0 where
  pub id : ℕ
  pub tenant_id : ℕ
  pub name : Text
  pub filesystem_path : Option DatabasePath
  pub created_at : ℕ

unfoldable pub find_database : ℕ → List DatabaseRow → Option DatabaseRow
find_database id [] = none
find_database id (r ∷ rs) = let rest = find_database id rs in if r.id == id then some r else rest

abbrev pub is_named : ℕ → Text → DatabaseRow → Bool
is_named tenant name r = r.tenant_id == tenant && r.name == name

unfoldable pub find_by_name : ℕ → Text → List DatabaseRow → Option DatabaseRow
find_by_name tenant name [] = none
find_by_name tenant name (r ∷ rs) =
    let rest = find_by_name tenant name rs in if is_named tenant name r then some r else rest

-- UNIQUE (tenant_id, name), and the primary key.
abbrev pub clashes : DatabaseRow → DatabaseRow → Bool
clashes new old = old.id == new.id || is_named new.tenant_id new.name old

abbrev pub some_clash : DatabaseRow → List DatabaseRow → Bool
some_clash new [] = false
some_clash new (r ∷ rs) = let rest = some_clash new rs in clashes new r || rest

unfoldable pub save_database : DatabaseRow → List DatabaseRow → Option (List DatabaseRow)
save_database new rs = if some_clash new rs then none else some (rs ++ new ∷ [])

unfoldable pub delete_database_row : ℕ → List DatabaseRow → Bool × List DatabaseRow
delete_database_row id rs = (
  ltb 0 (length (keep (λ (r : DatabaseRow). r.id == id) rs)),
  keep (λ (r : DatabaseRow). not (r.id == id)) rs,
)

pub record SnapshotRow : Type 0 where
  pub id : ℕ
  pub tenant_id : ℕ
  pub database_id : ℕ
  pub object_key : ObjectKey
  pub checksum : ℕ
  pub size_bytes : ℕ
  pub created_at : ℕ

unfoldable pub find_snapshot : ℕ → List SnapshotRow → Option SnapshotRow
find_snapshot id [] = none
find_snapshot id (r ∷ rs) = let rest = find_snapshot id rs in if r.id == id then some r else rest

abbrev pub collides : SnapshotRow → SnapshotRow → Bool
collides new old =
    old.id == new.id || (old.database_id == new.database_id && old.object_key == new.object_key)

abbrev pub some_collision : SnapshotRow → List SnapshotRow → Bool
some_collision new [] = false
some_collision new (r ∷ rs) = let rest = some_collision new rs in collides new r || rest

unfoldable pub save_snapshot : SnapshotRow → List SnapshotRow → Option (List SnapshotRow)
save_snapshot new rs = if some_collision new rs then none else some (rs ++ new ∷ [])

-- ORDER BY created_at DESC
abbrev pub insert_latest : SnapshotRow → List SnapshotRow → List SnapshotRow
insert_latest r [] = r ∷ []
insert_latest r (q ∷ qs) =
    let rest = insert_latest r qs in if ltb r.created_at q.created_at then q ∷ rest else r ∷ q ∷ qs

unfoldable pub latest_first : List SnapshotRow → List SnapshotRow
latest_first [] = []
latest_first (r ∷ rs) = insert_latest r (latest_first rs)

unfoldable pub list_by_database : ℕ → List SnapshotRow → List SnapshotRow
unfolding latest_first
list_by_database database rs =
    latest_first (keep (λ (r : SnapshotRow). r.database_id == database) rs)

unfoldable pub delete_snapshot : ℕ → List SnapshotRow → Bool × List SnapshotRow
delete_snapshot id rs = (
  ltb 0 (length (keep (λ (r : SnapshotRow). r.id == id) rs)),
  keep (λ (r : SnapshotRow). not (r.id == id)) rs,
)
