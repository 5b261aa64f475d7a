-- ===== src/Databases/Provision/Invariant.antt =====
-- What holds of the tables and files through every use case that creates, snapshots, restores or
-- deletes a database.
use kuzu_event_bus.Prelude.{
  ◌≡◌, refl, ◌∙◌, Bool, false, Option, none, some, List, ◌∷◌, All, contains, arith, inl, inr,
  Bool-cases, nat_key, ◌||◌,
}
use kuzu_event_bus.Dict
use kuzu_event_bus.Dict.{get-put_other}
use kuzu_event_bus.Text.{Text, is_some}
use kuzu_event_bus.Databases.Tables.{
  DatabasePath, path_key, object_key_key, DatabaseRow, find_by_name, clashes, save_database,
  collides,
}
use kuzu_event_bus.Databases.Unique.{Apart, All-snoc, save_database-rows, save_database-Apart}
use kuzu_event_bus.Databases.Files.{Node}
use kuzu_event_bus.Databases.Snapshots.{Estate, SnapshotCall, create_snapshot}
use kuzu_event_bus.Databases.Snapshots.Frame.{create_snapshot_keeps}
use kuzu_event_bus.Databases.Provision.{
  ProvisionCall, database_name, name_or, path_of, metadata, initial_snapshot, saved,
  created_at_path, create_database, unless_taken, provision_named, provision,
}

-- The path of a database is that of its tenant and its id, if it has one.
abbrev pub OwnPath : DatabaseRow → Option DatabasePath → Type 0
OwnPath r none = Unit
OwnPath r (some path) = (path.tenant_id ≡ r.tenant_id) × (path.database_id ≡ r.id)

abbrev pub HasOwnPath : DatabaseRow → Type 0
HasOwnPath r = OwnPath r r.filesystem_path

module _ {G : Type 0} where
  -- No two databases have one id, nor one tenant and name; each has its own path; no two snapshots
  -- have one id, nor one database and object.
  abbrev pub IsSound : Estate G → Type 0
  IsSound s = Apart clashes s.databases × All HasOwnPath s.databases × Apart collides s.snapshots

  -- Soundness is kept, and so is every file or directory of a database.
  pub record Grown (s s' : Estate G) : Type 0 where
    pub sound : IsSound s → IsSound s'
    pub files :
        (p : DatabasePath) (n : Node G) → Dict.get s.disk p ≡ some n → Dict.get s'.disk p ≡ some n

  pub refl-Grown : (s : Estate G) → Grown s s
  refl-Grown s = record { sound = λ h. h; files = λ p n h. h }

  pub trans-Grown : {a b c : Estate G} → Grown a b → Grown b c → Grown a c
  trans-Grown f g = record {
    sound = λ h. g.sound (f.sound h);
    files = λ p n h. g.files p n (f.files p n h);
  }

  pub create_snapshot-Grown : (c : SnapshotCall G) (s : Estate G) → Grown s (create_snapshot c s).1
  create_snapshot-Grown c s =
      let (dbs, cache, disk, objects, rows) = create_snapshot_keeps c s in
      record { sound = λ h. (rw dbs h.0, rw dbs h.1, rows h.2); files = disk }

  module _ (c : ProvisionCall G) where
    pub initial_snapshot-Grown :
        (o : Option (SnapshotCall G)) (s : Estate G) → Grown s (initial_snapshot c o s)
    initial_snapshot-Grown none s = refl-Grown s
    initial_snapshot-Grown (some snapshot) s = create_snapshot-Grown _ s

    own_path : (name : Text) → HasOwnPath (metadata c name)
    own_path name = (refl, refl)

    saved-Grown :
        (name : Text) (o : Option (List DatabaseRow)) (s : Estate G)
        → save_database (metadata c name) s.databases ≡ o
        → Grown s (saved c name o s).1
    saved-Grown name none s e = refl-Grown s
    saved-Grown name (some rows) s e =
        trans-Grown (stored e) (initial_snapshot-Grown c.initial (record s { databases = rows }))
      where
        stored :
            save_database (metadata c name) s.databases ≡ some rows
            → Grown s (record s { databases = rows })
        stored e = record {
          sound = λ h. (
            save_database-Apart (metadata c name) s.databases e h.0,
            rw (save_database-rows (metadata c name) s.databases e).1
                (All-snoc HasOwnPath s.databases (metadata c name) h.1 (own_path name)),
            h.2,
          );
          files = λ p n h. h;
        }

    created_at_path-Grown :
        (name : Text) (o : Option (Node G)) (s : Estate G)
        → Dict.get s.disk (path_of c) ≡ none
        → Grown s (created_at_path c name o s).1
    created_at_path-Grown name none s free = refl-Grown s
    created_at_path-Grown name (some node) s free =
        let grown =
          saved-Grown name (save_database (metadata c name) s.databases)
            (record s {
              disk = Dict.put s.disk (path_of c) node;
              db_cache = path_of c ∷ s.db_cache;
            })
            refl in
        record {
          sound = grown.sound;
          files = λ p n h. grown.files p n (get-put_other s.disk (path_of c) p node (λ e. cc) ∙ h);
        }

    pub unless_none : (b : Bool) (o : Option (Node G)) → (b || is_some o) ≡ false → o ≡ none
    unless_none b none h = refl
    unless_none b (some n) h = absurd (ground arith)

    create_database-Grown : (name : Text) (s : Estate G) → Grown s (create_database c name s).1
    create_database-Grown name s =
        elim (Bool-cases
          (contains (path_of c) s.db_cache || is_some (Dict.get s.disk (path_of c)))) [
            | inl e ↦ simp e (refl-Grown s)
            | inr e ↦ simp e (
                created_at_path-Grown name c.created s
                  (unless_none (contains (path_of c) s.db_cache) (Dict.get s.disk (path_of c)) e))
          ]

    unless_taken-Grown :
        (name : Text) (o : Option DatabaseRow) (s : Estate G) → Grown s (unless_taken c name o s).1
    unless_taken-Grown name (some existing) s = refl-Grown s
    unless_taken-Grown name none s = elim (Bool-cases c.bucket_fails) [
      | inl e ↦ simp e (refl-Grown s)
      | inr e ↦ simp e (create_database-Grown name s)
    ]

    provision_named-Grown : (o : Option Text) (s : Estate G) → Grown s (provision_named c o s).1
    provision_named-Grown none s = refl-Grown s
    provision_named-Grown (some name) s =
        unless_taken-Grown name (find_by_name c.tenant_id name s.databases) s

    -- Provisioning a database, whatever its outcome, keeps the tables sound and every file or
    -- directory of a database as it was.
    pub provision-Grown : (s : Estate G) → Grown s (provision c s).1
    unfolding provision
    provision-Grown s =
        provision_named-Grown (database_name (name_or c.database_name c.default_database_name)) s
