-- ===== src/Databases/Provision/Created.antt =====
-- What provisioning that succeeds has made.
use kuzu_event_bus.Prelude.{
  ◌≡◌, ◌≢◌, refl, sym, ap, ◌∙◌, Option, none, some, List, ◌∷◌, arith, contains, inl, inr,
  Bool-cases, ◌||◌,
}
use kuzu_event_bus.Dict
use kuzu_event_bus.Dict.{get-put_same}
use kuzu_event_bus.Text.{Text, is_some}
use kuzu_event_bus.Databases.Tables.{
  path_key, ObjectKey, object_key_key, DatabaseRow, find_database, find_by_name, save_database,
}
use kuzu_event_bus.Databases.Unique.{find_database-saved, find_database-new, save_database-rows}
use kuzu_event_bus.Databases.Files.{Node}
use kuzu_event_bus.Databases.Snapshots.{ok, Estate, SnapshotCall}
use kuzu_event_bus.Databases.Provision.{
  ProvisionCall, database_name, name_or, path_of, metadata, initial_snapshot, saved,
  created_at_path, create_database, unless_taken, provision_named, provision,
}
use kuzu_event_bus.Databases.Provision.Invariant.{initial_snapshot-Grown, unless_none}
use kuzu_event_bus.Databases.Snapshots.Frame.{create_snapshot_keeps}

module _ {G : Type 0} (c : ProvisionCall G) where
  -- The new row stands in the table under its id, its path was free and holds what Kuzu made there.
  pub record Created (meta : DatabaseRow) (s s' : Estate G) : Type 0 where
    pub name : Text
    pub node : Node G
    pub valid : database_name (name_or c.database_name c.default_database_name) ≡ some name
    pub fresh : find_by_name c.tenant_id name s.databases ≡ none
    pub is_meta : meta ≡ metadata c name
    pub new_id : find_database c.metadata_id s.databases ≡ none
    pub free : Dict.get s.disk (path_of c) ≡ none
    pub found : find_database c.metadata_id s'.databases ≡ some meta
    pub made : c.created ≡ some node
    pub placed : Dict.get s'.disk (path_of c) ≡ some node

  initial_snapshot-databases :
      (o : Option (SnapshotCall G)) (s : Estate G)
      → (initial_snapshot c o s).databases ≡ s.databases
  initial_snapshot-databases none s = refl
  initial_snapshot-databases (some snapshot) s = (create_snapshot_keeps _ s).0

  saved-ok :
      (name : Text) (o : Option (List DatabaseRow)) (s : Estate G) {meta : DatabaseRow}
      → save_database (metadata c name) s.databases ≡ o
      → (saved c name o s).0 ≡ ok meta
      → (meta ≡ metadata c name)
        × (find_database c.metadata_id (saved c name o s).1.databases ≡ some meta)
        × ((n : Node G)
            → Dict.get s.disk (path_of c) ≡ some n
            → Dict.get (saved c name o s).1.disk (path_of c) ≡ some n)
        × (find_database c.metadata_id s.databases ≡ none)
  saved-ok name none s e h = cc
  saved-ok name (some rows) s {meta} e h =
      let is_meta : meta ≡ metadata c name = cc in
      let s' = record s { databases = rows } in
      (
        is_meta,
        ap (find_database c.metadata_id) (initial_snapshot-databases c.initial s')
            ∙ find_database-saved (metadata c name) s.databases e
            ∙ ap some (sym is_meta),
        (λ n k. (initial_snapshot-Grown c c.initial s').files (path_of c) n k),
        find_database-new (metadata c name) s.databases
            (save_database-rows (metadata c name) s.databases e).0,
      )

  created_at_path-ok :
      (name : Text) (o : Option (Node G)) (s : Estate G) {meta : DatabaseRow}
      → (created_at_path c name o s).0 ≡ ok meta
      → (meta ≡ metadata c name)
        × (find_database c.metadata_id (created_at_path c name o s).1.databases ≡ some meta)
        × ((n : Node G) × (o ≡ some n)
            × (Dict.get (created_at_path c name o s).1.disk (path_of c) ≡ some n))
        × (find_database c.metadata_id s.databases ≡ none)
  created_at_path-ok name none s h = cc
  created_at_path-ok name (some node) s h =
      let (is_meta, found, kept, new_id) =
        saved-ok name (save_database (metadata c name) s.databases)
          (record s { disk = Dict.put s.disk (path_of c) node; db_cache = path_of c ∷ s.db_cache })
          refl h in
      (is_meta, found, (node, refl, kept node (get-put_same s.disk (path_of c) node)), new_id)

  abbrev Made : Text → DatabaseRow → Estate G → Estate G → Type 0
  Made name meta s s' =
      (meta ≡ metadata c name)
      × (Dict.get s.disk (path_of c) ≡ none)
      × (find_database c.metadata_id s'.databases ≡ some meta)
      × ((n : Node G) × (c.created ≡ some n) × (Dict.get s'.disk (path_of c) ≡ some n))
      × (find_database c.metadata_id s.databases ≡ none)

  create_database-ok :
      (name : Text) (s : Estate G) {meta : DatabaseRow}
      → (create_database c name s).0 ≡ ok meta
      → Made name meta s (create_database c name s).1
  create_database-ok name s {meta} h =
      elim (Bool-cases (contains (path_of c) s.db_cache || is_some (Dict.get s.disk (path_of c)))) [
        | inl e ↦ absurd (ground arith)
        | inr e ↦
            let (is_meta, found, at_path, new_id) =
              created_at_path-ok name c.created s (ground arith) in
            simp e (
              (
                is_meta,
                unless_none c (contains (path_of c) s.db_cache) (Dict.get s.disk (path_of c)) e,
                found,
                at_path,
                new_id,
              ))
      ]

  unless_taken-ok :
      (name : Text) (o : Option DatabaseRow) (s : Estate G) {meta : DatabaseRow}
      → (unless_taken c name o s).0 ≡ ok meta
      → (o ≡ none) × Made name meta s (unless_taken c name o s).1
  unless_taken-ok name (some existing) s h = cc
  unless_taken-ok name none s {meta} h = elim (Bool-cases c.bucket_fails) [
    | inl e ↦ absurd (ground arith)
    | inr e ↦ simp e ((refl, create_database-ok name s (ground arith)))
  ]

  provision_named-ok :
      (o : Option Text) (s : Estate G) {meta : DatabaseRow}
      → database_name (name_or c.database_name c.default_database_name) ≡ o
      → (provision_named c o s).0 ≡ ok meta
      → Created meta s (provision_named c o s).1
  provision_named-ok none s e h = cc
  provision_named-ok (some name) s e h =
      let (fresh, made) = unless_taken-ok name (find_by_name c.tenant_id name s.databases) s h in
      let (is_meta, free, found, at_path, new_id) = made in
      record {
        name = name;
        node = at_path.0;
        valid = e;
        fresh = fresh;
        is_meta = is_meta;
        new_id = new_id;
        free = free;
        found = found;
        made = at_path.1;
        placed = at_path.2;
      }

  pub provision_succeeded :
      (s : Estate G) {meta : DatabaseRow}
      → (provision c s).0 ≡ ok meta
      → Created meta s (provision c s).1
  unfolding provision
  provision_succeeded s h =
      provision_named-ok (database_name (name_or c.database_name c.default_database_name)) s refl h

  -- An object of another database than the new one.
  initial_snapshot-objects :
      (o : Option (SnapshotCall G)) (s : Estate G) (k : ObjectKey)
      → k.database_id ≢ c.metadata_id
      → Dict.get (initial_snapshot c o s).objects k ≡ Dict.get s.objects k
  initial_snapshot-objects none s k h = refl
  initial_snapshot-objects (some snapshot) s k h =
      (create_snapshot_keeps _ s).3 k (λ e. h (ap (λ (j : ObjectKey). j.database_id) e))

  saved-objects :
      (name : Text) (o : Option (List DatabaseRow)) (s : Estate G) (k : ObjectKey)
      → k.database_id ≢ c.metadata_id
      → Dict.get (saved c name o s).1.objects k ≡ Dict.get s.objects k
  saved-objects name none s k h = refl
  saved-objects name (some rows) s k h = initial_snapshot-objects c.initial _ k h

  created_at_path-objects :
      (name : Text) (o : Option (Node G)) (s : Estate G) (k : ObjectKey)
      → k.database_id ≢ c.metadata_id
      → Dict.get (created_at_path c name o s).1.objects k ≡ Dict.get s.objects k
  created_at_path-objects name none s k h = refl
  created_at_path-objects name (some node) s k h = saved-objects name _ _ k h

  unless_taken-objects :
      (name : Text) (o : Option DatabaseRow) (s : Estate G) (k : ObjectKey)
      → k.database_id ≢ c.metadata_id
      → Dict.get (unless_taken c name o s).1.objects k ≡ Dict.get s.objects k
  unless_taken-objects name (some existing) s k h = refl
  unless_taken-objects name none s k h =
      ground (arith, created_at_path-objects name c.created s k h)

  pub provision-objects :
      (s : Estate G) (k : ObjectKey)
      → k.database_id ≢ c.metadata_id
      → Dict.get (provision c s).1.objects k ≡ Dict.get s.objects k
  unfolding provision
  provision-objects s k h = go (database_name (name_or c.database_name c.default_database_name))
    where
      go : (o : Option Text) → Dict.get (provision_named c o s).1.objects k ≡ Dict.get s.objects k
      go none = refl
      go (some name) = unless_taken-objects name (find_by_name c.tenant_id name s.databases) s k h
