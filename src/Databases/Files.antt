-- ===== src/Databases/Files.antt =====
-- Databases as files: what a path holds, what a snapshot object holds, and the copies between them
-- (backend/src/domain/database_management/database_path_factory.py).
use kuzu_event_bus.Prelude.{ℕ, Option, none, some}

-- What stands at a path: a file, or a directory with the contents of the database and, if it holds a
-- file of the name `data.kuzu`, that of this file. `G` is a database's contents.
pub data Node (G : Type 0) : Type 0 where
  file : G → Node G
  dir : G → Option G → Node G

-- A snapshot object: an archive with one directory at its top (its name, and the `data.kuzu` in it if
-- there is one), an archive with several entries at its top (and the `data.kuzu` among them), an
-- archive that cannot be read, or a bare file.
pub data Object (G : Type 0) : Type 0 where
  single : ℕ → Option (Node G) → Object G
  several : Option (Node G) → Object G
  broken : Object G
  raw : G → Object G

module _ {G : Type 0} where
  -- `<dir>/data.kuzu` is preferred where it is present.
  abbrev pub snapshot_source : Node G → Node G
  snapshot_source (file g) = file g
  snapshot_source (dir g none) = dir g none
  snapshot_source (dir g (some inner)) = file inner

  -- Both copies, of a tree and of a file, keep what they copy.
  abbrev pub copy_database_to_archive : Node G → Node G
  copy_database_to_archive source = source

  -- `rmtree` raises on a file, and `copy2` onto a directory copies into it.
  abbrev pub extract_database : Node G → Option (Node G) → Option (Node G)
  extract_database (dir g inner) (some (file h)) = none
  extract_database (dir g inner) _ = some (dir g inner)
  extract_database (file g) (some (dir h inner)) = some (dir h (some g))
  extract_database (file g) _ = some (file g)

  -- What is left at the destination by a copy that raises on its way, after `rmtree` or within a
  -- file: a directory that was there is gone, and a file that is written anew has lost what it held.
  -- `rmtree` raises on a file before anything has changed.
  abbrev pub torn_copy : Node G → Option (Node G) → Option (Node G)
  torn_copy (dir g inner) (some (file h)) = some (file h)
  torn_copy (dir g inner) _ = none
  torn_copy (file g) (some (dir h inner)) = some (dir h none)
  torn_copy (file g) _ = none

  -- `os.replace` of a file onto a directory raises.
  abbrev pub replace_file : G → Option (Node G) → Option (Node G)
  replace_file g (some (dir h inner)) = none
  replace_file g _ = some (file g)

  abbrev pub extract_found : Option (Node G) → Option (Node G) → Option (Node G)
  extract_found none dest = none
  extract_found (some source) dest = extract_database source dest

  abbrev pub torn_found : Option (Node G) → Option (Node G) → Option (Node G)
  torn_found none dest = dest
  torn_found (some source) dest = torn_copy source dest

  -- What is left if the copying raises; a bare file is put in place by a rename alone.
  abbrev pub torn_object : Object G → Option (Node G) → Option (Node G)
  torn_object (single root found) dest = torn_found found dest
  torn_object (several found) dest = torn_found found dest
  torn_object broken dest = dest
  torn_object (raw g) dest = dest

  abbrev pub unpack_object : Object G → Option (Node G) → Option (Node G)
  unpack_object (single root found) dest = extract_found found dest
  unpack_object (several found) dest = extract_found found dest
  unpack_object broken dest = none
  unpack_object (raw g) dest = replace_file g dest
