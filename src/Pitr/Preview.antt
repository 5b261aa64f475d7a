-- ===== src/Pitr/Preview.antt =====
-- PreviewDatabasePITRUseCase.execute (backend/src/application/usecases/preview_database_pitr.py): the
-- state at a time, made in a temporary directory. `PreviewCall` holds the request and what the other
-- services answer to it; `none` is an exception. Contents of the directory are gone after the call.
pub mod Replayed
use kuzu_event_bus.Prelude.{
  ℕ, String, Bool, true, false, Option, none, some, List, [], ◌∷◌, map, length, if◌then◌else◌,
}
use kuzu_event_bus.Text.{Text, text}
use kuzu_event_bus.Pitr.{
  Snapshot, Timed, WalObject, WalFile, nearest_snapshot_before, preview_wal_files,
}
use kuzu_event_bus.Pitr.Replay.{Line, preview_files}
use kuzu_event_bus.Pitr.Restore.{Archive, tar, raw}

-- `R` is a row of the query's answer. Opening a path at which there is nothing gives `new_graph`.
pub record PreviewCall (G R : Type 0) : Type 0 where
  pub allowed : Bool
  pub target_timestamp : ℕ
  pub all_snapshots : List Snapshot
  pub list_objects : Option (List WalObject)
  pub download_snapshot : ℕ → Option (Archive G)
  pub download_wal : ℕ → Option (List Line)
  pub execute_query : Text → G → Option G
  pub run_query : Text → G → Option (List R)
  pub new_graph : G
  pub preview_query : Option Text

pub data PreviewError : Type 0 where
  not_authorized no_snapshot listing_failed download_failed query_failed : PreviewError

pub record Shown (R : Type 0) : Type 0 where
  pub snapshot_used : ℕ
  pub wal_files_replayed : ℕ
  pub preview_query : Text
  pub results : List R
  pub rows_returned : ℕ

pub data Preview (R : Type 0) : Type 0 where
  shown : Shown R → Preview R
  failed : PreviewError → Preview R

-- An empty text counts as no query.
abbrev pub query_or_default : Option Text → Text
query_or_default none = text "MATCH (n) RETURN n LIMIT 100"
query_or_default (some []) = text "MATCH (n) RETURN n LIMIT 100"
query_or_default (some (c ∷ s)) = c ∷ s

module _ {G : Type 0} where
  -- The first directory of the archive with a `data.kuzu`
  abbrev pub first_graph : G → List (String × Option (Bool × G)) → G
  first_graph new [] = new
  first_graph new ((name, none) ∷ roots) = first_graph new roots
  first_graph new ((name, some (directory, g)) ∷ roots) = g

  -- _restore_snapshot
  unfoldable pub preview_base : G → Archive G → G
  preview_base new (tar roots) = first_graph new roots
  preview_base new (raw g) = g

module _ {R : Type 0} where
  abbrev pub answered : ℕ → List WalFile → Text → Option (List R) → Preview R
  answered key files query none = failed query_failed
  answered key files query (some rows) = shown (record {
    snapshot_used = key;
    wal_files_replayed = length files;
    preview_query = query;
    results = rows;
    rows_returned = length rows;
  })

module _ {G R : Type 0} where
  abbrev pub replayed : PreviewCall G R → List WalFile → G → G
  replayed c files g =
      preview_files c.execute_query c.target_timestamp
        (map (λ (f : WalFile). c.download_wal f.key) files) g

  abbrev pub on_base : PreviewCall G R → Snapshot → List WalFile → Option (Archive G) → Preview R
  on_base c s files none = failed download_failed
  on_base c s files (some archive) =
      let query = query_or_default c.preview_query in
      answered s.object_key files query
        (c.run_query query (replayed c files (preview_base c.new_graph archive)))

  abbrev pub from_objects : PreviewCall G R → Timed → Option (List WalObject) → Preview R
  from_objects c t none = failed listing_failed
  from_objects c (time, s) (some objects) =
      on_base c s (preview_wal_files time c.target_timestamp objects)
        (c.download_snapshot s.object_key)

  abbrev pub from_nearest : PreviewCall G R → Option Timed → Preview R
  from_nearest c none = failed no_snapshot
  from_nearest c (some t) = from_objects c t c.list_objects

  -- execute
  unfoldable pub preview_database_pitr : PreviewCall G R → Preview R
  unfolding preview_base
  preview_database_pitr c =
      if c.allowed
      then from_nearest c (nearest_snapshot_before c.target_timestamp c.all_snapshots)
      else failed not_authorized
