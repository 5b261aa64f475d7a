-- ===== src/Pitr/Preview/Replayed.antt =====
-- What a preview shows.
use kuzu_event_bus.Prelude.{ℕ, true, false, ◌≡◌, ap, Option, some, List, map}
use kuzu_event_bus.Pitr.{Snapshot, WalObject, WalFile, nearest_snapshot_before, preview_wal_files}
use kuzu_event_bus.Pitr.Replay.{Line, replay_wal_files}
use kuzu_event_bus.Pitr.Replay.Agreement.{preview-agrees, lines_of, IsOrdered, IsClean}
use kuzu_event_bus.Pitr.Restore.{Archive}
use kuzu_event_bus.Pitr.Preview.{
  PreviewCall, query_or_default, preview_base, answered, preview_database_pitr,
}

-- The logs of the files that a preview reads
abbrev pub logs : {G R : Type 0} → PreviewCall G R → List WalFile → List (Option (List Line))
logs c files = map (λ (f : WalFile). c.download_wal f.key) files

module _ {G R : Type 0} (c : PreviewCall G R) (time : ℕ) (s : Snapshot)
    (objects : List WalObject) where
  abbrev pub files_read : List WalFile
  files_read = preview_wal_files time c.target_timestamp objects

  -- Where a preview is permitted, a snapshot lies before the target, and the listing and the download
  -- work, it is the answer to the query, or the failure of it, on what the restore's replay leaves of
  -- the snapshot and the log, if the log's lines are in the order of their times and none is broken;
  -- with the snapshot, the number of files, the query and the number of rows.
  pub preview_database_pitr-replay_wal_files :
      (archive : Archive G)
      → c.allowed ≡ true
      → nearest_snapshot_before c.target_timestamp c.all_snapshots ≡ some (time, s)
      → c.list_objects ≡ some objects
      → c.download_snapshot s.object_key ≡ some archive
      → IsOrdered 0 (lines_of (logs c files_read))
      → IsClean (lines_of (logs c files_read))
      → (let query = query_or_default c.preview_query in
          let left =
            replay_wal_files c.execute_query c.target_timestamp (logs c files_read) (record {
              graph = preview_base c.new_graph archive;
              replayed = 0;
              reached = false;
            }) in
          preview_database_pitr c
          ≡ answered s.object_key files_read query (c.run_query query left.graph))
  unfolding preview_database_pitr
  preview_database_pitr-replay_wal_files archive a n l d ordered clean = rw a (
      rw n (
        rw l (
          rw d (
            ap
              (λ (g : G).
                answered s.object_key files_read (query_or_default c.preview_query)
                  (c.run_query (query_or_default c.preview_query) g))
              (preview-agrees c.execute_query c.target_timestamp (logs c files_read)
                (preview_base c.new_graph archive) ordered clean)))))
