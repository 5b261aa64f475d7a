-- ===== src/Pitr/Replay.antt =====
-- Replaying WAL files, as the restore (`_replay_wal_files`) and the preview (`_replay_wal_file`,
-- file by file) do it. The database's contents and what Kuzu makes of a query are parameters: a
-- query that raises leaves the contents as they are. A line is blank, or no JSON entry, or an entry
-- with its time, if it has one that parses, and its query. `download` is none where it raises.
pub mod Agreement
use kuzu_event_bus.Prelude.{
  ℕ, suc, ◌+◌, Bool, true, false, Option, none, some, List, [], ◌∷◌, ◌++◌, ltb, leb, if◌then◌else◌,
}
use kuzu_event_bus.Text.{Text}

pub data Line : Type 0 where
  blank : Line
  garbage : Line
  entry : Option ℕ → Text → Line

-- The contents, the number of entries replayed, and whether the target has been passed.
pub record Progress (G : Type 0) : Type 0 where
  pub graph : G
  pub replayed : ℕ
  pub reached : Bool

abbrev pub is_empty : Text → Bool
is_empty [] = true
is_empty (c ∷ s) = false

module _ {G : Type 0} (execute : Text → G → Option G) where
  -- One query: an empty one is passed over, one that raises counts for nothing.
  abbrev pub counted : Option G → Progress G → Progress G
  counted none p = p
  counted (some g) p = record p { graph = g; replayed = p.replayed + 1 }

  abbrev pub replay_query : Text → Progress G → Progress G
  replay_query query p = if is_empty query then p else counted (execute query p.graph) p

  -- The restore returns at the first entry beyond the target.
  unfoldable pub restore_lines : ℕ → List Line → Progress G → Progress G
  restore_lines target [] p = p
  restore_lines target (blank ∷ ls) p = restore_lines target ls p
  restore_lines target (garbage ∷ ls) p = restore_lines target ls p
  restore_lines target (entry none query ∷ ls) p = restore_lines target ls p
  restore_lines target (entry (some ts) query ∷ ls) p =
      let rest = restore_lines target ls (replay_query query p) in
      if ltb target ts then record p { reached = true } else rest

  unfoldable pub replay_wal_files : ℕ → List (Option (List Line)) → Progress G → Progress G
  replay_wal_files target [] p = p
  replay_wal_files target (none ∷ files) p = replay_wal_files target files p
  replay_wal_files target (some ls ∷ files) p =
      let p' = restore_lines target ls p in
      let rest = replay_wal_files target files p' in if p'.reached then p' else rest

  -- The preview leaves only the file at such an entry. Its handler of a bad line names the variable
  -- `entry`: before the first entry of the file has been read that is an error of its own, which
  -- ends the file.
  abbrev pub or_unchanged : Option G → G → G
  or_unchanged none g = g
  or_unchanged (some g') g = g'

  abbrev pub preview_query : Text → G → G
  preview_query query g = if is_empty query then g else or_unchanged (execute query g) g

  unfoldable pub preview_lines : ℕ → Bool → List Line → G → G
  preview_lines target bound [] g = g
  preview_lines target bound (blank ∷ ls) g = preview_lines target bound ls g
  preview_lines target bound (garbage ∷ ls) g =
      let rest = preview_lines target bound ls g in if bound then rest else g
  preview_lines target bound (entry none query ∷ ls) g = preview_lines target true ls g
  preview_lines target bound (entry (some ts) query ∷ ls) g =
      let rest = preview_lines target true ls (preview_query query g) in
      if ltb target ts then g else rest

  unfoldable pub preview_files : ℕ → List (Option (List Line)) → G → G
  preview_files target [] g = g
  preview_files target (none ∷ files) g = preview_files target files g
  preview_files target (some ls ∷ files) g =
      preview_files target files (preview_lines target false ls g)
