-- ===== src/Branches/Replay.antt =====
-- The replay of WAL files into a branch that is created at a time
-- (backend/src/application/usecases/branching/create_branch.py), against that of the restore. An
-- entry whose time is missing or does not parse is executed here, and an entry beyond the target ends
-- its file only.
use kuzu_event_bus.Prelude.{
  ℕ, ◌≡◌, refl, ap, ◌∙◌, sym, false, Option, none, some, List, [], ◌∷◌, ◌++◌, arith, ltb,
  if◌then◌else◌,
}
use kuzu_event_bus.Text.{Text}
use kuzu_event_bus.Pitr.Replay.{
  Line, blank, garbage, entry, is_empty, preview_query, replay_wal_files,
}
use kuzu_event_bus.Pitr.Replay.Agreement.{
  IsOrdered, IsOrdered-append, lines_of, state_at, state_at-beyond, state_at-append,
  replay_wal_files_lem,
}

-- Every entry has a time.
abbrev pub IsDated : List Line → Type 0
IsDated [] = Unit
IsDated (blank ∷ ls) = IsDated ls
IsDated (garbage ∷ ls) = IsDated ls
IsDated (entry none query ∷ ls) = ⊥
IsDated (entry (some ts) query ∷ ls) = IsDated ls

IsDated-append : (xs ys : List Line) → IsDated (xs ++ ys) → IsDated xs × IsDated ys
IsDated-append [] ys h = (tt, h)
IsDated-append (blank ∷ xs) ys h = IsDated-append xs ys h
IsDated-append (garbage ∷ xs) ys h = IsDated-append xs ys h
IsDated-append (entry none query ∷ xs) ys h = elim h [ ]
IsDated-append (entry (some ts) query ∷ xs) ys h = IsDated-append xs ys h

module _ {G : Type 0} (execute : Text → G → Option G) where
  unfoldable pub branch_lines : ℕ → List Line → G → G
  branch_lines target [] g = g
  branch_lines target (blank ∷ ls) g = branch_lines target ls g
  branch_lines target (garbage ∷ ls) g = branch_lines target ls g
  branch_lines target (entry none query ∷ ls) g =
      branch_lines target ls (preview_query execute query g)
  branch_lines target (entry (some ts) query ∷ ls) g =
      let rest = branch_lines target ls (preview_query execute query g) in
      if is_empty query then rest else if ltb target ts then g else rest

  unfoldable pub branch_files : ℕ → List (Option (List Line)) → G → G
  branch_files target [] g = g
  branch_files target (none ∷ files) g = branch_files target files g
  branch_files target (some ls ∷ files) g = branch_files target files (branch_lines target ls g)

  branch_lines-eq :
      (target low : ℕ) (ls : List Line) (g : G)
      → IsOrdered low ls
      → IsDated ls
      → branch_lines target ls g ≡ state_at execute target ls g
  unfolding branch_lines
  branch_lines-eq target low [] g h d = refl
  branch_lines-eq target low (blank ∷ ls) g h d = branch_lines-eq target low ls g h d
  branch_lines-eq target low (garbage ∷ ls) g h d = branch_lines-eq target low ls g h d
  branch_lines-eq target low (entry none query ∷ ls) g h d = elim d [ ]
  branch_lines-eq target low (entry (some ts) query ∷ ls) g h d = ground (
    arith,
    branch_lines-eq target ts ls (preview_query execute query g) h.1 d,
    state_at-beyond execute target ts ls g h.1,
  )

  branch_files-eq :
      (target : ℕ) (files : List (Option (List Line))) (g : G)
      → IsOrdered 0 (lines_of files)
      → IsDated (lines_of files)
      → branch_files target files g ≡ state_at execute target (lines_of files) g
  unfolding branch_files
  branch_files-eq target [] g h d = refl
  branch_files-eq target (none ∷ files) g h d = branch_files-eq target files g h d
  branch_files-eq target (some ls ∷ files) g h d =
      let (ho, hr) = IsOrdered-append 0 ls (lines_of files) h in
      let (co, cr) = IsDated-append ls (lines_of files) d in
      branch_files-eq target files (branch_lines target ls g) hr cr
      ∙ ap (state_at execute target (lines_of files)) (branch_lines-eq target 0 ls g ho co)
      ∙ sym (state_at-append execute target ls (lines_of files) g)

  -- From the same contents and the same files, on a log in the order of its times whose entries are
  -- all dated, the replay into a branch leaves what the replay of the restore leaves.
  pub branch_files-agrees :
      (target : ℕ) (files : List (Option (List Line))) (g : G)
      → IsOrdered 0 (lines_of files)
      → IsDated (lines_of files)
      → branch_files target files g
        ≡ (replay_wal_files execute target files
            (record { graph = g; replayed = 0; reached = false })).graph
  branch_files-agrees target files g h d =
      branch_files-eq target files g h d ∙ sym (replay_wal_files_lem execute target files g h)
