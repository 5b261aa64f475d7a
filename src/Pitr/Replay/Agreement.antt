-- ===== src/Pitr/Replay/Agreement.antt =====
-- The restore's replay and the preview's against one description: apply, in order, every entry dated
-- at or before the target.
use kuzu_event_bus.Prelude.{
  ℕ, ◌≤◌, ◌<◌, ◌≡◌, refl, ap, ◌∙◌, sym, Bool, true, false, Option, none, some, List, [], ◌∷◌, ◌++◌,
  arith, ltb, if◌then◌else◌, Bool-cases, inl, inr,
}
use kuzu_event_bus.Text.{Text}
use kuzu_event_bus.Pitr.Replay.{
  Line, blank, garbage, entry, Progress, replay_query, restore_lines, replay_wal_files,
  preview_query, preview_lines, preview_files,
}

-- Entries in the order of their times, from a time on.
abbrev pub IsOrdered : ℕ → List Line → Type 0
IsOrdered low [] = Unit
IsOrdered low (blank ∷ ls) = IsOrdered low ls
IsOrdered low (garbage ∷ ls) = IsOrdered low ls
IsOrdered low (entry none query ∷ ls) = IsOrdered low ls
IsOrdered low (entry (some ts) query ∷ ls) = (low ≤ ts) × IsOrdered ts ls

-- No line is broken.
abbrev pub IsClean : List Line → Type 0
IsClean [] = Unit
IsClean (garbage ∷ ls) = ⊥
IsClean (blank ∷ ls) = IsClean ls
IsClean (entry ts query ∷ ls) = IsClean ls

-- All lines that could be downloaded, in order.
abbrev pub lines_of : List (Option (List Line)) → List Line
lines_of [] = []
lines_of (none ∷ files) = lines_of files
lines_of (some ls ∷ files) = ls ++ lines_of files

module _ {G : Type 0} (execute : Text → G → Option G) where
  abbrev pub state_at : ℕ → List Line → G → G
  state_at target [] g = g
  state_at target (blank ∷ ls) g = state_at target ls g
  state_at target (garbage ∷ ls) g = state_at target ls g
  state_at target (entry none query ∷ ls) g = state_at target ls g
  state_at target (entry (some ts) query ∷ ls) g =
      state_at target ls (if ltb target ts then g else preview_query execute query g)

  pub state_at-beyond :
      (target low : ℕ) (ls : List Line) (g : G)
      → IsOrdered low ls
      → target < low
      → state_at target ls g ≡ g
  state_at-beyond target low [] g h k = refl
  state_at-beyond target low (blank ∷ ls) g h k = state_at-beyond target low ls g h k
  state_at-beyond target low (garbage ∷ ls) g h k = state_at-beyond target low ls g h k
  state_at-beyond target low (entry none query ∷ ls) g h k = state_at-beyond target low ls g h k
  state_at-beyond target low (entry (some ts) query ∷ ls) g h k =
      ground (arith, state_at-beyond target ts ls g h.1)

  graph-replay_query :
      (query : Text) (p : Progress G)
      → (replay_query execute query p).graph ≡ preview_query execute query p.graph
  graph-replay_query query p = ground arith

  graph-restore_lines :
      (target low : ℕ) (ls : List Line) (p : Progress G)
      → IsOrdered low ls
      → (restore_lines execute target ls p).graph ≡ state_at target ls p.graph
  unfolding restore_lines
  graph-restore_lines target low [] p h = refl
  graph-restore_lines target low (blank ∷ ls) p h = graph-restore_lines target low ls p h
  graph-restore_lines target low (garbage ∷ ls) p h = graph-restore_lines target low ls p h
  graph-restore_lines target low (entry none query ∷ ls) p h = graph-restore_lines target low ls p h
  graph-restore_lines target low (entry (some ts) query ∷ ls) p h =
      elim (Bool-cases (ltb target ts)) [
        | inl e ↦ simp e (sym (state_at-beyond target ts ls p.graph h.1 (ground arith)))
        | inr e ↦ simp e (
            graph-restore_lines target ts ls (replay_query execute query p) h.1
            ∙ ap (state_at target ls) (graph-replay_query query p))
      ]

  restore_lines-append :
      (target : ℕ) (xs ys : List Line) (p : Progress G)
      → p.reached ≡ false
      → restore_lines execute target (xs ++ ys) p ≡ (
          if (restore_lines execute target xs p).reached
          then restore_lines execute target xs p
          else restore_lines execute target ys (restore_lines execute target xs p))
  unfolding restore_lines
  restore_lines-append target [] ys p h = ground arith
  restore_lines-append target (blank ∷ xs) ys p h = restore_lines-append target xs ys p h
  restore_lines-append target (garbage ∷ xs) ys p h = restore_lines-append target xs ys p h
  restore_lines-append target (entry none query ∷ xs) ys p h = restore_lines-append target xs ys p h
  restore_lines-append target (entry (some ts) query ∷ xs) ys p h =
      ground (arith, restore_lines-append target xs ys (replay_query execute query p))

  -- The restore's walk through the files is one walk through their lines.
  replay_wal_files-lines :
      (target : ℕ) (files : List (Option (List Line))) (p : Progress G)
      → p.reached ≡ false
      → replay_wal_files execute target files p ≡ restore_lines execute target (lines_of files) p
  unfolding replay_wal_files restore_lines
  replay_wal_files-lines target [] p h = refl
  replay_wal_files-lines target (none ∷ files) p h = replay_wal_files-lines target files p h
  replay_wal_files-lines target (some ls ∷ files) p h = ground (
    arith,
    restore_lines-append target ls (lines_of files) p,
    replay_wal_files-lines target files (restore_lines execute target ls p),
  )

  -- On entries logged in the order of their times, the restore leaves the database as applying
  -- exactly the entries dated at or before the target does.
  pub replay_wal_files_lem :
      (target : ℕ) (files : List (Option (List Line))) (g : G)
      → IsOrdered 0 (lines_of files)
      → (replay_wal_files execute target files
          (record { graph = g; replayed = 0; reached = false })).graph
        ≡ state_at target (lines_of files) g
  replay_wal_files_lem target files g h =
      rw
        (replay_wal_files-lines target files (record { graph = g; replayed = 0; reached = false })
          refl)
        (graph-restore_lines target 0 (lines_of files)
          (record { graph = g; replayed = 0; reached = false }) h)

  preview_lines-eq :
      (target low : ℕ) (bound : Bool) (ls : List Line) (g : G)
      → IsOrdered low ls
      → IsClean ls
      → preview_lines execute target bound ls g ≡ state_at target ls g
  unfolding preview_lines
  preview_lines-eq target low bound [] g h c = refl
  preview_lines-eq target low bound (blank ∷ ls) g h c = preview_lines-eq target low bound ls g h c
  preview_lines-eq target low bound (garbage ∷ ls) g h c = elim c [ ]
  preview_lines-eq target low bound (entry none query ∷ ls) g h c =
      preview_lines-eq target low true ls g h c
  preview_lines-eq target low bound (entry (some ts) query ∷ ls) g h c =
      elim (Bool-cases (ltb target ts)) [
        | inl e ↦ simp e (sym (state_at-beyond target ts ls g h.1 (ground arith)))
        | inr e ↦ simp e (preview_lines-eq target ts true ls (preview_query execute query g) h.1 c)
      ]

  pub state_at-append :
      (target : ℕ) (xs ys : List Line) (g : G)
      → state_at target (xs ++ ys) g ≡ state_at target ys (state_at target xs g)
  state_at-append target [] ys g = refl
  state_at-append target (blank ∷ xs) ys g = state_at-append target xs ys g
  state_at-append target (garbage ∷ xs) ys g = state_at-append target xs ys g
  state_at-append target (entry none query ∷ xs) ys g = state_at-append target xs ys g
  state_at-append target (entry (some ts) query ∷ xs) ys g = state_at-append target xs ys _

IsOrdered-weaken : (low : ℕ) (ls : List Line) → IsOrdered low ls → IsOrdered 0 ls
IsOrdered-weaken low [] h = tt
IsOrdered-weaken low (blank ∷ ls) h = IsOrdered-weaken low ls h
IsOrdered-weaken low (garbage ∷ ls) h = IsOrdered-weaken low ls h
IsOrdered-weaken low (entry none query ∷ ls) h = IsOrdered-weaken low ls h
IsOrdered-weaken low (entry (some ts) query ∷ ls) h = (omega arith, h.1)

pub IsOrdered-append :
    (low : ℕ) (xs ys : List Line) → IsOrdered low (xs ++ ys) → IsOrdered low xs × IsOrdered 0 ys
IsOrdered-append low [] ys h = (tt, IsOrdered-weaken low ys h)
IsOrdered-append low (blank ∷ xs) ys h = IsOrdered-append low xs ys h
IsOrdered-append low (garbage ∷ xs) ys h = IsOrdered-append low xs ys h
IsOrdered-append low (entry none query ∷ xs) ys h = IsOrdered-append low xs ys h
IsOrdered-append low (entry (some ts) query ∷ xs) ys h =
    let r = IsOrdered-append ts xs ys h.1 in ((h.0, r.0), r.1)

IsClean-append : (xs ys : List Line) → IsClean (xs ++ ys) → IsClean xs × IsClean ys
IsClean-append [] ys h = (tt, h)
IsClean-append (garbage ∷ xs) ys h = elim h [ ]
IsClean-append (blank ∷ xs) ys h = IsClean-append xs ys h
IsClean-append (entry ts query ∷ xs) ys h = IsClean-append xs ys h

module _ {G : Type 0} (execute : Text → G → Option G) where
  preview-eq :
      (target : ℕ) (files : List (Option (List Line))) (g : G)
      → IsOrdered 0 (lines_of files)
      → IsClean (lines_of files)
      → preview_files execute target files g ≡ state_at execute target (lines_of files) g
  unfolding preview_files
  preview-eq target [] g h c = refl
  preview-eq target (none ∷ files) g h c = preview-eq target files g h c
  preview-eq target (some ls ∷ files) g h c =
      let (ho, hr) = IsOrdered-append 0 ls (lines_of files) h in
      let (co, cr) = IsClean-append ls (lines_of files) c in
      preview-eq target files (preview_lines execute target false ls g) hr cr
      ∙ ap (state_at execute target (lines_of files))
          (preview_lines-eq execute target 0 false ls g ho co)
      ∙ sym (state_at-append execute target ls (lines_of files) g)

  -- On a log in the order of its times with no broken line, the preview shows what the restore would
  -- leave.
  pub preview-agrees :
      (target : ℕ) (files : List (Option (List Line))) (g : G)
      → IsOrdered 0 (lines_of files)
      → IsClean (lines_of files)
      → preview_files execute target files g
        ≡ (replay_wal_files execute target files
            (record { graph = g; replayed = 0; reached = false })).graph
  preview-agrees target files g h c =
      preview-eq target files g h c ∙ sym (replay_wal_files_lem execute target files g h)
