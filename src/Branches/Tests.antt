-- ===== src/Branches/Tests.antt =====
-- Concrete names and databases.
use kuzu_event_bus.Prelude.{◌≡◌, refl, false, Option, none, some, ◌++◌, List, [], ◌∷◌, arith}
use kuzu_event_bus.Text.{Text, text}
use kuzu_event_bus.Branches.{Database, branch_name, list_branches}
use kuzu_event_bus.Branches.Names.{IsPlain}
use kuzu_event_bus.Branches.Replay.{branch_files, branch_files-agrees}
use kuzu_event_bus.Pitr.Replay.{Line, blank, garbage, entry, replay_wal_files}
use kuzu_event_bus.Branches.Listing.{infos_of, list_branches_exact}

main-IsPlain : IsPlain (text "main")
main-IsPlain = (
  (λ h. omega (arith, h)),
  ((λ h. omega (arith, h)), ((λ h. omega (arith, h)), ((λ h. omega (arith, h)), tt))),
)

dev_valid : branch_name (text "dev-2") ≡ some (text "dev-2")
unfolding branch_name
dev_valid = refl

-- A database, a branch of it, and another database.
abbrev databases : List Database
databases =
    record { id = 1; name = text "main" }
    ∷ record { id = 2; name = text "main--branch--dev-2" }
    ∷ record { id = 3; name = text "other" }
    ∷ []

list_branches_exact_example :
    list_branches (text "main") databases ≡ some (infos_of (text "main") databases)
list_branches_exact_example =
    list_branches_exact (text "main") main-IsPlain databases (tt, (dev_valid, (tt, tt)))

abbrev execute : Text → List Text → Option (List Text)
execute query g = some (g ++ query ∷ [])

abbrev files : List (Option (List Line))
files =
    some (entry (some 30) (text "CREATE (a)") ∷ blank ∷ entry (some 35) (text "CREATE (b)") ∷ [])
    ∷ none
    ∷ some (garbage ∷ entry (some 46) (text "CREATE (c)") ∷ [])
    ∷ []

branch_files-agrees_example :
    branch_files execute 45 files []
    ≡ (replay_wal_files execute 45 files
        (record { graph = []; replayed = 0; reached = false })).graph
branch_files-agrees_example =
    branch_files-agrees execute 45 files [] (omega arith, (omega arith, (omega arith, tt))) tt
