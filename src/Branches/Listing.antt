-- ===== src/Branches/Listing.antt =====
-- What the listing of a database's branches returns.
use kuzu_event_bus.Prelude.{
  ◌≡◌, refl, ap, ◌∙◌, Option, none, some, List, [], ◌∷◌, ◌++◌, All, if◌then◌else◌,
}
use kuzu_event_bus.Text.{Text, after_prefix, is_some}
use kuzu_event_bus.Text.Search.{after_prefix_sound}
use kuzu_event_bus.Branches.{
  Database, BranchInfo, branch_name, branch, separator, to_full_name, from_full_name, add_info,
  list_branches,
}
use kuzu_event_bus.Branches.Names.{IsPlain, from_full_name-to_full_name}

-- What follows the prefix of the parent's branches in a database's name, if it has the prefix.
abbrev pub branch_part : Text → Database → Option Text
branch_part parent db = after_prefix (parent ++ separator) db.name

abbrev pub info_of : Text → Database → Text → BranchInfo
info_of parent db name = record {
  name = name;
  full_name = db.name;
  parent = parent;
  branch_database_id = db.id;
}

abbrev pub infos_of : Text → List Database → List BranchInfo
infos_of parent [] = []
infos_of parent (db ∷ dbs) =
    let rest = infos_of parent dbs in
    elim (branch_part parent db) [ none ↦ rest | some name ↦ info_of parent db name ∷ rest ]

-- The part after the prefix is a branch name.
abbrev pub IsNamed : Option Text → Type 0
IsNamed none = Unit
IsNamed (some name) = branch_name name ≡ some name

module _ (parent : Text) (plain : IsPlain parent) where
  from_full_name-part :
      (db : Database) (name : Text)
      → branch_part parent db ≡ some name
      → branch_name name ≡ some name
      → from_full_name db.name ≡ branch parent name
  unfolding to_full_name
  from_full_name-part db name e valid =
      ap from_full_name (after_prefix_sound (parent ++ separator) db.name e)
      ∙ from_full_name-to_full_name parent name plain valid

  step :
      (db : Database) (infos : List BranchInfo) (o : Option Text)
      → branch_part parent db ≡ o
      → IsNamed o
      → (if is_some o then add_info db (from_full_name db.name) (some infos) else some infos)
        ≡ some (elim o [ none ↦ infos | some name ↦ info_of parent db name ∷ infos ])
  step db infos none e h = refl
  step db infos (some name) e h =
      ap (λ p. add_info db p (some infos)) (from_full_name-part db name e h)

  -- For a parent without hyphens in its name, the listing returns one entry, with its name and its
  -- parent, for each database whose name is that of the parent and a branch, in order, and no other,
  -- if what follows the parent's prefix is a valid branch name in each of them.
  pub list_branches_exact :
      (dbs : List Database)
      → All (λ (db : Database). IsNamed (branch_part parent db)) dbs
      → list_branches parent dbs ≡ some (infos_of parent dbs)
  unfolding list_branches
  list_branches_exact [] h = refl
  list_branches_exact (db ∷ dbs) h =
      rw (list_branches_exact dbs h.1)
        (step db (infos_of parent dbs) (branch_part parent db) refl h.0)
