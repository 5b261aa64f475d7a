-- ===== src/Pitr/Restore/Renames.antt =====
-- The renames by which `_restore_snapshot` puts a snapshot in place
-- (backend/src/application/usecases/restore_database_pitr.py).
use kuzu_event_bus.Prelude.{
  String, ◌≡◌, ◌⊎◌, inl, inr, refl, Bool, Bool-cases, ◌==◌, string_key, true, false, Option, none,
  some, [], ◌∷◌,
}
use kuzu_event_bus.Pitr.Restore.{
  Archive, Place, Placing, placed, failed, RenameFault, stage_raises, backup_raises, promote_raises,
  file_raises, set_aside, promote, back_up, stage, from_root, replace_file, replace_onto,
  restore_snapshot, tar, raw,
}

-- What putting a snapshot in place comes to: a database there; or, if it fails, the place as it was, or with the database set
-- aside if it is the last rename that raises.
module _ {G : Type 0} where
  abbrev pub LeftAt : Option RenameFault → Place G → Place G → Type 0
  LeftAt fault place place' =
      (place' ≡ place)
      ⊎ ((fault ≡ some promote_raises)
          × (place'.graph ≡ none)
          × (place'.backups ≡ set_aside place.graph place.backups))

  abbrev pub LeftBy : Option RenameFault → Place G → Placing G → Type 0
  LeftBy fault place (placed pl) = (g : G) × (pl.graph ≡ some g)
  LeftBy fault place (failed e pl) = LeftAt fault place pl

  promote-LeftBy :
      (fault : Option RenameFault) (found : Bool × G) (place : Place G)
      → LeftBy fault place (promote fault found place)
  promote-LeftBy none (d, g) place = (g, refl)
  promote-LeftBy (some stage_raises) (d, g) place = (g, refl)
  promote-LeftBy (some backup_raises) (d, g) place = (g, refl)
  promote-LeftBy (some promote_raises) found place = inr (refl, refl, refl)
  promote-LeftBy (some file_raises) (d, g) place = (g, refl)

  back_up-LeftBy :
      (fault : Option RenameFault) (found : Bool × G) (o : Option G) (place : Place G)
      → LeftBy fault place (back_up fault found o place)
  back_up-LeftBy none found o place = promote-LeftBy none found place
  back_up-LeftBy (some stage_raises) found o place = promote-LeftBy (some stage_raises) found place
  back_up-LeftBy (some backup_raises) found none place =
      promote-LeftBy (some backup_raises) found place
  back_up-LeftBy (some backup_raises) found (some g) place = inl refl
  back_up-LeftBy (some promote_raises) found o place =
      promote-LeftBy (some promote_raises) found place
  back_up-LeftBy (some file_raises) found o place = promote-LeftBy (some file_raises) found place

  stage-LeftBy :
      (fault : Option RenameFault) (found : Bool × G) (place : Place G)
      → LeftBy fault place (stage fault found place)
  stage-LeftBy none found place = back_up-LeftBy none found place.graph place
  stage-LeftBy (some stage_raises) found place = inl refl
  stage-LeftBy (some backup_raises) found place =
      back_up-LeftBy (some backup_raises) found place.graph place
  stage-LeftBy (some promote_raises) found place =
      back_up-LeftBy (some promote_raises) found place.graph place
  stage-LeftBy (some file_raises) found place =
      back_up-LeftBy (some file_raises) found place.graph place

  from_root-LeftBy :
      (fault : Option RenameFault) (expected name : String) (found : Option (Bool × G))
      (place : Place G)
      → LeftBy fault place (from_root fault expected name found place)
  from_root-LeftBy fault expected name none place = elim (Bool-cases (name == expected)) [
    | inl e ↦ rw e (inl refl)
    | inr e ↦ rw e (inl refl)
  ]
  from_root-LeftBy fault expected name (some found) place = elim (Bool-cases (name == expected)) [
    | inl e ↦ rw e (stage-LeftBy fault found place)
    | inr e ↦ rw e (inl refl)
  ]

  replace_onto-LeftBy :
      (fault : Option RenameFault) (directory : Bool) (g : G) (place : Place G)
      → LeftBy fault place (replace_onto directory g place)
  replace_onto-LeftBy fault true g place = inl refl
  replace_onto-LeftBy fault false g place = (g, refl)

  replace_file-LeftBy :
      (fault : Option RenameFault) (g : G) (place : Place G)
      → LeftBy fault place (replace_file fault g place)
  replace_file-LeftBy (some file_raises) g place = inl refl
  replace_file-LeftBy none g place = replace_onto-LeftBy none place.is_directory g place
  replace_file-LeftBy (some stage_raises) g place =
      replace_onto-LeftBy (some stage_raises) place.is_directory g place
  replace_file-LeftBy (some backup_raises) g place =
      replace_onto-LeftBy (some backup_raises) place.is_directory g place
  replace_file-LeftBy (some promote_raises) g place =
      replace_onto-LeftBy (some promote_raises) place.is_directory g place

  pub restore_snapshot-LeftBy :
      (fault : Option RenameFault) (expected : String) (a : Option (Archive G)) (place : Place G)
      → LeftBy fault place (restore_snapshot fault expected a place)
  unfolding restore_snapshot
  restore_snapshot-LeftBy fault expected none place = inl refl
  restore_snapshot-LeftBy fault expected (some (raw g)) place = replace_file-LeftBy fault g place
  restore_snapshot-LeftBy fault expected (some (tar [])) place = inl refl
  restore_snapshot-LeftBy fault expected (some (tar ((name, found) ∷ []))) place =
      from_root-LeftBy fault expected name found place
  restore_snapshot-LeftBy fault expected (some (tar (x ∷ y ∷ more))) place = inl refl
