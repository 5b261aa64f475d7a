-- ===== src/Branches.antt =====
-- Names of databases and branches (backend/src/domain/branching/value_objects.py and
-- backend/src/domain/database_management/value_objects.py), and the listing of a database's branches
-- (backend/src/application/usecases/branching/list_branches.py). A pattern's final `$` also matches
-- before a newline that ends the text.
pub mod Names
pub mod Listing
pub mod Replay
mod Tests
use kuzu_event_bus.Prelude.{
  ℕ, Bool, true, false, not, ◌&&◌, ◌||◌, Option, none, some, List, [], ◌∷◌, ◌++◌, length, ltb, leb,
  ◌==◌, nat_key, if◌then◌else◌,
}
use kuzu_event_bus.Text.{Text, text, starts_with, split_once}

abbrev pub is_lower : ℕ → Bool
is_lower c = (leb 97 c && leb c 122) || (leb 48 c && leb c 57) || c == 95 || c == 45

abbrev pub is_word : ℕ → Bool
is_word c = is_lower c || (leb 65 c && leb c 90)

-- `[…]*$`
abbrev pub all_then_end : (ℕ → Bool) → Text → Bool
all_then_end allowed [] = true
all_then_end allowed (c ∷ []) = allowed c || c == 10
all_then_end allowed (c ∷ d ∷ s) = let rest = all_then_end allowed (d ∷ s) in allowed c && rest

abbrev pub starts_wrong : Text → Bool
starts_wrong [] = false
starts_wrong (c ∷ s) = c == 45 || c == 95

abbrev pub word_pattern : Text → Bool
word_pattern [] = false
word_pattern (c ∷ s) = is_word c && all_then_end is_word s

-- The constructor of BranchName: the value, unless the validation raises.
unfoldable pub branch_name : Text → Option Text
branch_name value =
    if ltb (length value) 2
    then none
    else if ltb 50 (length value)
    then none
    else if not (word_pattern value)
    then none
    else if starts_wrong value
    then none
    else some value

abbrev pub separator : Text
separator = text "--branch--"

unfoldable pub to_full_name : Text → Text → Text
to_full_name value parent_database = parent_database ++ separator ++ value

pub data ParsedName : Type 0 where
  no_branch : ParsedName
  branch : Text → Text → ParsedName
  value_error : ParsedName

abbrev pub with_parent : Text → Option Text → ParsedName
with_parent parent none = value_error
with_parent parent (some name) = branch parent name

abbrev pub of_parts : Option (Text × Text) → ParsedName
of_parts none = no_branch
of_parts (some (parent, name)) = with_parent parent (branch_name name)

unfoldable pub from_full_name : Text → ParsedName
from_full_name full_name = of_parts (split_once separator full_name)

pub record Database : Type 0 where
  pub id : ℕ
  pub name : Text

pub record BranchInfo : Type 0 where
  pub name : Text
  pub full_name : Text
  pub parent : Text
  pub branch_database_id : ℕ

-- One database of the loop: nothing, an entry, or an error that leaves it.
abbrev pub add_info : Database → ParsedName → Option (List BranchInfo) → Option (List BranchInfo)
add_info db value_error rest = none
add_info db no_branch rest = rest
add_info db (branch parent name) none = none
add_info db (branch parent name) (some infos) = some (
    record { name = name; full_name = db.name; parent = parent; branch_database_id = db.id }
    ∷ infos)

unfoldable pub list_branches : Text → List Database → Option (List BranchInfo)
list_branches parent [] = some []
list_branches parent (db ∷ dbs) =
    let rest = list_branches parent dbs in
    if starts_with (parent ++ separator) db.name
    then add_info db (from_full_name db.name) rest
    else rest
