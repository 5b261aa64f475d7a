-- ===== src/Branches/Names.antt =====
-- The full name of a branch and its parts.
use kuzu_event_bus.Prelude.{
  ℕ, ◌≡◌, ◌≢◌, refl, ap, ◌∙◌, sym, Option, none, some, [], ◌∷◌, ◌++◌, arith, nat_key, All,
}
use mathlib.Core.List.{append_assoc}
use kuzu_event_bus.Text.{Text, split_once}
use kuzu_event_bus.Text.Search.{split_once_sound}
use kuzu_event_bus.Branches.{
  branch_name, separator, to_full_name, from_full_name, branch, of_parts, with_parent,
}

-- A name without hyphens.
abbrev pub IsPlain : Text → Type 0
IsPlain = All (λ (c : ℕ). c ≢ 45)

pub split_once-plain :
    (parent name : Text)
    → IsPlain parent
    → split_once separator (parent ++ separator ++ name) ≡ some (parent, name)
unfolding split_once
split_once-plain [] name h = refl
split_once-plain (c ∷ parent) name h = ground (arith, split_once-plain parent name h.1)

branch_name-value : (s : Text) {v : Text} → branch_name s ≡ some v → v ≡ s
unfolding branch_name
branch_name-value s {v} h = ground arith

-- The full name of a branch is parsed back to its parent and its name, if the parent's name has no
-- hyphen.
pub from_full_name-to_full_name :
    (parent name : Text)
    → IsPlain parent
    → branch_name name ≡ some name
    → from_full_name (to_full_name name parent) ≡ branch parent name
unfolding from_full_name to_full_name
from_full_name-to_full_name parent name plain valid =
    ap of_parts (split_once-plain parent name plain) ∙ ap (with_parent parent) valid

with_parent-branch :
    (a parent name : Text) (o : Option Text)
    → with_parent a o ≡ branch parent name
    → (a ≡ parent) × (o ≡ some name)
with_parent-branch a parent name none h = cc
with_parent-branch a parent name (some n) h = (cc, cc)

of_parts_sound :
    (full_name parent name : Text) (o : Option (Text × Text))
    → split_once separator full_name ≡ o
    → of_parts o ≡ branch parent name
    → (branch_name name ≡ some name) × (full_name ≡ to_full_name name parent)
unfolding to_full_name
of_parts_sound full_name parent name none e h = cc
of_parts_sound full_name parent name (some (a, b)) e h =
    let (pa, valid) = with_parent-branch a parent name (branch_name b) h in
    let pb = branch_name-value b valid in
    let shape = split_once_sound separator full_name e in
    (ap branch_name pb ∙ valid, rw (← pa, pb) (shape ∙ sym (append_assoc a separator b)))

-- Whatever is parsed as a branch has a valid name, and its parts make up the full name again.
pub from_full_name_sound :
    (full_name parent name : Text)
    → from_full_name full_name ≡ branch parent name
    → (branch_name name ≡ some name) × (full_name ≡ to_full_name name parent)
unfolding from_full_name to_full_name
from_full_name_sound full_name parent name h =
    of_parts_sound full_name parent name (split_once separator full_name) refl h
