-- ===== src/Tenants/Names.antt =====
-- EmailAddress and TenantName (backend/src/domain/shared/value_objects.py). Whether a character beyond
-- ASCII is alphanumeric is an argument.
use kuzu_event_bus.Prelude.{
  ℕ, Bool, true, false, ◌||◌, Option, none, some, [], ◌∷◌, length, contains, ltb, leb, nat_key,
  if◌then◌else◌,
}
use kuzu_event_bus.Text.{Text, text, strip, lower, split_once}

-- The parts of `email.split("@")`, where there are two: both must be there, and the second must have
-- a dot.
abbrev pub has_parts : Text → Text → Bool
has_parts [] domain_part = false
has_parts (c ∷ local_part) domain_part =
    if contains 64 domain_part then false else contains 46 domain_part

abbrev pub is_email : Option (Text × Text) → Bool
is_email none = false
is_email (some (local_part, domain_part)) = has_parts local_part domain_part

unfoldable pub email_address : Text → Option Text
unfolding strip lower
email_address value =
    let email = lower (strip value) in
    if is_email (split_once (text "@") email) then some email else none

abbrev pub is_ascii_alnum : ℕ → Bool
is_ascii_alnum c =
    (if leb 48 c then leb c 57 else false)
    || (if leb 65 c then leb c 90 else false)
    || (if leb 97 c then leb c 122 else false)

abbrev pub all_allowed : (ℕ → Bool) → Text → Bool
all_allowed isalnum [] = true
all_allowed isalnum (c ∷ s) =
    let rest = all_allowed isalnum s in
    if (if ltb c 128 then is_ascii_alnum c else isalnum c) || contains c (32 ∷ 45 ∷ 95 ∷ [])
    then rest
    else false

unfoldable pub tenant_name : (ℕ → Bool) → Text → Option Text
unfolding strip
tenant_name isalnum value =
    let name = strip value in
    if ltb (length name) 3
    then none
    else if ltb 50 (length name)
    then none
    else if all_allowed isalnum name
    then some name
    else none
