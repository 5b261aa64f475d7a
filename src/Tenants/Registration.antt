-- ===== src/Tenants/Registration.antt =====
-- Registering a customer (backend/src/application/usecases/register_customer.py), with the table of
-- customers (backend/src/infrastructure/database/tenant_repository.py). A new account has the plan and
-- the quotas of the trial; the row keeps what registration looks at.
pub mod Rows
pub mod Uniqueness
mod Tests
use kuzu_event_bus.Prelude.{
  ℕ, Bool, true, false, not, ◌&&◌, ◌||◌, Option, none, some, List, [], ◌∷◌, ◌==◌, nat_key,
  if◌then◌else◌,
}
use kuzu_event_bus.Text.{Text, text, text_key}
use kuzu_event_bus.Access.{Keys, generate_api_key}
use kuzu_event_bus.Databases.Files.{Node}
use kuzu_event_bus.Databases.Snapshots.{Estate}
use kuzu_event_bus.Databases.Provision.{ProvisionCall, create_database}
use kuzu_event_bus.Tenants.Names.{email_address, tenant_name}

pub record AccountRow : Type 0 where
  pub customer_id : ℕ
  pub tenant_name : Text
  pub admin_email : Text
  pub api_key : ℕ
  pub password_hash : ℕ

unfoldable pub find_account : ℕ → List AccountRow → Option AccountRow
find_account id [] = none
find_account id (r ∷ rs) =
    let rest = find_account id rs in if r.customer_id == id then some r else rest

unfoldable pub find_by_tenant_name : Text → List AccountRow → Option AccountRow
find_by_tenant_name name [] = none
find_by_tenant_name name (r ∷ rs) =
    let rest = find_by_tenant_name name rs in if r.tenant_name == name then some r else rest

-- The address is normalised once more; the rest of the row has been read before.
abbrev pub find_normalised : Text → List AccountRow → Option AccountRow
find_normalised email [] = none
find_normalised email (r ∷ rs) =
    let rest = find_normalised email rs in if r.admin_email == email then some r else rest

abbrev pub find_email : Option Text → List AccountRow → Option (Option AccountRow)
find_email none rs = none
find_email (some normalized) rs = some (find_normalised normalized rs)

-- None is the ValidationError.
unfoldable pub find_by_email : Text → List AccountRow → Option (Option AccountRow)
find_by_email email rs = find_email (email_address email) rs

-- The unique columns.
abbrev pub conflicts : AccountRow → AccountRow → Bool
conflicts new old =
    not (old.customer_id == new.customer_id)
    && (old.tenant_name == new.tenant_name
        || old.admin_email == new.admin_email
        || old.api_key == new.api_key)

abbrev pub some_conflict : AccountRow → List AccountRow → Bool
some_conflict new [] = false
some_conflict new (r ∷ rs) = let rest = some_conflict new rs in conflicts new r || rest

abbrev pub upsert_row : AccountRow → List AccountRow → List AccountRow
upsert_row new [] = new ∷ []
upsert_row new (r ∷ rs) =
    let rest = upsert_row new rs in if r.customer_id == new.customer_id then new ∷ rs else r ∷ rest

unfoldable pub save_account : AccountRow → List AccountRow → Option (List AccountRow)
save_account new rs = if some_conflict new rs then none else some (upsert_row new rs)

pub record RegisterCall (G : Type 0) : Type 0 where
  pub tenant_name : Text
  pub admin_email : Text
  pub password_hash : ℕ
  pub now : ℕ
  pub isalnum : ℕ → Bool
  pub customer_id : ℕ
  pub api_key : ℕ
  pub permissions : List ℕ
  pub save_fails : Bool
  pub services : Bool
  pub bucket_fails : Bool
  pub metadata_id : ℕ
  pub created : Option (Node G)
  pub event_fails : Bool
  pub cache_fails : Bool

pub record Registry (G : Type 0) : Type 0 where
  pub accounts : List AccountRow
  pub keys : Keys
  pub estate : Estate G
  pub welcomed : List ℕ
  pub cached : List ℕ

pub data RegisterError : Type 0 where
  validation_error name_exists email_in_use save_failed event_failed cache_failed : RegisterError

pub data Registered : Type 0 where
  ok : AccountRow → Registered
  err : RegisterError → Registered

module _ {G : Type 0} where
  -- The default database: an error is swallowed, with what has been done up to it.
  abbrev pub default_database : RegisterCall G → ProvisionCall G
  default_database c = record {
    tenant_id = c.customer_id;
    database_name = none;
    default_database_name = text "main";
    bucket_fails = c.bucket_fails;
    metadata_id = c.metadata_id;
    created = c.created;
    created_at = c.now;
    initial = none;
  }

  abbrev pub provision_default : RegisterCall G → Estate G → Estate G
  provision_default c s =
      if c.services && not c.bucket_fails
      then (create_database (default_database c) (text "main") s).1
      else s

  abbrev pub cached_summary : RegisterCall G → AccountRow → Registry G → Registered × Registry G
  cached_summary c row g =
      if c.cache_fails
      then (err cache_failed, g)
      else (ok row, record g { cached = row.customer_id ∷ g.cached })

  abbrev pub notified : RegisterCall G → AccountRow → Registry G → Registered × Registry G
  notified c row g =
      if c.event_fails
      then (err event_failed, g)
      else cached_summary c row (record g { welcomed = row.customer_id ∷ g.welcomed })

  abbrev pub persisted :
      RegisterCall G → AccountRow → Option (List AccountRow) → Registry G → Registered × Registry G
  persisted c row none g = (err save_failed, g)
  persisted c row (some rows) g =
      if c.save_fails
      then (err save_failed, g)
      else notified c row (record g { accounts = rows; estate = provision_default c g.estate })

  abbrev pub account_of : RegisterCall G → Text → Text → AccountRow
  account_of c name email = record {
    customer_id = c.customer_id;
    tenant_name = name;
    admin_email = email;
    api_key = c.api_key;
    password_hash = c.password_hash;
  }

  -- The key is generated before the account is saved.
  abbrev pub new_account : RegisterCall G → Text → Text → Registry G → Registered × Registry G
  new_account c name email g =
      let (key, keys) = generate_api_key c.api_key c.now c.customer_id 0 c.permissions g.keys in
      persisted c (account_of c name email) (save_account (account_of c name email) g.accounts)
        (record g { keys = keys })

  abbrev pub unless_email_used :
      RegisterCall G
      → Text
      → Text
      → Option (Option AccountRow)
      → Registry G
      → Registered × Registry G
  unless_email_used c name email none g = (err validation_error, g)
  unless_email_used c name email (some (some existing)) g = (err email_in_use, g)
  unless_email_used c name email (some none) g = new_account c name email g

  abbrev pub unless_name_used :
      RegisterCall G → Text → Text → Option AccountRow → Registry G → Registered × Registry G
  unless_name_used c name email (some existing) g = (err name_exists, g)
  unless_name_used c name email none g =
      unless_email_used c name email (find_by_email email g.accounts) g

  abbrev pub validated :
      RegisterCall G → Option Text → Option Text → Registry G → Registered × Registry G
  validated c none email g = (err validation_error, g)
  validated c (some name) none g = (err validation_error, g)
  validated c (some name) (some email) g =
      unless_name_used c name email (find_by_tenant_name name g.accounts) g

  unfoldable pub register_customer : RegisterCall G → Registry G → Registered × Registry G
  register_customer c g =
      validated c (tenant_name c.isalnum c.tenant_name) (email_address c.admin_email) g
