-- ===== src/Tenants/Registration/Tests.antt =====
-- Two registrations with one address, and another one between them.
use kuzu_event_bus.Prelude.{ℕ, ◌≡◌, refl, true, false, some, [], ◌∷◌}
use kuzu_event_bus.Text.{text, strip, lower, split_once}
use kuzu_event_bus.Databases.Files.{file}
use kuzu_event_bus.Tenants.Names.{email_address, tenant_name}
use kuzu_event_bus.Tenants.Registration.{
  AccountRow, RegisterCall, Registry, RegisterError, ok, err, register_customer,
  find_by_tenant_name, find_by_email, save_account,
}
use kuzu_event_bus.Tenants.Registration.Uniqueness.{registrations, register_customer_once}

abbrev empty : Registry ℕ
empty = record {
  accounts = [];
  keys = [];
  estate = record {
    databases = [];
    snapshots = [];
    disk = [];
    objects = [];
    locks = [];
    cached_info = [];
    db_cache = [];
  };
  welcomed = [];
  cached = [];
}

abbrev ada : RegisterCall ℕ
ada = record {
  tenant_name = text "Ada Lovelace";
  admin_email = text "Ada@Engine.org ";
  password_hash = 1;
  now = 5;
  isalnum = λ c. false;
  customer_id = 1;
  api_key = 100;
  permissions = [];
  save_fails = false;
  services = true;
  bucket_fails = false;
  metadata_id = 10;
  created = some (file 0);
  event_fails = false;
  cache_fails = false;
}

abbrev charles : RegisterCall ℕ
charles = record ada {
  tenant_name = text "Charles";
  admin_email = text "charles@engine.org";
  customer_id = 2;
  api_key = 101;
  metadata_id = 11;
}

abbrev ada_again : RegisterCall ℕ
ada_again = record ada {
  tenant_name = text "Countess";
  admin_email = text " ada@engine.ORG";
  customer_id = 3;
  api_key = 102;
  metadata_id = 12;
}

abbrev ada_row : AccountRow
ada_row = record {
  customer_id = 1;
  tenant_name = text "Ada Lovelace";
  admin_email = text "ada@engine.org";
  api_key = 100;
  password_hash = 1;
}

ada_registered : (register_customer ada empty).0 ≡ ok ada_row
unfolding register_customer tenant_name email_address strip lower split_once find_by_tenant_name
    find_by_email save_account
ada_registered = refl

same_address : email_address ada_again.admin_email ≡ email_address ada.admin_email
unfolding email_address strip lower split_once
same_address = refl

register_customer_once_example :
    let later = registrations (charles ∷ []) (register_customer ada empty).1 in
    ((e : RegisterError) × ((register_customer ada_again later).0 ≡ err e))
    × ((register_customer ada_again later).1.accounts ≡ later.accounts)
register_customer_once_example =
    register_customer_once ada ada_again (charles ∷ []) empty {row = ada_row} ada_registered
      ((λ e. cc), tt) same_address
