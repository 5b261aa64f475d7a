-- ===== src/Access.antt =====
-- ApiKeyAuthenticationService (backend/src/infrastructure/auth/api_key_authentication_service.py):
-- the dictionary of API keys. A key and a key's name are numbers that are only compared; the fresh key
-- and the time are arguments. The password functions, which are hashing alone, are left out.
pub mod Revocation
pub mod Middleware
pub mod Customers
mod Tests
use kuzu_event_bus.Prelude.{
  ℕ, Bool, true, false, not, Option, none, some, List, [], ◌∷◌, ◌==◌, nat_key, if◌then◌else◌,
}
use kuzu_event_bus.Dict
use kuzu_event_bus.Dict.{Dict}

pub record KeyRecord : Type 0 where
  pub tenant_id : ℕ
  pub key_name : ℕ
  pub permissions : List ℕ
  pub revoked : Bool
  pub created_at : ℕ
  pub revoked_at : Option ℕ

abbrev pub Keys : Type 0
Keys = Dict ℕ KeyRecord

-- `api_key` is the fresh random key.
unfoldable pub generate_api_key : ℕ → ℕ → ℕ → ℕ → List ℕ → Keys → ℕ × Keys
generate_api_key api_key now tenant key_name permissions keys = (
  api_key,
  Dict.put keys api_key (record {
    tenant_id = tenant;
    key_name = key_name;
    permissions = permissions;
    revoked = false;
    created_at = now;
    revoked_at = none;
  }),
)

abbrev pub revoke_found : ℕ → ℕ → Option KeyRecord → Keys → Bool × Keys
revoke_found api_key now none keys = (false, keys)
revoke_found api_key now (some rec) keys =
    if rec.revoked
    then (false, keys)
    else (true, Dict.put keys api_key (record rec { revoked = true; revoked_at = some now }))

unfoldable pub revoke_api_key : ℕ → ℕ → Keys → Bool × Keys
revoke_api_key api_key now keys = revoke_found api_key now (Dict.get keys api_key) keys

pub record KeyInfo : Type 0 where
  pub api_key : ℕ
  pub rec : KeyRecord

unfoldable pub list_api_keys : ℕ → Keys → List KeyInfo
list_api_keys tenant [] = []
list_api_keys tenant ((key, rec) ∷ keys) =
    let rest = list_api_keys tenant keys in
    if rec.tenant_id == tenant then record { api_key = key; rec = rec } ∷ rest else rest

-- What a valid key grants.
pub record Grant : Type 0 where
  pub tenant_id : ℕ
  pub permissions : List ℕ
  pub key_name : ℕ

abbrev pub grant_of : Option KeyRecord → Option Grant
grant_of none = none
grant_of (some rec) =
    if rec.revoked
    then none
    else some (record {
      tenant_id = rec.tenant_id;
      permissions = rec.permissions;
      key_name = rec.key_name;
    })

unfoldable pub validate_api_key : ℕ → Keys → Option Grant
validate_api_key api_key keys = grant_of (Dict.get keys api_key)

-- The methods that change the keys, as calls.
pub data Call : Type 0 where
  generate : ℕ → ℕ → ℕ → ℕ → List ℕ → Call
  revoke : ℕ → ℕ → Call

unfoldable pub call : Call → Keys → Keys
unfolding generate_api_key revoke_api_key
call (generate api_key now tenant key_name permissions) keys =
    (generate_api_key api_key now tenant key_name permissions keys).1
call (revoke api_key now) keys = (revoke_api_key api_key now keys).1

unfoldable pub run : List Call → Keys → Keys
run [] keys = keys
run (c ∷ cs) keys = run cs (call c keys)
