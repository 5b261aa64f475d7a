-- ===== src/Access/Tests.antt =====
-- A concrete request, and the life of a concrete key.
use kuzu_event_bus.Prelude.{
  ℕ, ◌≡◌, ◌⊎◌, refl, true, false, none, some, List, [], ◌∷◌, arith, length,
}
use kuzu_event_bus.Text.{Text, text}
use kuzu_event_bus.Tenants.Account.{trial}
use kuzu_event_bus.Access.Middleware.{
  Customer, Request, unauthorized, service_error, as_tenant, requires_auth, dispatch,
}
use kuzu_event_bus.Dict.{get, put}
use kuzu_event_bus.Access.Customers.{
  KeyState, find_customer, revoke_customer_api_key, revoked_by_another,
}
use kuzu_event_bus.Access.Middleware.Guard.{IsEntitled, dispatch_guarded}
use kuzu_event_bus.Access.{
  Call, generate, revoke, generate_api_key, revoke_api_key, validate_api_key, run,
}
use kuzu_event_bus.Access.Revocation.{key_lifetime}

abbrev customer : Customer
customer = record { id = 4; api_key = 6; is_active = true; last_used = none; status = trial }

abbrev request : Request
request = record {
  path = text "/api/v1/databases/7";
  token = none;
  authorization = some (text "Bearer secret");
  now = 10;
  number = λ key. length key;
  verify_sse_token = λ token. none;
  lookup_fails = false;
  save_fails = false;
}

dispatch_guarded_example :
    ((dispatch request (customer ∷ [])).0 ≡ unauthorized)
    ⊎ ((dispatch request (customer ∷ [])).0 ≡ service_error)
    ⊎ ((tenant : ℕ) × ((dispatch request (customer ∷ [])).0 ≡ as_tenant tenant)
        × ((c : Customer) × (key : Text) × IsEntitled request (customer ∷ []) tenant c key))
unfolding requires_auth
dispatch_guarded_example = dispatch_guarded request (customer ∷ []) refl refl

-- The customer's key, and another customer who revokes it.
abbrev intruder : Customer
intruder = record { id = 5; api_key = 8; is_active = true; last_used = none; status = trial }

abbrev key_state : KeyState
key_state = record {
  keys = (generate_api_key 6 1 4 1 (7 ∷ []) []).1;
  customers = customer ∷ intruder ∷ [];
}

revoked_by_another_example :
    let s' = (revoke_customer_api_key 5 6 2 key_state).1 in
    ((revoke_customer_api_key 4 6 3 s').0 ≡ false)
    × ((revoke_customer_api_key 4 6 3 s').1.customers ≡ customer ∷ intruder ∷ [])
unfolding revoke_customer_api_key find_customer revoke_api_key generate_api_key get put
revoked_by_another_example =
    revoked_by_another 6 2 3 intruder customer key_state refl (λ h. cc) refl

-- Another tenant's key comes and goes before this one is revoked, and one more is drawn after.
abbrev earlier : List Call
earlier = generate 2 11 9 1 [] ∷ revoke 2 12 ∷ []

abbrev afterwards : List Call
afterwards = revoke 1 30 ∷ generate 3 31 4 1 [] ∷ []

key_lifetime_example :
    let used = run earlier (generate_api_key 1 10 4 1 (7 ∷ []) []).1 in
    let (done, ended) = revoke_api_key 1 20 used in
    (validate_api_key 1 used ≡ some (record { tenant_id = 4; permissions = 7 ∷ []; key_name = 1 }))
    × (done ≡ true)
    × (validate_api_key 1 (run afterwards ended) ≡ none)
key_lifetime_example =
    key_lifetime 1 10 4 1 20 (7 ∷ []) [] earlier afterwards
      ((λ h. omega (arith, h)), ((λ h. omega (arith, h)), tt)) (tt, ((λ h. omega (arith, h)), tt))
