-- ===== src/Access/Middleware.antt =====
-- AuthenticationMiddleware (backend/src/presentation/api/middleware/authentication.py): which requests
-- pass, and as which tenant. The number that stands for the text of a key, and what the JWT service
-- makes of a token, are arguments; the application behind the middleware is not looked at.
pub mod Guard
use kuzu_event_bus.Prelude.{
  ℕ, Bool, true, false, not, ◌&&◌, ◌||◌, Option, none, some, List, [], ◌∷◌, ◌==◌, nat_key,
  if◌then◌else◌,
}
use kuzu_event_bus.Text.{Text, text, strip, after_prefix, starts_with, text_key}
use kuzu_event_bus.Tenants.Account.{AccountStatus, active, trial}

pub record Customer : Type 0 where
  pub id : ℕ
  pub api_key : ℕ
  pub is_active : Bool
  pub last_used : Option ℕ
  pub status : AccountStatus

pub record Request : Type 0 where
  pub path : Text
  pub token : Option Text
  pub authorization : Option Text
  pub now : ℕ
  pub number : Text → ℕ
  pub verify_sse_token : Text → Option ℕ
  pub lookup_fails : Bool
  pub save_fails : Bool

pub data Verdict : Type 0 where
  public : Verdict
  as_tenant : ℕ → Verdict
  unauthorized : Verdict
  service_error : Verdict

abbrev pub starts_with_one_of : List Text → Text → Bool
starts_with_one_of [] path = false
starts_with_one_of (p ∷ ps) path = if starts_with p path then true else starts_with_one_of ps path

abbrev pub protected_paths : List Text
protected_paths = text "/api/v1/databases" ∷ []

abbrev pub public_paths : List Text
public_paths =
    text "/health"
    ∷ text "/api/v1/auth/register"
    ∷ text "/api/v1/auth/login"
    ∷ text "/docs"
    ∷ text "/redoc"
    ∷ text "/openapi.json"
    ∷ []

unfoldable pub requires_auth : Text → Bool
requires_auth path =
    if starts_with_one_of protected_paths path
    then true
    else if starts_with_one_of public_paths path
    then false
    else not (path == text "/" || path == [])

-- The key that an Authorization header carries, if it carries one.
abbrev pub unless_blank : Text → Option Text
unless_blank [] = none
unless_blank (c ∷ s) = some (c ∷ s)

abbrev pub key_after : Option Text → Option Text
key_after none = none
key_after (some key) = unless_blank (strip key)

unfoldable pub bearer : Option Text → Option Text
bearer none = none
bearer (some header) = key_after (after_prefix (text "Bearer ") header)

unfoldable pub find_by_api_key : ℕ → List Customer → Option Customer
find_by_api_key key [] = none
find_by_api_key key (c ∷ cs) =
    let rest = find_by_api_key key cs in if c.api_key == key then some c else rest

abbrev pub may_enter : AccountStatus → Bool
may_enter active = true
may_enter trial = true
may_enter _ = false

abbrev pub accepted : Option Customer → Option Customer
accepted none = none
accepted (some c) = if c.is_active && may_enter c.status then some c else none

unfoldable pub validate_customer : Request → ℕ → List Customer → Option Customer
validate_customer r key cs = if r.lookup_fails then none else accepted (find_by_api_key key cs)

abbrev pub save_customer : Customer → List Customer → List Customer
save_customer new [] = new ∷ []
save_customer new (c ∷ cs) =
    let rest = save_customer new cs in if c.id == new.id then new ∷ cs else c ∷ rest

-- The key is marked as used, and the account saved.
abbrev pub enter : Request → Option Customer → List Customer → Verdict × List Customer
enter r none cs = (unauthorized, cs)
enter r (some c) cs =
    if r.save_fails
    then (service_error, cs)
    else (as_tenant c.id, save_customer (record c { last_used = some r.now }) cs)

abbrev pub with_key : Request → Option Text → List Customer → Verdict × List Customer
with_key r none cs = (unauthorized, cs)
with_key r (some key) cs = enter r (validate_customer r (r.number key) cs) cs

abbrev pub by_header : Request → List Customer → Verdict × List Customer
by_header r cs = with_key r (bearer r.authorization) cs

abbrev pub of_claims : Option ℕ → List Customer → Verdict × List Customer
of_claims none cs = (unauthorized, cs)
of_claims (some tenant) cs = (as_tenant tenant, cs)

-- An event stream may carry a token in its query; an empty one is none.
abbrev pub stream : Request → Option Text → List Customer → Verdict × List Customer
stream r none cs = by_header r cs
stream r (some []) cs = by_header r cs
stream r (some (c ∷ s)) cs = of_claims (r.verify_sse_token (c ∷ s)) cs

abbrev pub is_stream : Text → Bool
is_stream path = starts_with (text "/api/v1/events/stream") path

unfoldable pub dispatch : Request → List Customer → Verdict × List Customer
dispatch r cs =
    if not (requires_auth r.path)
    then (public, cs)
    else if is_stream r.path
    then stream r r.token cs
    else by_header r cs
