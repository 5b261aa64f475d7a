-- ===== src/Access/Customers.antt =====
-- Creating and revoking a customer's API keys (backend/src/application/usecases/
-- create_customer_api_key.py and revoke_customer_api_key.py), over the service's dictionary of keys and
-- the accounts that the middleware reads.
use kuzu_event_bus.Prelude.{
  ℕ, ◌≡◌, ◌≢◌, refl, ap, sym, subst, ◌∙◌, Bool, true, false, ◌&&◌, Option, none, some, List, [],
  ◌∷◌, arith, inl, inr, Bool-cases, ◌==◌, nat_key, nat_beq_iff, if◌then◌else◌,
}
use kuzu_event_bus.Dict
use kuzu_event_bus.Dict.{get-put, get-put_same}
use kuzu_event_bus.Tenants.Account.{AccountStatus, active}
use kuzu_event_bus.Access.{KeyRecord, Keys, generate_api_key, revoke_api_key, revoke_found}
use kuzu_event_bus.Access.Middleware.{Customer, save_customer}

pub record KeyState : Type 0 where
  pub keys : Keys
  pub customers : List Customer

unfoldable pub find_customer : ℕ → List Customer → Option Customer
find_customer id [] = none
find_customer id (c ∷ cs) = let rest = find_customer id cs in if c.id == id then some c else rest

abbrev pub is_active_account : AccountStatus → Bool
is_active_account active = true
is_active_account _ = false

-- The answer is the fresh key, or none where the call raises.
abbrev pub create_for : ℕ → ℕ → ℕ → List ℕ → Bool → Option Customer → KeyState → Option ℕ × KeyState
create_for api_key now key_name permissions event_fails none s = (none, s)
create_for api_key now key_name permissions event_fails (some account) s =
    if is_active_account account.status
    then (
      if event_fails then none else some api_key,
      record s { keys = (generate_api_key api_key now account.id key_name permissions s.keys).1 },
    )
    else (none, s)

unfoldable pub create_customer_api_key :
    ℕ → ℕ → ℕ → ℕ → List ℕ → Bool → KeyState → Option ℕ × KeyState
create_customer_api_key api_key now customer key_name permissions event_fails s =
    create_for api_key now key_name permissions event_fails (find_customer customer s.customers) s

abbrev pub deactivate_own : Customer → ℕ → Bool → List Customer → List Customer
deactivate_own account key success cs =
    if success && (account.api_key == key && account.is_active)
    then save_customer (record account { is_active = false }) cs
    else cs

abbrev pub revoke_for : ℕ → ℕ → Option Customer → KeyState → Bool × KeyState
revoke_for key now none s = (false, s)
revoke_for key now (some account) s =
    let (success, keys) = revoke_api_key key now s.keys in
    (success, record { keys = keys; customers = deactivate_own account key success s.customers })

unfoldable pub revoke_customer_api_key : ℕ → ℕ → ℕ → KeyState → Bool × KeyState
revoke_customer_api_key customer key now s =
    revoke_for key now (find_customer customer s.customers) s

revoke_found-get :
    (key now : ℕ) (o : Option KeyRecord) (keys : Keys)
    → (revoke_found key now o keys).0 ≡ true
    → (rec : KeyRecord) × (Dict.get (revoke_found key now o keys).1 key ≡ some rec)
      × (rec.revoked ≡ true)
revoke_found-get key now none keys h = cc
revoke_found-get key now (some rec) keys h = elim (Bool-cases rec.revoked) [
  | inl e ↦ absurd (ground arith)
  | inr e ↦
      simp e ((record rec { revoked = true; revoked_at = some now }, get-put_same keys key _, refl))
]

revoke_found_again :
    (key later : ℕ) (rec : KeyRecord) (keys : Keys)
    → rec.revoked ≡ true
    → (revoke_found key later (some rec) keys).0 ≡ false
revoke_found_again key later rec keys h = ground arith

revoked_twice :
    (key now later : ℕ) (keys : Keys)
    → (revoke_api_key key now keys).0 ≡ true
    → (revoke_api_key key later (revoke_api_key key now keys).1).0 ≡ false
unfolding revoke_api_key
revoked_twice key now later keys h =
    let (rec, found, dead) = revoke_found-get key now (Dict.get keys key) keys h in
    rw found (revoke_found_again key later rec _ dead)

deactivate_own-foreign :
    (a : Customer) (key : ℕ) (success : Bool) (cs : List Customer)
    → a.api_key ≢ key
    → deactivate_own a key success cs ≡ cs
deactivate_own-foreign a key false cs h = refl
deactivate_own-foreign a key true cs h = ground (arith, nat_beq_iff a.api_key key)

revoke_for-dead :
    (key later : ℕ) (o : Option Customer) (keys : Keys) (cs : List Customer)
    → (revoke_api_key key later keys).0 ≡ false
    → let s : KeyState = record { keys = keys; customers = cs } in
      ((revoke_for key later o s).0 ≡ false) × ((revoke_for key later o s).1.customers ≡ cs)
revoke_for-dead key later none keys cs h = (refl, refl)
revoke_for-dead key later (some b) keys cs h =
    (h, ap (λ success. deactivate_own b key success cs) h)

-- Once a customer whose own key is another one has revoked a key, any further call to revoke it, also
-- that of the account that has the key, answers false and changes no account.
pub revoked_by_another :
    (key now later : ℕ) (a b : Customer) (s : KeyState)
    → find_customer a.id s.customers ≡ some a
    → a.api_key ≢ key
    → (revoke_customer_api_key a.id key now s).0 ≡ true
    → let s' = (revoke_customer_api_key a.id key now s).1 in
      ((revoke_customer_api_key b.id key later s').0 ≡ false)
      × ((revoke_customer_api_key b.id key later s').1.customers ≡ s.customers)
unfolding revoke_customer_api_key
revoked_by_another key now later a b s known_a foreign done =
    let revoked : (revoke_api_key key now s.keys).0 ≡ true =
      ap (λ o. (revoke_for key now o s).0) (sym known_a) ∙ done in
    let again = revoked_twice key now later s.keys revoked in
    let keys = (revoke_api_key key now s.keys).1 in
    let step : (revoke_for key now (find_customer a.id s.customers) s).1
        ≡ record { keys = keys; customers = s.customers } =
      ap (λ o. (revoke_for key now o s).1) known_a
      ∙ ap (λ cs. record { keys = keys; customers = cs })
          (deactivate_own-foreign a key _ s.customers foreign) in
    subst
      (λ t.
        ((revoke_for key later (find_customer b.id t.customers) t).0 ≡ false)
        × ((revoke_for key later (find_customer b.id t.customers) t).1.customers ≡ s.customers))
      (sym step) (revoke_for-dead key later (find_customer b.id s.customers) keys s.customers again)
