-- ===== src/Access/Middleware/Guard.antt =====
-- Who passes the middleware.
use kuzu_event_bus.Prelude.{
  ℕ, ◌≡◌, ◌≢◌, refl, ◌⊎◌, true, false, Option, none, some, List, [], ◌∷◌, Elem, arith, inl, inr,
  Option-cases, nat_key, nat_beq_iff,
}
use kuzu_event_bus.Text.{Text}
use kuzu_event_bus.Access.Middleware.{
  Customer, Request, Verdict, public, as_tenant, unauthorized, service_error, requires_auth, bearer,
  find_by_api_key, may_enter, validate_customer, enter, with_key, by_header, is_stream, dispatch,
}

find_by_api_key-Elem :
    (key : ℕ) (cs : List Customer) {c : Customer}
    → find_by_api_key key cs ≡ some c
    → Elem c cs × (c.api_key ≡ key)
unfolding find_by_api_key
find_by_api_key-Elem key [] h = cc
find_by_api_key-Elem key (x ∷ cs) {c} h =
    ground (arith, nat_beq_iff x.api_key key, find_by_api_key-Elem key cs {c = c})

-- An account with this key, of this tenant, that may enter.
abbrev pub IsEntitled : Request → List Customer → ℕ → Customer → Text → Type 0
IsEntitled r cs tenant c key =
    (bearer r.authorization ≡ some key)
    × Elem c cs
    × (c.api_key ≡ r.number key)
    × (c.id ≡ tenant)
    × (c.is_active ≡ true)
    × (may_enter c.status ≡ true)

with_key-IsEntitled :
    (r : Request) (cs : List Customer) (tenant : ℕ) (o : Option Text)
    → bearer r.authorization ≡ o
    → (with_key r o cs).0 ≡ as_tenant tenant
    → (c : Customer) × (key : Text) × IsEntitled r cs tenant c key
unfolding validate_customer
with_key-IsEntitled r cs tenant none e h = cc
with_key-IsEntitled r cs tenant (some key) e h =
    elim (Option-cases (find_by_api_key (r.number key) cs)) [
      | inl n ↦ absurd (ground arith)
      | inr (c, f) ↦
          let (member, own) = find_by_api_key-Elem (r.number key) cs f in
          (c, key, (e, member, own, ground arith, ground arith, ground arith))
    ]

enter-public : (r : Request) (o : Option Customer) (cs : List Customer) → (enter r o cs).0 ≢ public
enter-public r none cs h = cc
enter-public r (some c) cs h = ground arith

with_key-public :
    (r : Request) (cs : List Customer) (o : Option Text) → (with_key r o cs).0 ≢ public
with_key-public r cs none h = cc
with_key-public r cs (some key) h = enter-public r (validate_customer r (r.number key) cs) cs h

-- On a path that requires authentication, and is no event stream, a request that passes does so as a
-- tenant whose account has the key that the Authorization header carries, with the key active and the
-- account active or on trial; no other request passes.
pub dispatch_guarded :
    (r : Request) (cs : List Customer)
    → requires_auth r.path ≡ true
    → is_stream r.path ≡ false
    → ((dispatch r cs).0 ≡ unauthorized)
      ⊎ ((dispatch r cs).0 ≡ service_error)
      ⊎ ((tenant : ℕ) × ((dispatch r cs).0 ≡ as_tenant tenant)
          × ((c : Customer) × (key : Text) × IsEntitled r cs tenant c key))
unfolding dispatch
dispatch_guarded r cs needed plain = simp (needed, plain) (by_verdict (by_header r cs).0 refl)
  where
    by_verdict :
        (v : Verdict)
        → (by_header r cs).0 ≡ v
        → ((by_header r cs).0 ≡ unauthorized)
          ⊎ ((by_header r cs).0 ≡ service_error)
          ⊎ ((tenant : ℕ) × ((by_header r cs).0 ≡ as_tenant tenant)
              × ((c : Customer) × (key : Text) × IsEntitled r cs tenant c key))
    by_verdict unauthorized h = inl h
    by_verdict service_error h = inr (inl h)
    by_verdict (as_tenant tenant) h =
        inr (inr (tenant, h, with_key-IsEntitled r cs tenant (bearer r.authorization) refl h))
    by_verdict public h = absurd (with_key-public r cs (bearer r.authorization) h)
