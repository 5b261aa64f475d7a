-- ===== src/Access/Revocation.antt =====
-- How long an API key is good for.
use kuzu_event_bus.Prelude.{
  ℕ, ◌≡◌, ◌≢◌, refl, ◌∙◌, ap, true, none, some, List, [], ◌∷◌, All, arith, nat_key, nat_beq_iff,
  Option-cases, inl, inr,
}
use kuzu_event_bus.Dict
use kuzu_event_bus.Dict.{get-put}
use kuzu_event_bus.Access.{
  KeyRecord, Keys, Grant, generate_api_key, revoke_api_key, grant_of, validate_api_key, Call,
  generate, revoke, call, run,
}

-- A call that does not draw this key, and one that does not revoke it either.
abbrev pub DrawsOther : ℕ → Call → Type 0
DrawsOther key (generate api_key now tenant key_name permissions) = api_key ≢ key
DrawsOther key (revoke api_key now) = Unit

abbrev pub TouchesOther : ℕ → Call → Type 0
TouchesOther key (generate api_key now tenant key_name permissions) = api_key ≢ key
TouchesOther key (revoke api_key now) = api_key ≢ key

module _ (key : ℕ) where
  call-other :
      (c : Call) (keys : Keys) → TouchesOther key c → Dict.get (call c keys) key ≡ Dict.get keys key
  unfolding call generate_api_key revoke_api_key
  call-other (generate api_key now tenant key_name permissions) keys ne =
      get-put keys api_key key _ ∙ ground (arith, nat_beq_iff api_key key)
  call-other (revoke api_key now) keys ne = elim (Option-cases (Dict.get keys api_key)) [
    | inl e ↦ rw (e, call) refl
    | inr (rec, e) ↦
        rw (e, call)
          (ground (
            arith,
            get-put keys api_key key (record rec { revoked = true; revoked_at = some now }),
            nat_beq_iff api_key key,
          ))
  ]

  call-dead :
      (c : Call) (keys : Keys)
      → DrawsOther key c
      → validate_api_key key keys ≡ none
      → validate_api_key key (call c keys) ≡ none
  unfolding call generate_api_key revoke_api_key validate_api_key
  call-dead (generate api_key now tenant key_name permissions) keys ne h =
      ap grant_of (call-other (generate api_key now tenant key_name permissions) keys ne) ∙ h
  call-dead (revoke api_key now) keys ne h = elim (Option-cases (Dict.get keys api_key)) [
    | inl e ↦ rw (e, call) h
    | inr (rec, e) ↦
        rw (e, call)
          (ground (
            arith,
            get-put keys api_key key (record rec { revoked = true; revoked_at = some now }),
            nat_beq_iff api_key key,
          ))
  ]

  -- A key that is not valid, a revoked one for one, stays so through any calls that do not draw it
  -- afresh.
  pub run-dead :
      (cs : List Call) (keys : Keys)
      → All (DrawsOther key) cs
      → validate_api_key key keys ≡ none
      → validate_api_key key (run cs keys) ≡ none
  unfolding run
  run-dead [] keys h dead = dead
  run-dead (c ∷ cs) keys h dead = run-dead cs (call c keys) h.1 (call-dead c keys h.0 dead)

grant_of-put :
    (keys : Keys) (api_key : ℕ) (rec : KeyRecord)
    → validate_api_key api_key (Dict.put keys api_key rec) ≡ grant_of (some rec)
unfolding validate_api_key
grant_of-put keys api_key rec =
    ap grant_of (get-put keys api_key api_key rec) ∙ rw ((nat_beq_iff api_key api_key).1 refl) refl

validate-other :
    (cs : List Call) (key : ℕ) (keys : Keys)
    → All (TouchesOther key) cs
    → validate_api_key key (run cs keys) ≡ validate_api_key key keys
unfolding run validate_api_key
validate-other [] key keys h = refl
validate-other (c ∷ cs) key keys h =
    validate-other cs key (call c keys) h.1 ∙ ap grant_of (call-other key c keys h.0)

revoked_now :
    (key later : ℕ) (keys : Keys) (grant : Grant)
    → validate_api_key key keys ≡ some grant
    → ((revoke_api_key key later keys).0 ≡ true)
      × (validate_api_key key (revoke_api_key key later keys).1 ≡ none)
unfolding validate_api_key revoke_api_key
revoked_now key later keys grant h = elim (Option-cases (Dict.get keys key)) [
  | inl e ↦ absurd (ground (arith, ap grant_of e))
  | inr (rec, e) ↦
      simp (e, revoke_api_key)
        (
          ground (arith, ap grant_of e),
          ground (
            arith,
            ap grant_of e,
            get-put keys key key (record rec { revoked = true; revoked_at = some later }),
            nat_beq_iff key key,
          ),
        )
]

-- A key that has been generated grants its tenant exactly the permissions that it was generated
-- with, whatever is done with other keys, until it is revoked; revoking it then succeeds, and from
-- there on it grants nothing, whatever is called that does not draw it afresh.
pub key_lifetime :
    (key now tenant key_name later : ℕ) (permissions : List ℕ) (keys : Keys)
    (before after : List Call)
    → All (TouchesOther key) before
    → All (DrawsOther key) after
    → let used = run before (generate_api_key key now tenant key_name permissions keys).1 in
      let (done, ended) = revoke_api_key key later used in
      (validate_api_key key used
        ≡ some (record { tenant_id = tenant; permissions = permissions; key_name = key_name }))
      × (done ≡ true)
      × (validate_api_key key (run after ended) ≡ none)
unfolding generate_api_key
key_lifetime key now tenant key_name later permissions keys before after quiet fresh =
    let used = run before (generate_api_key key now tenant key_name permissions keys).1 in
    let valid : validate_api_key key used
        ≡ some (record { tenant_id = tenant; permissions = permissions; key_name = key_name }) =
      validate-other before key (generate_api_key key now tenant key_name permissions keys).1 quiet
      ∙ grant_of-put keys key _ in
    let (done, dead) = revoked_now key later used _ valid in
    (valid, done, run-dead key after (revoke_api_key key later used).1 fresh dead)
