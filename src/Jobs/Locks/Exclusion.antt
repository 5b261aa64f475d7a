-- ===== src/Jobs/Locks/Exclusion.antt =====
-- Mutual exclusion, and what an expired lease may still do.
use kuzu_event_bus.Prelude.{
  ℕ, ◌+◌, ◌<◌, ◌≡◌, refl, sym, ap, ◌∙◌, ◌≢◌, Option, Bool, false, Bool-cases, Option-cases, inl,
  inr, true, false, none, some, arith, ltb, ◌==◌, nat_key, nat_beq_iff, List, [], ◌∷◌, All,
  if◌then◌else◌,
}
use kuzu_event_bus.Dict
use kuzu_event_bus.Dict.{Dict, get-put, get-put_same, get-put_other, get-remove}
use kuzu_event_bus.Jobs.Locks.{
  Resource, resource_key, Lock, same_resource_iff, LockStore, holder, is_token, acquire_lock,
  release_lock, expire, Extension, Service, begun, extend_get, extend_ttl, expired_by, finish,
  extend_expire,
}

-- While a resource is held, no one else gets it, and asking changes nothing.
pub acquire_lock_held :
    (now token : ℕ) (resource : Resource) (timeout_seconds : ℕ) (s : LockStore) {other : ℕ}
    → holder now resource s ≡ some other
    → acquire_lock now token resource timeout_seconds s ≡ (none, s)
unfolding acquire_lock
acquire_lock_held now token resource timeout_seconds s h = rw (h, acquire_lock)

-- A free resource is granted: the caller holds it until the timeout, and from then on nobody does;
-- every other resource has the holder that it had.
pub acquire_lock_free :
    (now token : ℕ) (resource : Resource) (timeout_seconds : ℕ) (s : LockStore)
    → holder now resource s ≡ none
    → let (got, s') = acquire_lock now token resource timeout_seconds s in
      (got ≡ some token)
      × ((later : ℕ) (r : Resource)
          → holder later r s' ≡ (
              if resource == r
              then (if ltb later (now + timeout_seconds) then some token else none)
              else holder later r s))
unfolding acquire_lock
acquire_lock_free now token resource timeout_seconds s h =
    rw (h, acquire_lock) (refl, λ later r. unfold holder in simp get-put (ground arith))

-- A caller whose token is not the holder's, its own lease having run out for one, releases nothing.
pub release_lock_other :
    (now token : ℕ) (resource : Resource) (s : LockStore)
    → holder now resource s ≢ some token
    → release_lock now resource token s ≡ (false, s)
unfolding release_lock
release_lock_other now token resource s h = ground arith

-- The holder's release frees that resource and no other, at once and for ever.
pub release_lock_own :
    (now token : ℕ) (resource : Resource) (s : LockStore)
    → holder now resource s ≡ some token
    → let (done, s') = release_lock now resource token s in
      (done ≡ true)
      × ((later : ℕ) (r : Resource)
          → holder later r s' ≡ (if resource == r then none else holder later r s))
unfolding release_lock
release_lock_own now token resource s h =
    rw (h, release_lock, (nat_beq_iff token token).1 refl)
      (refl, λ later r. unfold holder in simp get-remove (ground arith))

-- The calls of the service, each with its time, its resource and its token; an extension is three
-- calls, which other calls may come between.
pub data Request : Type 0 where
  acquire release : ℕ → Request
  extend : ℕ → ℕ → Request
  read_ttl set_expiry : ℕ → Request

pub record LockCall : Type 0 where
  pub now : ℕ
  pub resource : Resource
  pub token : ℕ
  pub request : Request

abbrev pub perform_call : LockCall → Request → Service → Service
perform_call c (acquire timeout_seconds) s = record s {
  locks = (acquire_lock c.now c.token c.resource timeout_seconds s.locks).1;
}
perform_call c (release _) s = record s {
  locks = (release_lock c.now c.resource c.token s.locks).1;
}
perform_call c (extend call seconds) s = (extend_get c.now call c.resource c.token seconds s).1
perform_call c (read_ttl call) s = extend_ttl c.now call s
perform_call c (set_expiry call) s = (extend_expire c.now call s).1

unfoldable pub run_calls : List LockCall → Service → Service
run_calls [] s = s
run_calls (c ∷ cs) s = run_calls cs (perform_call c c.request s)

-- A call from someone else, during the lease.
abbrev pub IsRival : Lock → LockCall → Type 0
IsRival l c = (c.now < l.expires_at) × (c.token ≢ l.token)

module _ (r : Resource) where
  -- No extension of the resource is under way.
  abbrev pub IsSettled : Dict ℕ Extension → Type 0
  IsSettled d = (call : ℕ) (x : Extension) → Dict.get d call ≡ some x → x.resource ≢ r

  IsSettled-put :
      (d : Dict ℕ Extension) (call : ℕ) (x : Extension)
      → IsSettled d
      → x.resource ≢ r
      → IsSettled (Dict.put d call x)
  IsSettled-put d call x h ne j y e = elim (Bool-cases (call == j)) [
    | inl same ↦
        let e' : some x ≡ some y = sym (get-put d call j x ∙ rw same refl) ∙ e in
        let e'' : x ≡ y = cc in λ p. ne (ap (λ (z : Extension). z.resource) e'' ∙ p)
    | inr other ↦ h j y (sym (get-put d call j x ∙ rw other refl) ∙ e)
  ]

  abbrev IsKept : Lock → Service → Type 0
  IsKept l s = (Dict.get s.locks r ≡ some l) × IsSettled s.extending

  expire-other :
      (now : ℕ) (resource : Resource) (seconds : ℕ) (s : LockStore)
      → resource ≢ r
      → Dict.get (expire now resource seconds s).1 r ≡ Dict.get s r
  unfolding expire
  expire-other now resource seconds s ne = elim (Option-cases (holder now resource s)) [
    | inl e ↦ rw (e, expire) refl
    | inr (token, e) ↦
        rw (e, expire)
          (get-put_other s resource r (record { token = token; expires_at = now + seconds }) ne)
  ]

  module _ (l : Lock) (c : LockCall) (rival : IsRival l c) where
    acquire-IsKept :
        (timeout_seconds : ℕ) (s : Service)
        → IsKept l s
        → IsKept l (perform_call c (acquire timeout_seconds) s)
    unfolding acquire_lock holder
    acquire-IsKept timeout_seconds s (h, settled) = (
      ground (
        arith,
        get-put s.locks c.resource r
            (record { token = c.token; expires_at = c.now + timeout_seconds }),
        same_resource_iff c.resource r,
      ),
      settled,
    )

    release-IsKept : (n : ℕ) (s : Service) → IsKept l s → IsKept l (perform_call c (release n) s)
    unfolding release_lock holder
    release-IsKept n s (h, settled) =
        (ground (arith, get-remove s.locks c.resource r, same_resource_iff c.resource r), settled)

    own_other :
        (s : Service)
        → Dict.get s.locks r ≡ some l
        → is_token c.token (holder c.now c.resource s.locks) ≡ true
        → c.resource ≢ r
    unfolding holder
    own_other s h e p = ground (arith, ap (Dict.get s.locks) p)

    -- GET finds the holder's token under the resource, so that no rival's extension of it begins.
    extend-IsKept :
        (call seconds : ℕ) (s : Service)
        → IsKept l s
        → IsKept l (perform_call c (extend call seconds) s)
    unfolding extend_get
    extend-IsKept call seconds s (h, settled) =
        go (is_token c.token (holder c.now c.resource s.locks)) refl
      where
        go :
            (b : Bool)
            → is_token c.token (holder c.now c.resource s.locks) ≡ b
            → IsKept l (begun call c.resource seconds b s).1
        go false e = (h, settled)
        go true e = (h, IsSettled-put s.extending call _ settled (own_other s h e))

    read_ttl-IsKept :
        (call : ℕ) (s : Service) → IsKept l s → IsKept l (perform_call c (read_ttl call) s)
    unfolding extend_ttl
    read_ttl-IsKept call s (h, settled) = elim (Option-cases (Dict.get s.extending call)) [
      | inl e ↦ simp e (h, settled)
      | inr (x, e) ↦ simp e (h, IsSettled-put s.extending call _ settled (settled call x e))
    ]

    set_expiry-IsKept :
        (call : ℕ) (s : Service) → IsKept l s → IsKept l (perform_call c (set_expiry call) s)
    unfolding extend_expire
    set_expiry-IsKept call s (h, settled) = go (Dict.get s.extending call) refl
      where
        finished :
            (o : Option ℕ) (x : Extension)
            → x.resource ≢ r
            → IsKept l (expired_by c.now x.resource x.extend_seconds o s).1
        finished none x ne = (h, settled)
        finished (some ttl) x ne =
            (expire-other c.now x.resource (ttl + x.extend_seconds) s.locks ne ∙ h, settled)

        go :
            (o : Option Extension)
            → Dict.get s.extending call ≡ o
            → IsKept l (finish c.now call o s).1
        go none e = (h, settled)
        go (some x) e = finished x.ttl x (settled call x e)

    perform_call-IsKept : (q : Request) (s : Service) → IsKept l s → IsKept l (perform_call c q s)
    perform_call-IsKept (acquire n) s k = acquire-IsKept n s k
    perform_call-IsKept (release n) s k = release-IsKept n s k
    perform_call-IsKept (extend call n) s k = extend-IsKept call n s k
    perform_call-IsKept (read_ttl call) s k = read_ttl-IsKept call s k
    perform_call-IsKept (set_expiry call) s k = set_expiry-IsKept call s k

-- While a lease runs, and if no extension of its resource was under way when it was looked at, no
-- calls of others, for whatever resources and with the three calls of an extension in any order among
-- them, take the resource away, release it or change the lease: whenever they are made before it
-- expires, its holder still holds it.
pub rivals_leave_lease :
    (calls : List LockCall) (s : Service) (r : Resource) (l : Lock)
    → Dict.get s.locks r ≡ some l
    → IsSettled r s.extending
    → All (IsRival l) calls
    → Dict.get (run_calls calls s).locks r ≡ some l
unfolding run_calls
rivals_leave_lease [] s r l h settled rivals = h
rivals_leave_lease (c ∷ cs) s r l h settled rivals =
    let (h', settled') = perform_call-IsKept r l c rivals.0 c.request s (h, settled) in
    rivals_leave_lease cs (perform_call c c.request s) r l h' settled' rivals.1

expire-held :
    (now : ℕ) (r : Resource) (seconds : ℕ) (s : LockStore) (l : Lock)
    → Dict.get s r ≡ some l
    → now < l.expires_at
    → expire now r seconds s
      ≡ (true, Dict.put s r (record { token = l.token; expires_at = now + seconds }))
unfolding expire holder
expire-held now r seconds s l h before = ground (arith, h, before)

-- An extension that was begun under a lease that has run out since then is given to whoever holds
-- the resource by now: it sets the end of that lease, later or earlier than it was.
pub late_extension :
    (now call ttl : ℕ) (x : Extension) (s : Service) (l : Lock)
    → Dict.get s.extending call ≡ some x
    → x.ttl ≡ some ttl
    → Dict.get s.locks x.resource ≡ some l
    → now < l.expires_at
    → Dict.get (extend_expire now call s).1.locks x.resource
      ≡ some (record { token = l.token; expires_at = now + (ttl + x.extend_seconds) })
unfolding extend_expire
late_extension now call ttl x s l under_way read held before =
    rw (under_way, read)
      (rw (expire-held now x.resource (ttl + x.extend_seconds) s.locks l held before) (
        get-put_same s.locks x.resource
          (record { token = l.token; expires_at = now + (ttl + x.extend_seconds) })))
