-- ===== src/Jobs/Locks.antt =====
-- RedisDistributedLockService (backend/src/infrastructure/lock/redis_lock_service.py): a key with a
-- token and an expiry for each resource. The random token of `acquire_lock` and the time are
-- arguments; a key is gone from its expiry time on.
pub mod Exclusion
use kuzu_event_bus.Prelude.{
  ℕ, ◌+◌, ◌-◌, Bool, String, ◌&&◌, ◌≡◌, ◌↔◌, arith, HashKey, eq_iff, str_eq, nat_beq, nat_beq_iff,
  true, false, Option, none, some, ltb, ◌==◌, nat_key, if◌then◌else◌,
}
use kuzu_event_bus.Dict
use kuzu_event_bus.Dict.{Dict}

-- The name of a lock, `db:{id}:{purpose}` or `transaction:{id}`.
pub record Resource : Type 0 where
  pub purpose : String
  pub id : ℕ

abbrev pub same_resource : Resource → Resource → Bool
same_resource a b = str_eq a.purpose b.purpose && nat_beq a.id b.id

pub same_resource_iff : (a b : Resource) → (same_resource a b ≡ true) ↔ (a ≡ b)
same_resource_iff a b = ground (arith, eq_iff a.purpose b.purpose, nat_beq_iff a.id b.id)

instance abbrev pub resource_key : HashKey Resource
resource_key = record { same = same_resource; same_exact = same_resource_iff }

pub record Lock : Type 0 where
  pub token : ℕ
  pub expires_at : ℕ

abbrev pub LockStore : Type 0
LockStore = Dict Resource Lock

-- GET on a key that may have expired
abbrev pub live : ℕ → Option Lock → Option ℕ
live now none = none
live now (some lock) = if ltb now lock.expires_at then some lock.token else none

unfoldable pub holder : ℕ → Resource → LockStore → Option ℕ
holder now resource s = live now (Dict.get s resource)

-- SET key token NX EX timeout_seconds
unfoldable pub acquire_lock : ℕ → ℕ → Resource → ℕ → LockStore → Option ℕ × LockStore
acquire_lock now token resource timeout_seconds s = elim (holder now resource s) [
  | some other ↦ (none, s)
  | none ↦ (
    some token,
    Dict.put s resource (record { token = token; expires_at = now + timeout_seconds }),
  )
]

abbrev pub is_token : ℕ → Option ℕ → Bool
is_token token none = false
is_token token (some t) = t == token

-- The compare-and-delete script
unfoldable pub release_lock : ℕ → Resource → ℕ → LockStore → Bool × LockStore
release_lock now resource token s =
    if is_token token (holder now resource s) then (true, Dict.remove s resource) else (false, s)

-- TTL: the remaining time to live, taken exactly where Redis rounds it to seconds
abbrev pub remaining : ℕ → Option Lock → ℕ
remaining now none = 0
remaining now (some lock) = lock.expires_at - now

-- EXPIRE: whatever lives under the key keeps its token.
unfoldable pub expire : ℕ → Resource → ℕ → LockStore → Bool × LockStore
unfolding holder
expire now resource seconds s = elim (holder now resource s) [
  | none ↦ (false, s)
  | some token ↦ (true, Dict.put s resource (record { token = token; expires_at = now + seconds }))
]

-- `extend_lock` is three calls of Redis: GET and the comparison, TTL, and EXPIRE. Other calls may come
-- in between, so that an extension under way is kept with what it has learnt.
pub record Extension : Type 0 where
  pub resource : Resource
  pub extend_seconds : ℕ
  pub ttl : Option ℕ

pub record Service : Type 0 where
  pub locks : LockStore
  pub extending : Dict ℕ Extension

abbrev pub begun : ℕ → Resource → ℕ → Bool → Service → Option Bool × Service
begun call resource extend_seconds false s = (some false, s)
begun call resource extend_seconds true s = (
  none,
  record s {
    extending =
        Dict.put s.extending call
          (record { resource = resource; extend_seconds = extend_seconds; ttl = none });
  },
)

unfoldable pub extend_get : ℕ → ℕ → Resource → ℕ → ℕ → Service → Option Bool × Service
extend_get now call resource token extend_seconds s =
    begun call resource extend_seconds (is_token token (holder now resource s.locks)) s

abbrev pub with_ttl : ℕ → ℕ → Option Extension → Service → Service
with_ttl now call none s = s
with_ttl now call (some x) s = record s {
  extending =
      Dict.put s.extending call
        (record x { ttl = some (remaining now (Dict.get s.locks x.resource)) });
}

unfoldable pub extend_ttl : ℕ → ℕ → Service → Service
extend_ttl now call s = with_ttl now call (Dict.get s.extending call) s

abbrev pub expired_by : ℕ → Resource → ℕ → Option ℕ → Service → Option Bool × Service
expired_by now resource extend_seconds none s = (none, s)
expired_by now resource extend_seconds (some ttl) s =
    let (done, locks) = expire now resource (ttl + extend_seconds) s.locks in
    (some done, record s { locks = locks })

abbrev pub finish : ℕ → ℕ → Option Extension → Service → Option Bool × Service
finish now call none s = (none, s)
finish now call (some x) s = expired_by now x.resource x.extend_seconds x.ttl s

-- The last call; nothing happens before TTL has been read.
unfoldable pub extend_expire : ℕ → ℕ → Service → Option Bool × Service
unfolding expire
extend_expire now call s = finish now call (Dict.get s.extending call) s

-- The three calls with nothing in between.
unfoldable pub extend_lock : ℕ → ℕ → Resource → ℕ → ℕ → Service → Option Bool × Service
unfolding extend_get extend_ttl extend_expire
extend_lock now call resource token extend_seconds s =
    let (refused, under_way) = extend_get now call resource token extend_seconds s in
    elim refused [
      | some answer ↦ (some answer, under_way)
      | none ↦ extend_expire now call (extend_ttl now call under_way)
    ]
