-- ===== src/Jobs/Transactions.antt =====
-- RedisTransactionRepository (backend/src/infrastructure/transactions/redis_transaction_repository.py)
-- over the Redis keys that it owns: the hash of each transaction, the id set of each tenant and the
-- set of running ids. A UUID is a number that is only compared. The key formats
-- `tx:{id}`, `tx:tenant:{id}:ids` and `tx:running` never meet, so each family is a field of its own.
pub mod Index
pub mod Queries
use kuzu_event_bus.Prelude.{
  ℕ, String, Bool, true, false, Option, none, some, List, [], ◌∷◌, ◌++◌, take, drop, contains, keep,
  not, ◌==◌, nat_key, if◌then◌else◌,
}
use kuzu_event_bus.Dict
use kuzu_event_bus.Dict.{Dict}
use kuzu_event_bus.Text.{Text}

pub data TransactionStatus : Type 0 where
  pending running completed failed timeout : TransactionStatus

abbrev pub is_running : TransactionStatus → Bool
is_running running = true
is_running _ = false

abbrev pub is_final : TransactionStatus → Bool
is_final completed = true
is_final failed = true
is_final timeout = true
is_final _ = false

-- The fields of the hash. Times are microseconds; `parameters` is the JSON text.
pub record Transaction : Type 0 where
  pub tenant_id : ℕ
  pub database_id : ℕ
  pub query : Text
  pub parameters : String
  pub status : TransactionStatus
  pub timeout_seconds : ℕ
  pub created_at : ℕ
  pub updated_at : ℕ
  pub result_count : ℕ
  pub error_message : String
  pub started_at : Option ℕ
  pub completed_at : Option ℕ

pub record Store : Type 0 where
  pub hashes : Dict ℕ Transaction
  pub tenant_ids : Dict ℕ (List ℕ)
  pub running_ids : List ℕ

abbrev pub empty : Store
empty = record { hashes = []; tenant_ids = []; running_ids = [] }

-- SADD and SREM
unfoldable pub sadd : List ℕ → ℕ → List ℕ
sadd xs x = if contains x xs then xs else xs ++ x ∷ []

unfoldable pub srem : List ℕ → ℕ → List ℕ
srem xs x = keep (λ y. not (y == x)) xs

-- SMEMBERS of a key that may be missing
abbrev pub or_empty : Option (List ℕ) → List ℕ
or_empty none = []
or_empty (some xs) = xs

unfoldable pub tenant_members : Store → ℕ → List ℕ
tenant_members s tenant = or_empty (Dict.get s.tenant_ids tenant)

-- HSET keeps the fields that it does not name.
abbrev pub started_before : Option Transaction → Option ℕ
started_before none = none
started_before (some tx) = tx.started_at

abbrev pub completed_before : Option Transaction → Option ℕ
completed_before none = none
completed_before (some tx) = tx.completed_at

-- The mapping that is written, over what the key held before.
abbrev pub new_transaction :
    ℕ → ℕ → ℕ → Text → String → TransactionStatus → ℕ → Option Transaction → Transaction
new_transaction now tenant database query parameters status timeout_seconds old = record {
  tenant_id = tenant;
  database_id = database;
  query = query;
  parameters = parameters;
  status = status;
  timeout_seconds = timeout_seconds;
  created_at = now;
  updated_at = now;
  result_count = 0;
  error_message = "";
  started_at = started_before old;
  completed_at = completed_before old;
}

unfoldable pub save_transaction :
    ℕ → ℕ → ℕ → ℕ → Text → String → TransactionStatus → ℕ → Store → Store
unfolding sadd tenant_members
save_transaction now id tenant database query parameters status timeout_seconds s =
    let old = Dict.get s.hashes id in
    let tx = new_transaction now tenant database query parameters status timeout_seconds old in
    record {
      hashes = Dict.put s.hashes id tx;
      tenant_ids = Dict.put s.tenant_ids tenant (sadd (tenant_members s tenant) id);
      running_ids = if is_running status then sadd s.running_ids id else s.running_ids;
    }

unfoldable pub find_by_id : ℕ → Store → Option Transaction
find_by_id id s = Dict.get s.hashes id

-- A pipeline of HGETALL; rows of missing keys are dropped.
pub rows_of : Store → List ℕ → List Transaction
rows_of s [] = []
rows_of s (id ∷ ids) =
    let rest = rows_of s ids in elim (Dict.get s.hashes id) [ none ↦ rest | some tx ↦ tx ∷ rest ]

pub find_by_tenant : ℕ → ℕ → ℕ → Store → List Transaction
find_by_tenant tenant limit offset s =
    rows_of s (take limit (drop offset (tenant_members s tenant)))

pub find_running_transactions : Store → List Transaction
find_running_transactions s = rows_of s s.running_ids

abbrev pub stamp : TransactionStatus → ℕ → ℕ → String → Transaction → Transaction
stamp status now count message tx = record tx {
  status = status;
  updated_at = now;
  result_count = count;
  error_message = message;
  started_at = if is_running status then some now else tx.started_at;
  completed_at = if is_final status then some now else tx.completed_at;
}

abbrev pub write_status :
    Option Transaction → ℕ → ℕ → TransactionStatus → ℕ → String → Store → Bool × Store
write_status none now id status count message s = (false, s)
write_status (some tx) now id status count message s = (
  true,
  record s {
    hashes = Dict.put s.hashes id (stamp status now count message tx);
    running_ids = if is_running status then sadd s.running_ids id else srem s.running_ids id;
  },
)

-- The call's result, and the store after it.
unfoldable pub update_status : ℕ → ℕ → TransactionStatus → ℕ → String → Store → Bool × Store
unfolding sadd srem
update_status now id status count message s =
    write_status (Dict.get s.hashes id) now id status count message s
