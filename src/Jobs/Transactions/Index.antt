-- ===== src/Jobs/Transactions/Index.antt =====
-- The secondary indexes of the transaction repository: the running set and the tenant id sets say
-- exactly what the hashes say.
use kuzu_event_bus.Prelude.{
  ℕ, ◌≡◌, refl, Bool, false, Option, none, some, List, [], ◌∷◌, ◌++◌, ◌||◌, ◌&&◌, not, String,
  arith, contains, ◌==◌, nat_key,
}
use kuzu_event_bus.Dict
use kuzu_event_bus.Dict.{get-put}
use kuzu_event_bus.Text.{Text}
use kuzu_event_bus.Jobs.Transactions.{
  Transaction, TransactionStatus, Store, is_running, sadd, srem, tenant_members, save_transaction,
  update_status, stamp, write_status,
}

contains-append : (y x : ℕ) (xs : List ℕ) → contains y (xs ++ x ∷ []) ≡ (contains y xs || x == y)
contains-append y x [] = ground arith
contains-append y x (z ∷ xs) = ground (arith, contains-append y x xs)

pub contains-sadd : (xs : List ℕ) (x y : ℕ) → contains y (sadd xs x) ≡ (x == y || contains y xs)
unfolding sadd
contains-sadd xs x y = ground (arith, contains-append y x xs)

pub contains-srem :
    (xs : List ℕ) (x y : ℕ) → contains y (srem xs x) ≡ (not (x == y) && contains y xs)
unfolding srem
contains-srem [] x y = ground arith
contains-srem (z ∷ xs) x y = ground (arith, contains-srem xs x y)

-- Whether the hash of an id holds a running transaction, and one of the given tenant.
abbrev pub when : (Transaction → Bool) → Option Transaction → Bool
when p none = false
when p (some tx) = p tx

abbrev pub runs : Option Transaction → Bool
runs = when (λ tx. is_running tx.status)

abbrev pub belongs : ℕ → Option Transaction → Bool
belongs tenant = when (λ tx. tx.tenant_id == tenant)

pub record IsIndexed (s : Store) : Type 0 where
  pub running_exact : (id : ℕ) → contains id s.running_ids ≡ runs (Dict.get s.hashes id)
  pub tenant_exact :
      (tenant id : ℕ)
      → contains id (tenant_members s tenant) ≡ belongs tenant (Dict.get s.hashes id)

module _ (now id : ℕ) (status : TransactionStatus) (count : ℕ) (message : String) (s : Store) where
  write_status-IsIndexed :
      (o : Option Transaction)
      → Dict.get s.hashes id ≡ o
      → IsIndexed s
      → IsIndexed (write_status o now id status count message s).1
  unfolding tenant_members
  write_status-IsIndexed none e v = v
  write_status-IsIndexed (some tx) e v = record {
    running_exact = λ j. ground (
      arith,
      get-put s.hashes id j (stamp status now count message tx),
      contains-sadd s.running_ids id j,
      contains-srem s.running_ids id j,
      v.running_exact j,
    );
    tenant_exact = λ tenant j.
        ground (
          arith,
          get-put s.hashes id j (stamp status now count message tx),
          v.tenant_exact tenant j,
        );
  }

  -- A status update, of a known or an unknown transaction, keeps both indexes exact.
  pub update_status-IsIndexed :
      IsIndexed s → IsIndexed (update_status now id status count message s).1
  unfolding update_status
  update_status-IsIndexed = write_status-IsIndexed (Dict.get s.hashes id) refl

module _ (now id tenant database : ℕ) (query : Text) (parameters : String)
    (status : TransactionStatus) (timeout_seconds : ℕ) (s : Store) where
  -- Saving a transaction under a fresh id, in whatever status, keeps both indexes exact.
  pub save_transaction-IsIndexed :
      Dict.get s.hashes id ≡ none
      → IsIndexed s
      → IsIndexed
          (save_transaction now id tenant database query parameters status timeout_seconds s)
  unfolding save_transaction tenant_members
  save_transaction-IsIndexed fresh v = record {
    running_exact =
        λ j. simp get-put (ground (arith, contains-sadd s.running_ids id j, v.running_exact j));
    tenant_exact = λ t j.
        simp get-put
          (ground (arith, contains-sadd (tenant_members s tenant) id j, v.tenant_exact t j));
  }
