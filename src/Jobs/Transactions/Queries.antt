-- ===== src/Jobs/Transactions/Queries.antt =====
-- What the repository's queries return: complete and confined to what was asked for.
use kuzu_event_bus.Prelude.{
  ℕ, ◌≡◌, Bool, true, some, List, [], ◌∷◌, arith, contains, ◌==◌, nat_key, nat_beq_iff, sym, ap,
  ◌↔◌, ◌∙◌, length, Elem, suc, zero, ◌≤◌, All, All-take, All-drop, Option-cases, inl, inr, take,
  drop,
}
use kuzu_event_bus.Dict
use kuzu_event_bus.Jobs.Transactions.{
  Transaction, Store, is_running, tenant_members, rows_of, find_by_tenant,
  find_running_transactions, find_by_id,
}
use kuzu_event_bus.Jobs.Transactions.Index.{IsIndexed, when, runs, belongs}

-- Every id of a list whose members test positive, tests positive.
All-contained :
    (p : ℕ → Bool) (all xs : List ℕ)
    → ((x : ℕ) → contains x all ≡ p x)
    → ((x : ℕ) → contains x xs ≡ true → contains x all ≡ true)
    → All (λ x. p x ≡ true) xs
All-contained p all [] exact sub = tt
All-contained p all (x ∷ xs) exact sub = (
  sym (exact x) ∙ sub x (ground (arith, nat_beq_iff x x)),
  All-contained p all xs exact (λ y h. sub y (ground arith)),
)

rows_of-All :
    (s : Store) (p : Transaction → Bool) (ids : List ℕ)
    → All (λ id. when p (Dict.get s.hashes id) ≡ true) ids
    → All (λ tx. p tx ≡ true) (rows_of s ids)
unfolding rows_of
rows_of-All s p [] h = tt
rows_of-All s p (id ∷ ids) h = elim (Option-cases (Dict.get s.hashes id)) [
  | inl e ↦ rw (e, rows_of) (rows_of-All s p ids h.1)
  | inr (tx, e) ↦ rw (e, rows_of) (rw e at h.0, rows_of-All s p ids h.1)
]

rows_of_complete :
    (s : Store) (id : ℕ) (tx : Transaction) (ids : List ℕ)
    → Dict.get s.hashes id ≡ some tx
    → contains id ids ≡ true
    → Elem tx (rows_of s ids)
unfolding rows_of
rows_of_complete s id tx [] e h = cc
rows_of_complete s id tx (j ∷ ids) e h =
    ground (arith, nat_beq_iff j id, rows_of_complete s id tx ids e)

length-rows_of : (s : Store) (ids : List ℕ) → length (rows_of s ids) ≤ length ids
unfolding rows_of
length-rows_of s [] = omega arith
length-rows_of s (id ∷ ids) = ground (arith, length-rows_of s ids)

length-take-le : (n : ℕ) (xs : List ℕ) → length (take n xs) ≤ n
length-take-le zero xs = omega arith
length-take-le (suc n) [] = omega arith
length-take-le (suc n) (x ∷ xs) = omega (arith, length-take-le n xs)

All-Elem :
    {A : Type 0} (p : A → Bool) (xs : List A) (x : A)
    → All (λ y. p y ≡ true) xs
    → Elem x xs
    → p x ≡ true
All-Elem p [] x h e = elim e [ ]
All-Elem p (y ∷ ys) x h (inl e) = ground (arith, ap p e)
All-Elem p (y ∷ ys) x h (inr e) = All-Elem p ys x h.1 e

rows-running :
    (s : Store)
    → IsIndexed s
    → All (λ tx. is_running tx.status ≡ true) (find_running_transactions s)
unfolding find_running_transactions
rows-running s v =
    rows_of-All s (λ tx. is_running tx.status) s.running_ids
      (All-contained (λ id. runs (Dict.get s.hashes id)) s.running_ids s.running_ids v.running_exact
        (λ x h. h))

-- On a consistent store, the running transactions are reported exactly: every row is running, and a
-- stored transaction is among the rows if and only if it is running.
pub find_running_transactions_exact :
    (s : Store) (id : ℕ) (tx : Transaction)
    → IsIndexed s
    → find_by_id id s ≡ some tx
    → All (λ (row : Transaction). is_running row.status ≡ true) (find_running_transactions s)
      × ((Elem tx (find_running_transactions s)) ↔ (is_running tx.status ≡ true))
unfolding find_running_transactions find_by_id
find_running_transactions_exact s id tx v e = (
  rows-running s v,
  (
    λ m.
        All-Elem (λ (row : Transaction). is_running row.status) (find_running_transactions s) tx
          (rows-running s v) m,
    λ r. rows_of_complete s id tx s.running_ids e (ground (arith, v.running_exact id)),
  ),
)

-- On a consistent store, a page of a tenant's transactions has at most `limit` rows, and each of
-- them is of that tenant.
pub find_by_tenant_page :
    (s : Store) (tenant limit offset : ℕ)
    → IsIndexed s
    → All (λ tx. (tx.tenant_id == tenant) ≡ true) (find_by_tenant tenant limit offset s)
      × (length (find_by_tenant tenant limit offset s) ≤ limit)
unfolding find_by_tenant
find_by_tenant_page s tenant limit offset v = (
  rows_of-All s (λ tx. tx.tenant_id == tenant) (take limit (drop offset (tenant_members s tenant)))
      (All-take _ limit (drop offset (tenant_members s tenant)) (
        All-drop _ offset (tenant_members s tenant) (
          All-contained (λ id. belongs tenant (Dict.get s.hashes id)) (tenant_members s tenant)
            (tenant_members s tenant) (v.tenant_exact tenant) (λ x h. h)))),
  omega (
    arith,
    length-rows_of s (take limit (drop offset (tenant_members s tenant))),
    length-take-le limit (drop offset (tenant_members s tenant)),
  ),
)
