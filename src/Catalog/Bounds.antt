-- ===== src/Catalog/Bounds.antt =====
-- The bounds on favorites, as an invariant of the repository.
use kuzu_event_bus.Prelude.{
  ℕ, ◌+◌, ◌≤◌, ◌≡◌, refl, Bool, true, not, List, [], ◌∷◌, ◌++◌, length, keep, arith, nat_key,
  if◌then◌else◌,
}
use kuzu_event_bus.Catalog.{
  Key, Favorite, Catalog, same_database, same_query, favorites_of, favorites_in, increment_usage,
  add_favorite, remove_favorite, Call, use_query, add, remove, call, run,
}

-- At most ten favorites in a database, and a query at most once.
pub record IsBounded (fs : List Favorite) : Type 0 where
  pub ten : (tenant database : ℕ) → length (favorites_in tenant database fs) ≤ 10
  pub once : (k : Key) → length (favorites_of k fs) ≤ 1

length-keep-append :
    (p : Favorite → Bool) (fs : List Favorite) (f : Favorite)
    → length (keep p (fs ++ f ∷ [])) ≡ length (keep p fs) + (if p f then 1 else 0)
length-keep-append p [] f = ground arith
length-keep-append p (g ∷ fs) f = ground (arith, length-keep-append p fs f)

length-keep-keep :
    (p q : Favorite → Bool) (fs : List Favorite) → length (keep p (keep q fs)) ≤ length (keep p fs)
length-keep-keep p q [] = omega arith
length-keep-keep p q (f ∷ fs) = ground (arith, length-keep-keep p q fs)

same_query-favorites :
    (j k : Key) (fs : List Favorite)
    → same_query j k ≡ true
    → length (favorites_of j fs) ≡ length (favorites_of k fs)
same_query-favorites j k [] h = refl
same_query-favorites j k (f ∷ fs) h = ground (arith, same_query-favorites j k fs h)

same_database-favorites :
    (tenant database : ℕ) (k : Key) (fs : List Favorite)
    → same_database tenant database k ≡ true
    → length (favorites_in tenant database fs) ≡ length (favorites_in k.tenant_id k.database_id fs)
same_database-favorites tenant database k [] h = refl
same_database-favorites tenant database k (f ∷ fs) h =
    ground (arith, same_database-favorites tenant database k fs h)

call-IsBounded :
    (x : Call) (c : Catalog) → IsBounded c.query_favorites → IsBounded (call x c).query_favorites
unfolding call increment_usage add_favorite remove_favorite
call-IsBounded (use_query k query_text now) c v = v
call-IsBounded (add k query_text now) c v = record {
  ten = λ tenant database. ground (
    arith,
    v.ten tenant database,
    length-keep-append (λ (f : Favorite). same_database tenant database f.key) c.query_favorites
        (record { key = k; query_text = query_text; created_at = now }),
    same_database-favorites tenant database k c.query_favorites,
  );
  once = λ j. ground (
    arith,
    v.once j,
    length-keep-append (λ (f : Favorite). same_query j f.key) c.query_favorites
        (record { key = k; query_text = query_text; created_at = now }),
    same_query-favorites j k c.query_favorites,
  );
}
call-IsBounded (remove k query_text now) c v = record {
  ten = λ tenant database. omega (
    arith,
    v.ten tenant database,
    length-keep-keep (λ (f : Favorite). same_database tenant database f.key)
        (λ (f : Favorite). not (same_query k f.key)) c.query_favorites,
  );
  once = λ j. omega (
    arith,
    v.once j,
    length-keep-keep (λ (f : Favorite). same_query j f.key)
        (λ (f : Favorite). not (same_query k f.key)) c.query_favorites,
  );
}

-- No run of calls brings a database over ten favorites, or saves a query twice, if that held before.
pub run-IsBounded :
    (xs : List Call) (c : Catalog)
    → IsBounded c.query_favorites
    → IsBounded (run xs c).query_favorites
unfolding run
run-IsBounded [] c v = v
run-IsBounded (x ∷ xs) c v = run-IsBounded xs (call x c) (call-IsBounded x c v)
