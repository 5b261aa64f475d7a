-- ===== src/Catalog/Counting.antt =====
-- Usage counts, and the most used queries.
use kuzu_event_bus.Prelude.{
  ℕ, zero, suc, ◌+◌, ◌≡◌, refl, ap, ◌∙◌, Bool, true, false, List, [], ◌∷◌, length, keep, take, All,
  All-take, arith, nat_key, Bool-cases, inl, inr, if◌then◌else◌,
}
use kuzu_event_bus.Text.{Text}
use kuzu_event_bus.Catalog.{
  Key, Usage, Catalog, same_query, upsert, increment_usage, precedes, insert_usage, sort_usage,
  is_listed, list_most_used,
}

-- The count of a query, 0 if it has no row.
abbrev pub count_of : Key → List Usage → ℕ
count_of k [] = 0
count_of k (u ∷ us) = let rest = count_of k us in if same_query k u.key then u.usage_count else rest

count_of-upsert :
    (k j : Key) (query_text : Text) (used_at : ℕ) (us : List Usage)
    → count_of j (upsert k query_text used_at us)
      ≡ (if same_query k j then count_of j us + 1 else count_of j us)
unfolding upsert
count_of-upsert k j query_text used_at [] = ground arith
count_of-upsert k j query_text used_at (u ∷ us) =
    ground (arith, count_of-upsert k j query_text used_at us)

-- Recording a use adds one to the count of that query, a first use included, and leaves the count of
-- every other query of whatever tenant and database as it was.
pub increment_usage_counts :
    (k j : Key) (query_text : Text) (used_at : ℕ) (c : Catalog)
    → count_of j (increment_usage k query_text used_at c).query_usage
      ≡ (if same_query k j then count_of j c.query_usage + 1 else count_of j c.query_usage)
unfolding increment_usage
increment_usage_counts k j query_text used_at c =
    count_of-upsert k j query_text used_at c.query_usage

-- No row precedes one that stands before it.
abbrev pub IsRanked : List Usage → Type 0
IsRanked [] = Unit
IsRanked (u ∷ us) = All (λ (v : Usage). precedes v u ≡ false) us × IsRanked us

precedes_trans :
    (x v u : Usage) → precedes x v ≡ false → precedes v u ≡ false → precedes x u ≡ false
precedes_trans x v u h k = ground arith

All-later :
    (u v : Usage) (vs : List Usage)
    → precedes v u ≡ false
    → All (λ (x : Usage). precedes x v ≡ false) vs
    → All (λ (x : Usage). precedes x u ≡ false) vs
All-later u v [] h k = tt
All-later u v (x ∷ vs) h k = (precedes_trans x v u k.0 h, All-later u v vs h k.1)

All-insert_usage :
    (P : Usage → Type 0) (u : Usage) (vs : List Usage) → P u → All P vs → All P (insert_usage u vs)
All-insert_usage P u [] h k = (h, tt)
All-insert_usage P u (v ∷ vs) h k = elim (Bool-cases (precedes v u)) [
  | inl e ↦ simp e (k.0, All-insert_usage P u vs h k.1)
  | inr e ↦ simp e (h, k)
]

insert_usage-IsRanked : (u : Usage) (vs : List Usage) → IsRanked vs → IsRanked (insert_usage u vs)
insert_usage-IsRanked u [] h = (tt, tt)
insert_usage-IsRanked u (v ∷ vs) h = elim (Bool-cases (precedes v u)) [
  | inl e ↦ simp e (
    All-insert_usage (λ (x : Usage). precedes x v ≡ false) u vs (ground arith) h.0,
    insert_usage-IsRanked u vs h.1,
  )
  | inr e ↦ simp e ((refl, All-later u v vs e h.0), h)
]

sort_usage-IsRanked : (us : List Usage) → IsRanked (sort_usage us)
unfolding sort_usage
sort_usage-IsRanked [] = tt
sort_usage-IsRanked (u ∷ us) = insert_usage-IsRanked u (sort_usage us) (sort_usage-IsRanked us)

All-sort_usage : (P : Usage → Type 0) (us : List Usage) → All P us → All P (sort_usage us)
unfolding sort_usage
All-sort_usage P [] h = tt
All-sort_usage P (u ∷ us) h = All-insert_usage P u (sort_usage us) h.0 (All-sort_usage P us h.1)

All-keep : (p : Usage → Bool) (us : List Usage) → All (λ u. p u ≡ true) (keep p us)
All-keep p [] = tt
All-keep p (u ∷ us) = ground (arith, All-keep p us)

take-IsRanked : (n : ℕ) (us : List Usage) → IsRanked us → IsRanked (take n us)
take-IsRanked zero us h = tt
take-IsRanked (suc n) [] h = tt
take-IsRanked (suc n) (u ∷ us) h =
    (All-take (λ (v : Usage). precedes v u ≡ false) n us h.0, take-IsRanked n us h.1)

length-insert_usage : (u : Usage) (vs : List Usage) → length (insert_usage u vs) ≡ suc (length vs)
length-insert_usage u [] = refl
length-insert_usage u (v ∷ vs) = ground (arith, length-insert_usage u vs)

length-sort_usage : (us : List Usage) → length (sort_usage us) ≡ length us
unfolding sort_usage
length-sort_usage [] = refl
length-sort_usage (u ∷ us) = length-insert_usage u (sort_usage us) ∙ ap suc (length-sort_usage us)

length-take-same :
    (n : ℕ) (us vs : List Usage) → length us ≡ length vs → length (take n us) ≡ length (take n vs)
length-take-same zero us vs h = refl
length-take-same (suc n) [] [] h = refl
length-take-same (suc n) [] (v ∷ vs) h = omega (arith, h)
length-take-same (suc n) (u ∷ us) [] h = omega (arith, h)
length-take-same (suc n) (u ∷ us) (v ∷ vs) h = ap suc (length-take-same n us vs (omega (arith, h)))

-- The most used queries are rows of that database that are no favorites, the more used first and
-- then the more recent; there are as many as the limit, or as there are such rows if these are fewer.
pub list_most_used-IsRanked :
    (tenant database limit : ℕ) (c : Catalog)
    → let rows = list_most_used tenant database limit c in
      All (λ (u : Usage). is_listed tenant database c.query_favorites u ≡ true) rows
      × IsRanked rows
      × (length rows
          ≡ length (take limit (keep (is_listed tenant database c.query_favorites) c.query_usage)))
unfolding list_most_used
list_most_used-IsRanked tenant database limit c =
    let listed = is_listed tenant database c.query_favorites in
    let found = keep listed c.query_usage in
    (
      All-take (λ (u : Usage). listed u ≡ true) limit (sort_usage found)
          (All-sort_usage (λ (u : Usage). listed u ≡ true) found (All-keep listed c.query_usage)),
      take-IsRanked limit (sort_usage found) (sort_usage-IsRanked found),
      length-take-same limit (sort_usage found) found (length-sort_usage found),
    )
