-- ===== src/Catalog.antt =====
-- PostgresQueryCatalogRepository (backend/src/infrastructure/database/query_catalog_repository.py):
-- the tables `query_usage` and `query_favorites` as lists of rows, and each method as what its SQL
-- statements do to them. Rows that an ORDER BY leaves tied keep the order of the table.
pub mod Bounds
pub mod Counting
mod Tests
use kuzu_event_bus.Prelude.{
  ℕ, ◌+◌, Bool, true, false, not, ◌&&◌, ◌||◌, Option, none, some, List, [], ◌∷◌, ◌++◌, length, keep,
  take, ltb, leb, ◌==◌, nat_key, if◌then◌else◌,
}
use kuzu_event_bus.Text.{Text}

-- The columns that name a query: tenant, database, hash.
pub record Key : Type 0 where
  pub tenant_id : ℕ
  pub database_id : ℕ
  pub query_hash : ℕ

pub record Usage : Type 0 where
  pub key : Key
  pub query_text : Text
  pub usage_count : ℕ
  pub last_used_at : ℕ

pub record Favorite : Type 0 where
  pub key : Key
  pub query_text : Text
  pub created_at : ℕ

pub record Catalog : Type 0 where
  pub query_usage : List Usage
  pub query_favorites : List Favorite

abbrev pub empty_catalog : Catalog
empty_catalog = record { query_usage = []; query_favorites = [] }

abbrev pub same_database : ℕ → ℕ → Key → Bool
same_database tenant database k = k.tenant_id == tenant && k.database_id == database

abbrev pub same_query : Key → Key → Bool
same_query j k = same_database j.tenant_id j.database_id k && k.query_hash == j.query_hash

-- INSERT … ON CONFLICT (tenant_id, database_id, query_hash) DO UPDATE
unfoldable pub upsert : Key → Text → ℕ → List Usage → List Usage
upsert k query_text used_at [] =
    record { key = k; query_text = query_text; usage_count = 1; last_used_at = used_at } ∷ []
upsert k query_text used_at (u ∷ us) =
    let rest = upsert k query_text used_at us in
    if same_query k u.key
    then record u {
      usage_count = u.usage_count + 1;
      query_text = query_text;
      last_used_at = used_at;
    }
      ∷ us
    else u ∷ rest

unfoldable pub increment_usage : Key → Text → ℕ → Catalog → Catalog
increment_usage k query_text used_at c = record c {
  query_usage = upsert k query_text used_at c.query_usage;
}

-- The rows of one query, and of one database.
abbrev pub favorites_of : Key → List Favorite → List Favorite
favorites_of k fs = keep (λ (f : Favorite). same_query k f.key) fs

abbrev pub favorites_in : ℕ → ℕ → List Favorite → List Favorite
favorites_in tenant database fs = keep (λ (f : Favorite). same_database tenant database f.key) fs

abbrev pub is_favorite : Key → List Favorite → Bool
is_favorite k fs = ltb 0 (length (favorites_of k fs))

-- Whether the call goes through, which it does not if the database has ten favorites already.
unfoldable pub add_favorite : Key → Text → ℕ → Catalog → Bool × Catalog
add_favorite k query_text now c =
    if is_favorite k c.query_favorites
    then (true, c)
    else if leb 10 (length (favorites_in k.tenant_id k.database_id c.query_favorites))
    then (false, c)
    else (
      true,
      record c {
        query_favorites =
            c.query_favorites ++ record { key = k; query_text = query_text; created_at = now } ∷ [];
      },
    )

unfoldable pub remove_favorite : Key → Catalog → Bool × Catalog
remove_favorite k c = (
  is_favorite k c.query_favorites,
  record c {
    query_favorites = keep (λ (f : Favorite). not (same_query k f.key)) c.query_favorites;
  },
)

-- ORDER BY usage_count DESC, last_used_at DESC
abbrev pub precedes : Usage → Usage → Bool
precedes u v =
    ltb v.usage_count u.usage_count
    || (u.usage_count == v.usage_count && ltb v.last_used_at u.last_used_at)

abbrev pub insert_usage : Usage → List Usage → List Usage
insert_usage u [] = u ∷ []
insert_usage u (v ∷ vs) =
    let rest = insert_usage u vs in if precedes v u then v ∷ rest else u ∷ v ∷ vs

unfoldable pub sort_usage : List Usage → List Usage
sort_usage [] = []
sort_usage (u ∷ us) = insert_usage u (sort_usage us)

-- The rows that the WHERE clause selects.
abbrev pub is_listed : ℕ → ℕ → List Favorite → Usage → Bool
is_listed tenant database fs u = same_database tenant database u.key && not (is_favorite u.key fs)

unfoldable pub list_most_used : ℕ → ℕ → ℕ → Catalog → List Usage
unfolding sort_usage
list_most_used tenant database limit c =
    take limit (sort_usage (keep (is_listed tenant database c.query_favorites) c.query_usage))

-- The methods that change the tables, as calls.
pub data Call : Type 0 where
  use_query add remove : Key → Text → ℕ → Call

unfoldable pub call : Call → Catalog → Catalog
unfolding increment_usage add_favorite remove_favorite
call (use_query k query_text now) c = increment_usage k query_text now c
call (add k query_text now) c = (add_favorite k query_text now c).1
call (remove k query_text now) c = (remove_favorite k c).1

unfoldable pub run : List Call → Catalog → Catalog
run [] c = c
run (x ∷ xs) c = run xs (call x c)
