-- ===== src/Jobs/Worker/Log.antt =====
-- The write-ahead log (backend/src/infrastructure/workers/query_worker.py, `_is_mutating` and
-- `_append_wal_entry`).
use kuzu_event_bus.Prelude.{
  ℕ, ◌/◌, String, Bool, Option, none, some, List, [], ◌∷◌, ◌++◌, nat_key, string_key, if◌then◌else◌,
}
use kuzu_event_bus.Dict
use kuzu_event_bus.Text.{Text, text, strip, upper, starts_with_any}
use kuzu_event_bus.Jobs.Locks.{Resource, acquire_lock, release_lock}
use kuzu_event_bus.Jobs.World.{World, Row, WalEntry, WalKey, wal_hash_key, entries_of}
use kuzu_event_bus.Jobs.Worker.Checkout.{Env}

abbrev pub mutators : List Text
mutators =
    text "CREATE"
    ∷ text "MERGE"
    ∷ text "DELETE"
    ∷ text "SET "
    ∷ text "DROP"
    ∷ text "ALTER"
    ∷ text "INSERT"
    ∷ text "UPDATE"
    ∷ []

unfoldable pub is_mutating : Text → Bool
unfolding strip upper
is_mutating cypher = starts_with_any mutators (upper (strip cypher))

-- `_append_wal_entry`: the line goes behind what the object of its second held. A failed read
-- counts as an empty object, a failed upload is logged and dropped.
abbrev pub wal_lock : ℕ → Resource
wal_lock database = record { purpose = "wal_append"; id = database }

abbrev pub wal_key : ℕ → ℕ → ℕ → WalKey
wal_key ts tenant database = record {
  tenant_id = tenant;
  database_id = database;
  second = ts / 1000000;
}

abbrev pub write_wal : Env → WalKey → WalEntry → World → World
write_wal env key entry w =
    let prior = if env.wal_read_fails then [] else entries_of (Dict.get w.wal key) in
    if env.wal_upload_fails then w else record w { wal = Dict.put w.wal key (prior ++ entry ∷ []) }

abbrev pub append_locked : Env → ℕ → WalKey → WalEntry → Option ℕ → World → World
append_locked env database key entry none w = w
append_locked env database key entry (some token) w =
    let w' = write_wal env key entry w in
    record w' { locks = (release_lock env.logged (wal_lock database) token w'.locks).1 }

unfoldable pub append_wal_entry : Env → ℕ → ℕ → Text → Option String → List Row → World → World
append_wal_entry env tenant database cypher parameters results w =
    let entry : WalEntry = record {
      ts = env.logged;
      query = cypher;
      parameters = parameters;
      results = results;
    } in
    let (token, locks) =
      acquire_lock env.logged env.wal_token (wal_lock database) 10000000 w.locks in
    append_locked env database (wal_key env.logged tenant database) entry token
      (record w { locks = locks })
