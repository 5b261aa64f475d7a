-- ===== src/Jobs/Worker/Answers.antt =====
-- Exceptions, and the answers of an executor as the worker reads them
-- (backend/src/infrastructure/workers/query_worker.py, `run_once`).
use kuzu_event_bus.Prelude.{String, Option, none, some, List, [], nat_key, string_key}
use kuzu_event_bus.Jobs.World.{Row, wal_hash_key}

pub data Exc : Type 0 where
  asyncio_timeout : String → Exc
  timeout_error : String → Exc
  exception : String → Exc
  unbound_local unbound_database_id : Exc

-- str(exc)
abbrev pub message_of : Exc → String
message_of (asyncio_timeout m) = m
message_of (timeout_error m) = m
message_of (exception m) = m
message_of unbound_local = "local variable 'tx_id' referenced before assignment"
message_of unbound_database_id = "local variable 'database_id' referenced before assignment"

pub data Result (A : Type 0) : Type 0 where
  ok : A → Result A
  err : Exc → Result A

-- A value of the executor's answer: a list; a dict with some key, a list under `rows` or not; the
-- empty dict; a string; or a value without a length, with what `len` says of it. The answer is a
-- dict, with the values that it has under `results`, `rows` and `data`, or no dict. Keys are strings.
pub data Value : Type 0 where
  rows : List Row → Value
  object : Option (List Row) → Value
  empty_object : Value
  string : Value
  unsized : String → Value

pub data Answer : Type 0 where
  dict : Option Value → Option Value → Option Value → Answer
  not_dict : Answer

-- The rows of an answer: under `results`, under `results.rows`, under `rows`, or under `data`.
abbrev pub list_in : Option Value → Option (List Row)
list_in (some (rows rs)) = some rs
list_in _ = none

abbrev pub nested_list_in : Option Value → Option (List Row)
nested_list_in (some (object rs)) = rs
nested_list_in _ = none

abbrev pub or_else {ℓ} : {A : Type ℓ} → Option A → A → A
or_else none a = a
or_else (some a) b = a

unfoldable pub normalise_rows : Answer → List Row
normalise_rows (dict results top_rows data_list) =
    or_else (list_in results) (
      or_else (nested_list_in results)
        (or_else (list_in top_rows) (or_else (list_in data_list) [])))
normalise_rows not_dict = []

-- The statements that log an answer. `len(result['results'])` and `result['results'][0]` raise on
-- values that they do not fit: `KeyError(0)`, whose text is "0", on a dict that is not empty.
unfoldable pub inspect : Result Answer → Result Answer
inspect (ok (dict (some (object found)) top_rows data_list)) = err (exception "0")
inspect (ok (dict (some (unsized complaint)) top_rows data_list)) = err (exception complaint)
inspect r = r
