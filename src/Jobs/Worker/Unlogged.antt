-- ===== src/Jobs/Worker/Unlogged.antt =====
-- Queries that change data but do not begin with one of the words that `_is_mutating` looks for
-- (backend/src/infrastructure/workers/query_worker.py).
use kuzu_event_bus.Prelude.{◌≡◌, ◌∙◌, refl, ap, false, some, [], ◌∷◌, ◌++◌, inl, none}
use kuzu_event_bus.Text.{
  Text, text, strip, upper, rstrip, lstrip, is_space, before, upper_code, starts_with_any,
}
use kuzu_event_bus.Jobs.Queue.{Message, dequeue_transaction}
use kuzu_event_bus.Jobs.Transactions.{Transaction}
use kuzu_event_bus.Jobs.World.{World}
use kuzu_event_bus.Jobs.Worker.{Env, run_once, is_mutating, mutators}
use kuzu_event_bus.Jobs.Worker.Wal.{run_once_logs_nothing}
use kuzu_event_bus.Jobs.Worker.Settled.{job}

abbrev pub match_word : Text
match_word = text "MATCH"

upper-match : (s : Text) → starts_with_any mutators (upper (77 ∷ 65 ∷ s)) ≡ false
unfolding upper upper_code
upper-match s = refl

strip-match :
    (s r : Text) → rstrip s ≡ r → starts_with_any mutators (upper (before 77 (before 65 r))) ≡ false
unfolding is_space
strip-match s [] e = upper-match []
strip-match s (c ∷ r) e = upper-match (c ∷ r)

pub match_reads : (s : Text) → is_mutating (match_word ++ s) ≡ false
unfolding is_mutating strip lstrip rstrip is_space
match_reads s = strip-match (84 ∷ 67 ∷ 72 ∷ s) (rstrip (84 ∷ 67 ∷ 72 ∷ s)) refl

-- A round on a job whose query begins with MATCH leaves the log as it was, whatever the query goes on
-- to change.
pub match_queries_unlogged :
    (env : Env) (w : World) (m : Message) (tx : Transaction) (s : Text)
    → env.read_fault ≡ none
    → (dequeue_transaction w.queue).0 ≡ some m
    → job m.transaction_id w ≡ some tx
    → tx.query ≡ match_word ++ s
    → (run_once env w).1.wal ≡ w.wal
match_queries_unlogged env w m tx s up got known q =
    run_once_logs_nothing env w m tx up got known (inl (ap is_mutating q ∙ match_reads s))
