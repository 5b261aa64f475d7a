-- ===== src/Jobs/Worker/Rounds.antt =====
-- How the worker's loop ends.
use kuzu_event_bus.Prelude.{◌≡◌, refl, ap, sym, ◌∙◌, none, some, List, [], ◌∷◌, ◌++◌, All, arith}
use kuzu_event_bus.Jobs.Queue.{Message, dequeue_transaction}
use kuzu_event_bus.Jobs.World.{World, set_status}
use kuzu_event_bus.Jobs.Worker.{
  Env, Exc, dequeue_raises, find_raises, Result, after_round, ok, err, unbound_local,
  unbound_database_id, status_of, message_of, run_once, run_forever,
}

run_once_up : (env : Env) (w : World) → env.read_fault ≡ none → (run_once env w).0 ≡ ok tt
unfolding run_once
run_once_up env w up = ground arith

run_once_down :
    (env : Env) (w : World)
    → env.read_fault ≡ some dequeue_raises
    → run_once env w ≡ (err unbound_local, w)
unfolding run_once
run_once_down env w down = ground arith

run_once_unread :
    (env : Env) (w : World) (e : Exc) (m : Message)
    → env.read_fault ≡ some (find_raises e)
    → (dequeue_transaction w.queue).0 ≡ some m
    → run_once env w ≡ (
      err unbound_database_id,
      set_status env.settled m.transaction_id
          (status_of e)
          0
          (message_of e)
          (record w { queue = (dequeue_transaction w.queue).1 }),
    )
unfolding run_once
run_once_unread env w e m down got = rw (down, got)

after_round_ok :
    (p : Result (Unit {0}) × World) (next : World → Result (Unit {0}) × World)
    → p.0 ≡ ok tt
    → after_round p next ≡ next p.1
after_round_ok (ok _, w) next h = refl
after_round_ok (err e, w) next h = cc

-- A round in which reading the transaction of the message that it took raises ends the loop, with the
-- message not acknowledged: the queue is left as the dequeue left it.
pub run_forever_dies_reading :
    (before later : List Env) (env : Env) (w : World) (e : Exc) (m : Message)
    → All (λ (e : Env). e.read_fault ≡ none) before
    → env.read_fault ≡ some (find_raises e)
    → (dequeue_transaction (run_forever before w).1.queue).0 ≡ some m
    → ((run_forever (before ++ env ∷ later) w).0 ≡ err unbound_database_id)
      × ((run_forever (before ++ env ∷ later) w).1.queue
          ≡ (dequeue_transaction (run_forever before w).1.queue).1)
unfolding run_forever
run_forever_dies_reading [] later env w e m h down got =
    rw (run_once_unread env w e m down got) (refl, refl)
run_forever_dies_reading (d ∷ before) later env w e m h down got =
    let here = after_round_ok (run_once d w) (run_forever before) (run_once_up d w h.0) in
    rw (after_round_ok (run_once d w) (run_forever (before ++ env ∷ later)) (run_once_up d w h.0)) (
      rw here (
        run_forever_dies_reading before later env (run_once d w).1 e m h.1 down (
          ap (λ (p : Result (Unit {0}) × World). (dequeue_transaction p.1.queue).0) (sym here)
          ∙ got)))

-- The first dequeue that raises ends the loop with an error of its own: the rounds that were to
-- follow are not run.
pub run_forever_dies :
    (before later : List Env) (env : Env) (w : World)
    → All (λ (e : Env). e.read_fault ≡ none) before
    → env.read_fault ≡ some dequeue_raises
    → run_forever (before ++ env ∷ later) w ≡ (err unbound_local, (run_forever before w).1)
unfolding run_forever
run_forever_dies [] later env w h down = rw (run_once_down env w down)
run_forever_dies (e ∷ before) later env w h down =
    rw
      (
        after_round_ok (run_once e w) (run_forever (before ++ env ∷ later)) (run_once_up e w h.0),
        after_round_ok (run_once e w) (run_forever before) (run_once_up e w h.0),
      )
      (run_forever_dies before later env (run_once e w).1 h.1 down)
