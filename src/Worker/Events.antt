-- ===== src/Worker/Events.antt =====
-- src/worker.cpp and src/ws_session.hpp: the events of a worker, and their handlers.
use occase.Base.{ℕ, Bool, true, false, List, [], ◌∷◌, Option, Str, ℤ}
use occase.Platform.{Platform}
use occase.Exec.{Exec, pure, modify, or_throw, catching, ◌>>=◌, ◌>>◌}
use occase.Acceptor.{Binding, Accepted, on_accept, closed_acceptor}
use occase.Config.{Core}
use occase.Session.{on_write, on_pong, fresh}
use occase.Worker.State.{World, update, with_acceptor, with_session}
use occase.Worker.Api
use occase.Worker.Db
use occase.Worker.Life.{on_run, on_read, on_signal, SignalCode}

-- What may happen to a worker: the database's messages and replies, what a session at a pointer
-- reads and writes, a session that is destroyed, requests to the HTTP interface, and signals.
pub data Event : Type 0 where
  hello : Event
  push hvals lrange : List Str → Event
  hgetall : Binding → List Str → Event
  accepted : Accepted → Event
  read : ℕ → Option Str → Event
  started written : ℕ → Bool → Event
  pong expired : ℕ → Event
  api_delete : Str → Str → Str → Event
  api_publish : Str → Event
  api_visualization : Str → Event
  api_user_id api_credit : Event
  signal : SignalCode → Event
  time : ℤ → Event

module _ (P : Platform) (cfg : Core) where
  -- A body that is read as JSON and published, as the HTTP session does.
  unfoldable pub publish_body : Str → Exec (World P) (Unit {0})
  publish_body body = do j ← or_throw (P.parse body); ack ← Api.on_publish_impl P cfg j; pure tt

  unfoldable pub discard : {A : Type 0} → Exec (World P) A → Exec (World P) (Unit {0})
  discard m = do a ← m; pure tt

  -- The last shared pointer to the session is gone.
  unfoldable pub expire_session : ℕ → World P → World P
  expire_session p w = record w { alive = update w.alive p false }

  unfoldable pub take_credit : World P → World P
  take_credit w = (Api.get_upload_credit P cfg w).1

  unfoldable pub set_clock : ℤ → World P → World P
  set_clock now w = record w { clock = now }

  -- The sessions of the HTTP interface catch the exceptions of the api operations.
  unfoldable pub step : Event → Exec (World P) (Unit {0})
  step hello = modify (Db.on_hello P cfg)
  step (push v) = Db.on_push P cfg v
  step (hvals v) = Db.on_hvals P cfg v
  step (hgetall b v) = Db.on_hgetall P cfg b v
  step (accepted r) = modify (with_acceptor (on_accept r))
  step (lrange v) = Db.on_lrange P cfg v
  step (read p msg) = on_read P cfg p msg
  step (started p failed) = modify (on_run P cfg failed)
  step (written p failed) = modify (with_session p (on_write failed))
  step (pong p) = modify (with_session p on_pong)
  step (expired p) = modify (expire_session p)
  step (api_delete user key id) = catching tt (Api.delete_post P cfg user key id)
  step (api_publish body) = catching tt (publish_body body)
  step (api_visualization msg) = catching tt (Api.on_visualization P cfg msg)
  step api_user_id = catching tt (discard (Api.on_get_user_id P cfg))
  step api_credit = modify (take_credit)
  step (signal code) = modify (on_signal P cfg code)
  step (time now) = modify (set_clock now)

  -- A run ends early where the process does.
  unfoldable pub run : List Event → Exec (World P) (Unit {0})
  run [] = pure tt
  run (e ∷ es) = do step e; run es

  unfoldable pub init : ℤ → P.Gen → World P
  init now gen = record {
    clock = now;
    number_of_sessions = ℤ.pos 0;
    sessions = [];
    heap = λ p. fresh;
    alive = λ p. true;
    posts = record { posts = [] };
    redis = [];
    chat_queue = [];
    gen = gen;
    acceptor = closed_acceptor;
    signals_cancelled = false;
  }
