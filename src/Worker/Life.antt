-- ===== src/Worker/Life.antt =====
-- src/ws_session.hpp and src/worker.cpp: the life of a session with respect to the worker, and the
-- end of the worker.
use occase.Base.{
  ℕ, Bool, true, List, [], ◌∷◌, ◌++◌, Option, none, some, inc, dec, Str, maybe, if◌then◌else◌,
}
use occase.Platform.{Platform}
use occase.Exec.{Exec, modify, ◌>>=◌}
use occase.Assoc.{lookup, erase}
use occase.Acceptor
use occase.Config.{Core}
use occase.Session.{Session, is_logged_in, take_from, undelivered, handle_ev, shutdown}
use occase.Worker.State.{
  World, unsubscribe, quit, send_redis, with_acceptor, with_session, store_chat_msg,
}
use occase.Worker.App.{on_app}

-- What the signal handler is given.
pub data SignalCode : Type 0 where
  success operation_aborted other : SignalCode

module _ (P : Platform) (cfg : Core) where
  -- The user has an entry: take it out, and give the messages back.
  unfoldable pub remove_session : Str → List Str → World P → World P
  remove_session user_id msgs w = store_chat_msg cfg msgs user_id (
      send_redis
        (unsubscribe (cfg.redis.user_notify_prefix ++ user_id)
          ∷ unsubscribe (cfg.redis.presence_channel_prefix ++ user_id)
          ∷ [])
        (record w { sessions = erase user_id w.sessions }))

  unfoldable pub on_session_dtor : Str → List Str → World P → World P
  on_session_dtor user_id msgs w =
      maybe (lookup user_id w.sessions) w (λ p. remove_session user_id msgs w)

  -- ws_session_impl::finish: the messages to be kept are moved out of the queue, and given back.
  unfoldable pub finish : ℕ → World P → World P
  finish p w =
      let left : World P = record w { number_of_sessions = dec w.number_of_sessions } in
      let s : Session = left.heap p in
      if is_logged_in s
      then on_session_dtor s.pub_hash (undelivered s.msg_queue)
          (with_session p (take_from P.moved_from) left)
      else left

  -- ws_session_impl::on_run
  unfoldable pub on_run : Bool → World P → World P
  on_run failed w = if failed then w else record w { number_of_sessions = inc w.number_of_sessions }

  -- ws_session_impl::on_read: `none` is an error, which ends the session. The next read is asked for
  -- at the end.
  unfoldable pub on_read : ℕ → Option Str → Exec (World P) (Unit {0})
  on_read p none = modify (finish p)
  on_read p (some msg) = do r ← on_app P cfg p msg; modify (with_session p (handle_ev r))

  unfoldable pub shutdown_each : List (Str × ℕ) → World P → World P
  shutdown_each [] w = w
  shutdown_each ((user_id, p) ∷ sessions) w =
      shutdown_each sessions (if w.alive p then with_session p shutdown w else w)

  unfoldable pub shutdown_impl : World P → World P
  shutdown_impl w =
      let closing : World P = with_acceptor Acceptor.shutdown w in
      send_redis (quit ∷ []) (shutdown_each closing.sessions closing)

  -- The signal set is cancelled, whose handler then runs with operation_aborted.
  unfoldable pub shutdown_worker : World P → World P
  shutdown_worker w = record (shutdown_impl w) { signals_cancelled = true }

  unfoldable pub on_signal : SignalCode → World P → World P
  on_signal operation_aborted w = w
  on_signal other w = w
  on_signal success w = shutdown_impl w
