-- ===== src/Worker/Counting.antt =====
-- src/worker.cpp and src/ws_session.hpp: ws_stats_.number_of_sessions over the events of a worker.
pub mod Open
use occase.Base.{
  ℕ, suc, ◌≡◌, refl, sym, ap, ◌∙◌, inl, inr, Bool, true, false, List, [], ◌∷◌, ◌++◌, Option, none,
  some, Str, ℤ, pos, inc, dec, dec-inc, arith, str_eq, codes, if◌then◌else◌, Bool-cases, is_empty,
  maybe, length,
}
use occase.Platform.{Platform, string_at}
use occase.Exec.{
  Exec, Result, ok, thrown, aborted, pure, modify, or_throw, continue, caught, ended, ◌>>=◌,
}
use occase.Assoc.{lookup}
use occase.Acceptor
use occase.Acceptor.{on_accept}
use occase.Config.{Core}
use occase.Crypto.{make_hex_digest}
use occase.Session.{
  Session, EvRes, unknown, is_logged_in, handle_ev, on_write, on_pong, shutdown, undelivered,
}
use occase.Worker.State.{World, with_session, with_acceptor, send_redis, store_chat_msg}
use occase.Worker.Api.{get_upload_credit}
use occase.Worker.App.{
  log_in, finish_login, refuse_login, on_app_login, dispatch, on_app, register, retire,
  assign_session,
}
use occase.Worker.Life.{
  on_session_dtor, remove_session, finish, on_read, on_run, shutdown_each, shutdown_impl, on_signal,
  SignalCode, success, operation_aborted, other,
}
use occase.Worker.Quiet.{
  Quiet, Quiet-with_session, Quiet-with_acceptor, Quiet-catching, Quiet-store_chat_msg,
}
use occase.Worker.QuietOps
use occase.Worker.Sessions.{logged_in_state}
use occase.Worker.Run.{Quiet-publish_body, Quiet-discard}
use occase.Worker.Events.{
  Event, hello, push, hvals, hgetall, accepted, lrange, read, started, written, pong, expired,
  api_delete, api_publish, api_visualization, api_user_id, api_credit, signal, time, step, run,
  init, expire_session, take_credit, set_clock,
}

module _ {P : Platform} where
  abbrev count : World P → ℤ
  count w = w.number_of_sessions

  throw-count :
      {A B : Type 0} (o : Option A) (f : A → Exec (World P) B) (w : World P)
      → ((a : A) → count (f a w).1 ≡ count w)
      → count ((or_throw o >>= f) w).1 ≡ count w
  throw-count none f w h = refl
  throw-count (some a) f w h = h a

  if-count :
      {A : Type 0} (b : Bool) (m n : Exec (World P) A) (w : World P)
      → count (m w).1 ≡ count w
      → count (n w).1 ≡ count w
      → count ((if b then m else n) w).1 ≡ count w
  if-count true m n w h k = h
  if-count false m n w h k = k

  caught-count :
      {A : Type 0} (r : Result A × World P) (a : A) → count (caught r.0 r.1 a).1 ≡ count r.1
  caught-count (ok b, v) a = refl
  caught-count (thrown, v) a = refl
  caught-count (aborted, v) a = refl

  ended-count : {A : Type 0} (r : Result A × World P) → count (ended r.0 r.1).1 ≡ count r.1
  ended-count (ok b, v) = refl
  ended-count (thrown, v) = refl
  ended-count (aborted, v) = refl

  continue-count :
      {A B : Type 0} (r : Result A × World P) (f : A → Exec (World P) B)
      → ((a : A) (v : World P) → count (f a v).1 ≡ count v)
      → count (continue r.0 r.1 f).1 ≡ count r.1
  continue-count (ok a, v) f h = h a v
  continue-count (thrown, v) f h = refl
  continue-count (aborted, v) f h = refl

  Quiet-count :
      {A : Type 0} {m : Exec (World P) A} → Quiet m → (w : World P) → count (m w).1 ≡ count w
  Quiet-count q w = (q.at w).count

  retire-count : (old : ℕ) (w : World P) → count (retire old w) ≡ count w
  unfolding retire with_session
  retire-count old w = ground arith

  register-count : (user : Str) (s : ℕ) (w : World P) → count (register user s w) ≡ count w
  unfolding register assign_session
  register-count user s w = at (lookup user w.sessions)
    where
      at :
          (o : Option ℕ)
          → count (maybe o (assign_session user s w) (λ old. assign_session user s (retire old w)))
            ≡ count w
      at none = refl
      at (some old) = retire-count old w

  logged_in_state-count :
      (user : Str) (s : ℕ) (w : World P) → count (logged_in_state user s w) ≡ count w
  unfolding logged_in_state with_session
  logged_in_state-count user s w = register-count user s _

-- What an event adds to the number of sessions: an accepted handshake opens a session, and an error of
-- a read ends one.
unfoldable pub tally : Event → ℤ → ℤ
tally (started p false) n = inc n
tally (read p none) n = dec n
tally _ n = n

pub tally_each : List Event → ℤ → ℤ
tally_each [] n = n
tally_each (e ∷ es) n = tally_each es (tally e n)

module _ {P : Platform} (cfg : Core) where
  log_in-count :
      (w : World P) (user : Str) (j : P.Json) (s : ℕ) → count (log_in P cfg user j s w).1 ≡ count w
  unfolding log_in logged_in_state
  log_in-count w user j s =
      Quiet-count (QuietOps.Quiet-finish_login cfg user j s) (logged_in_state user s w)
      ∙ logged_in_state-count user s w

  on_app_login-count :
      (w : World P) (j : P.Json) (s : ℕ) → count (on_app_login P cfg j s w).1 ≡ count w
  unfolding on_app_login
  on_app_login-count w j s = throw-count (string_at P j (codes "user")) _ w (λ user.
      throw-count (string_at P j (codes "key")) _ w (λ key.
        let digest = make_hex_digest P user key in
        if-count (is_empty digest) (refuse_login P cfg s) (log_in P cfg digest j s) w
          (Quiet-count (QuietOps.Quiet-refuse_login cfg s) w) (log_in-count w digest j s)))

  dispatch-count :
      (w : World P) (b : Bool) (cmd : Str) (j : P.Json) (s : ℕ)
      → count (dispatch P cfg b cmd j s w).1 ≡ count w
  unfolding dispatch
  dispatch-count w true cmd j s = Quiet-count (QuietOps.Quiet-dispatch cfg cmd j s) w
  dispatch-count w false cmd j s =
      if-count (str_eq cmd (codes "login")) (on_app_login P cfg j s) (pure unknown) w
        (on_app_login-count w j s) refl

  on_app-count : (w : World P) (s : ℕ) (msg : Str) → count (on_app P cfg s msg w).1 ≡ count w
  unfolding on_app
  on_app-count w s msg =
      ended-count _
      ∙ caught-count _ unknown
      ∙ throw-count (P.parse msg) _ w (λ j.
        throw-count (string_at P j (codes "cmd")) _ w
          (λ cmd. dispatch-count w (is_logged_in (w.heap s)) cmd j s))

  store-count :
      (msgs : List Str) (to : Str) (w : World P) → count (store_chat_msg cfg msgs to w) ≡ count w
  store-count msgs to w = Quiet-count (Quiet-store_chat_msg cfg msgs to) w

  dtor-count :
      (user : Str) (msgs : List Str) (w : World P)
      → count (on_session_dtor P cfg user msgs w) ≡ count w
  unfolding on_session_dtor remove_session send_redis
  dtor-count user msgs w = at (lookup user w.sessions)
    where
      at : (o : Option ℕ) → count (maybe o w (λ p. remove_session P cfg user msgs w)) ≡ count w
      at none = refl
      at (some p) = store-count msgs user _

  finish-count : (w : World P) (p : ℕ) → count (finish P cfg p w) ≡ dec (count w)
  unfolding finish with_session
  finish-count w p = elim (Bool-cases (is_logged_in (w.heap p))) [
    | inl e ↦ rw e (dtor-count (w.heap p).pub_hash (undelivered (w.heap p).msg_queue) _)
    | inr e ↦ rw e refl
  ]

  on_read-count :
      (w : World P) (p : ℕ) (msg : Str) → count (on_read P cfg p (some msg) w).1 ≡ count w
  unfolding on_read with_session
  on_read-count w p msg =
      continue-count (on_app P cfg p msg w) (λ r. modify (with_session p (handle_ev r)))
        (λ r v. refl)
      ∙ on_app-count w p msg

  shutdown_each-count :
      (l : List (Str × ℕ)) (w : World P) → count (shutdown_each P cfg l w) ≡ count w
  unfolding shutdown_each with_session
  shutdown_each-count [] w = refl
  shutdown_each-count ((user, p) ∷ l) w = shutdown_each-count l _ ∙ at (w.alive p)
    where
      at : (b : Bool) → count (if b then with_session p shutdown w else w) ≡ count w
      at true = refl
      at false = refl

  on_signal-count : (w : World P) (code : SignalCode) → count (on_signal P cfg code w) ≡ count w
  unfolding on_signal shutdown_impl send_redis with_acceptor
  on_signal-count w success = shutdown_each-count w.sessions (with_acceptor Acceptor.shutdown w)
  on_signal-count w operation_aborted = refl
  on_signal-count w other = refl

  step-count : (w : World P) (e : Event) → count (step P cfg e w).1 ≡ tally e (count w)
  unfolding step tally on_read
  step-count w hello = Quiet-count (QuietOps.Quiet-on_hello cfg) w
  step-count w (push v) = Quiet-count (QuietOps.Quiet-on_push cfg v) w
  step-count w (hvals v) = Quiet-count (QuietOps.Quiet-on_hvals cfg v) w
  step-count w (hgetall b v) = Quiet-count (QuietOps.Quiet-on_hgetall cfg b v) w
  step-count w (accepted a) = Quiet-count (Quiet-with_acceptor (on_accept a)) w
  step-count w (lrange v) = Quiet-count (QuietOps.Quiet-on_lrange cfg v) w
  step-count w (read p none) = finish-count w p
  step-count w (read p (some msg)) = on_read-count w p msg
  step-count w (started p true) = unfold on_run in refl
  step-count w (started p false) = unfold on_run in refl
  step-count w (written p failed) = unfold with_session in refl
  step-count w (pong p) = unfold with_session in refl
  step-count w (expired p) = unfold expire_session in refl
  step-count w (api_delete user key id) =
      Quiet-count (Quiet-catching tt _ (QuietOps.Quiet-delete_post cfg user key id)) w
  step-count w (api_publish body) =
      Quiet-count (Quiet-catching tt _ (Quiet-publish_body cfg body)) w
  step-count w (api_visualization msg) =
      Quiet-count (Quiet-catching tt _ (QuietOps.Quiet-on_visualization cfg msg)) w
  step-count w api_user_id =
      Quiet-count (Quiet-catching tt _ (Quiet-discard cfg _ (QuietOps.Quiet-on_get_user_id cfg))) w
  step-count w api_credit = unfold take_credit get_upload_credit in refl
  step-count w (signal code) = on_signal-count w code
  step-count w (time now) = unfold set_clock in refl
