-- ===== src/Worker/Reads.antt =====
-- src/worker.cpp and src/ws_session.hpp: sessions_ against the sessions, where a session reads, logs in
-- or ends.
use occase.Base.{
  ℕ, ◌≡◌, ◌≢◌, refl, inl, inr, Bool, true, false, List, [], Option, none, some, Str, arith, str_eq,
  if◌then◌else◌, Bool-cases, is_empty, maybe, dec, codes, ℤ,
}
use occase.Platform.{Platform, string_at}
use occase.Exec.{
  Exec, Result, ok, thrown, aborted, pure, modify, or_throw, continue, caught, ended, ◌>>=◌,
}
use occase.Assoc.{lookup, erase, lookup-erase}
use occase.Config.{Core}
use occase.Crypto.{make_hex_digest}
use occase.Session.{MsgEntry, take_from, Session, EvRes, unknown, is_logged_in, handle_ev}
use occase.Worker.State.{World, send_redis, store_chat_msg}
use occase.Worker.App.{log_in, finish_login, refuse_login, on_app_login, dispatch, on_app}
use occase.Worker.Life.{on_session_dtor, remove_session, finish, on_read}
use occase.Worker.Quiet.{Quiet, Quiet-with_session, Quiet-send_redis, Quiet-store_chat_msg}
use occase.Worker.QuietOps
use occase.Worker.Sessions.{Routed, SameUsers-Routed, logged_in_state, register-Routed}

pub_hash-take_from :
    (moved_from : List MsgEntry → List MsgEntry) (s : Session)
    → (take_from moved_from s).pub_hash ≡ s.pub_hash
unfolding take_from
pub_hash-take_from moved_from s = refl

pub pub_hash-handle_ev : (r : EvRes) (s : Session) → (handle_ev r s).pub_hash ≡ s.pub_hash
unfolding handle_ev
pub_hash-handle_ev r s = ground arith

module _ {P : Platform} where
  throw-Routed :
      {A B : Type 0} (o : Option A) (f : A → Exec (World P) B) (w : World P)
      → Routed w
      → ((a : A) → Routed (f a w).1)
      → Routed ((or_throw o >>= f) w).1
  throw-Routed none f w r h = r
  throw-Routed (some a) f w r h = h a

  if-Routed :
      {A : Type 0} (b : Bool) (m n : Exec (World P) A) (w : World P)
      → Routed (m w).1
      → (b ≡ false → Routed (n w).1)
      → Routed ((if b then m else n) w).1
  if-Routed true m n w h k = h
  if-Routed false m n w h k = k refl

  pub caught-Routed :
      {A : Type 0} (r : Result A × World P) (a : A) → Routed r.1 → Routed (caught r.0 r.1 a).1
  caught-Routed (ok b, v) a h = h
  caught-Routed (thrown, v) a h = h
  caught-Routed (aborted, v) a h = h

  ended-Routed : {A : Type 0} (r : Result A × World P) → Routed r.1 → Routed (ended r.0 r.1).1
  ended-Routed (ok b, v) h = h
  ended-Routed (thrown, v) h = h
  ended-Routed (aborted, v) h = h

  pub quiet-Routed :
      {A : Type 0} (m : Exec (World P) A) (w : World P) → Quiet m → Routed w → Routed (m w).1
  quiet-Routed m w q r = SameUsers-Routed (q.at w) r

  pub continue-Routed :
      {A B : Type 0} (r : Result A × World P) (f : A → Exec (World P) B)
      → Routed r.1
      → ((a : A) (v : World P) → Routed v → Routed (f a v).1)
      → Routed (continue r.0 r.1 f).1
  continue-Routed (ok a, v) f h k = k a v h
  continue-Routed (thrown, v) f h k = h
  continue-Routed (aborted, v) f h k = h

module _ {P : Platform} (cfg : Core) where
  log_in-Routed :
      (w : World P) (user : Str) (j : P.Json) (s : ℕ)
      → Routed w
      → (w.heap s).pub_hash ≡ []
      → user ≢ []
      → Routed (log_in P cfg user j s w).1
  unfolding log_in logged_in_state
  log_in-Routed w user j s r h n =
      quiet-Routed (finish_login P cfg user j s) (logged_in_state user s w)
        (QuietOps.Quiet-finish_login cfg user j s) (register-Routed w user s r h n)

  on_app_login-Routed :
      (w : World P) (j : P.Json) (s : ℕ)
      → Routed w
      → (w.heap s).pub_hash ≡ []
      → Routed (on_app_login P cfg j s w).1
  unfolding on_app_login
  on_app_login-Routed w j s r h = throw-Routed (string_at P j (codes "user")) _ w r (λ user.
      throw-Routed (string_at P j (codes "key")) _ w r (λ key.
        let digest = make_hex_digest P user key in
        if-Routed (is_empty digest) (refuse_login P cfg s) (log_in P cfg digest j s) w
          (quiet-Routed _ w (QuietOps.Quiet-refuse_login cfg s) r)
          (λ e. log_in-Routed w digest j s r h (λ q. ground arith))))

  dispatch-Routed :
      (w : World P) (b : Bool) (cmd : Str) (j : P.Json) (s : ℕ)
      → is_logged_in (w.heap s) ≡ b
      → Routed w
      → Routed (dispatch P cfg b cmd j s w).1
  unfolding dispatch is_logged_in
  dispatch-Routed w true cmd j s e r = quiet-Routed _ w (QuietOps.Quiet-dispatch cfg cmd j s) r
  dispatch-Routed w false cmd j s e r =
      if-Routed (str_eq cmd (codes "login")) (on_app_login P cfg j s) (pure unknown) w
        (on_app_login-Routed w j s r (ground arith)) (λ _. r)

  on_app-Routed : (w : World P) (s : ℕ) (msg : Str) → Routed w → Routed (on_app P cfg s msg w).1
  unfolding on_app
  on_app-Routed w s msg r = ended-Routed _ (
      caught-Routed _ unknown (
        throw-Routed (P.parse msg) _ w r (λ j.
          throw-Routed (string_at P j (codes "cmd")) _ w r
            (λ cmd. dispatch-Routed w (is_logged_in (w.heap s)) cmd j s refl r))))

  erase-Routed :
      (w : World P) (user : Str) → Routed w → Routed (record w { sessions = erase user w.sessions })
  erase-Routed w user r = record {
    entry = λ k p e. r.entry k p (ground (arith, lookup-erase user k w.sessions));
  }

  remove_session-Routed :
      (w : World P) (user : Str) (msgs : List Str)
      → Routed w
      → Routed (remove_session P cfg user msgs w)
  unfolding remove_session
  remove_session-Routed w user msgs r =
      let v : World P = record w { sessions = erase user w.sessions } in
      quiet-Routed (modify (store_chat_msg cfg msgs user)) (send_redis _ v)
        (Quiet-store_chat_msg cfg msgs user)
        (quiet-Routed (modify (send_redis _)) v (Quiet-send_redis _) (erase-Routed w user r))

  on_session_dtor-Routed :
      (w : World P) (user : Str) (msgs : List Str)
      → Routed w
      → Routed (on_session_dtor P cfg user msgs w)
  unfolding on_session_dtor
  on_session_dtor-Routed w user msgs r =
      if-maybe (lookup user w.sessions) w (remove_session P cfg user msgs w) r
        (remove_session-Routed w user msgs r)
    where
      if-maybe : (o : Option ℕ) (u v : World P) → Routed u → Routed v → Routed (maybe o u (λ p. v))
      if-maybe none u v h k = h
      if-maybe (some p) u v h k = k

  count-Routed : (w : World P) (n : ℤ) → Routed w → Routed (record w { number_of_sessions = n })
  count-Routed w n r = record { entry = r.entry }

  finish-Routed : (w : World P) (p : ℕ) → Routed w → Routed (finish P cfg p w)
  unfolding finish
  finish-Routed w p r = elim (Bool-cases (is_logged_in (w.heap p))) [
    | inl e ↦ rw e (
        on_session_dtor-Routed _ (w.heap p).pub_hash _ (
          quiet-Routed _ _
            (Quiet-with_session p (take_from P.moved_from) (pub_hash-take_from P.moved_from))
            (count-Routed w (dec w.number_of_sessions) r)))
    | inr e ↦ rw e (count-Routed w (dec w.number_of_sessions) r)
  ]

  pub on_read-Routed :
      (w : World P) (p : ℕ) (msg : Option Str) → Routed w → Routed (on_read P cfg p msg w).1
  unfolding on_read
  on_read-Routed w p none r = finish-Routed w p r
  on_read-Routed w p (some msg) r =
      continue-Routed (on_app P cfg p msg w) _ (on_app-Routed w p msg r) (λ res v h.
        quiet-Routed _ v (Quiet-with_session p (handle_ev res) (pub_hash-handle_ev res)) h)
