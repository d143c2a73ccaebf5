-- ===== src/Worker/Run.antt =====
-- src/worker.cpp and src/ws_session.hpp: the events of a worker in any order.
use occase.Base.{ℕ, ◌≡◌, Bool, true, false, List, [], ◌∷◌, Str, arith, ℤ, if◌then◌else◌}
use occase.Platform.{Platform}
use occase.Exec.{Exec}
use occase.Assoc.{lookup}
use occase.Acceptor
use occase.Acceptor.{on_accept}
use occase.Config.{Core}
use occase.Session.{Session, on_write, on_pong, do_write, shutdown}
use occase.Worker.State.{World, with_acceptor, with_session}
use occase.Worker.Api.{get_upload_credit}
use occase.Worker.Life.{
  shutdown_each, shutdown_impl, on_signal, on_run, SignalCode, success, operation_aborted, other,
}
use occase.Worker.Quiet.{
  Quiet, Quiet-with_session, Quiet-catching, Quiet-bind, Quiet-pure, Quiet-send_redis,
  Quiet-with_acceptor, quiet_rules,
}
use occase.Worker.QuietOps
use occase.Worker.Sessions.{Routed}
use occase.Worker.Reads.{quiet-Routed, continue-Routed, on_read-Routed}
use occase.Worker.Events.{
  Event, hello, push, hvals, hgetall, accepted, lrange, read, started, written, pong, expired,
  api_delete, api_publish, api_visualization, api_user_id, api_credit, signal, time, step, run,
  init, expire_session, take_credit, set_clock, publish_body, discard,
}

pub pub_hash-on_write : (failed : Bool) (s : Session) → (on_write failed s).pub_hash ≡ s.pub_hash
unfolding on_write do_write
pub_hash-on_write failed s = ground arith

pub pub_hash-on_pong : (s : Session) → (on_pong s).pub_hash ≡ s.pub_hash
unfolding on_pong
pub_hash-on_pong s = ground arith

pub pub_hash-shutdown : (s : Session) → (shutdown s).pub_hash ≡ s.pub_hash
unfolding shutdown
pub_hash-shutdown s = ground arith

module _ {P : Platform} (cfg : Core) where
  shutdown_each-Routed :
      (l : List (Str × ℕ)) (w : World P) → Routed w → Routed (shutdown_each P cfg l w)
  unfolding shutdown_each
  shutdown_each-Routed [] w r = r
  shutdown_each-Routed ((user, p) ∷ l) w r = shutdown_each-Routed l _ (if-Routed (w.alive p))
    where
      if-Routed : (b : Bool) → Routed (if b then with_session p shutdown w else w)
      if-Routed true = quiet-Routed _ w (Quiet-with_session p shutdown pub_hash-shutdown) r
      if-Routed false = r

  on_run-Routed : (w : World P) (failed : Bool) → Routed w → Routed (on_run P cfg failed w)
  unfolding on_run
  on_run-Routed w true r = r
  on_run-Routed w false r = record { entry = r.entry }

  pub Quiet-publish_body : (body : Str) → Quiet (publish_body P cfg body)
  unfolding publish_body
  Quiet-publish_body body = search (quiet_rules, QuietOps.Quiet-on_publish_impl) depth 16

  pub Quiet-discard : {A : Type 0} (m : Exec (World P) A) → Quiet m → Quiet (discard P cfg m)
  unfolding discard
  Quiet-discard m h = Quiet-bind m _ h (λ _. Quiet-pure tt)

  on_signal-Routed : (w : World P) (code : SignalCode) → Routed w → Routed (on_signal P cfg code w)
  unfolding on_signal shutdown_impl
  on_signal-Routed w success r =
      let closing = with_acceptor Acceptor.shutdown w in
      quiet-Routed _ (shutdown_each P cfg closing.sessions closing) (Quiet-send_redis _) (
        shutdown_each-Routed closing.sessions closing
          (quiet-Routed _ w (Quiet-with_acceptor Acceptor.shutdown) r))
  on_signal-Routed w operation_aborted r = r
  on_signal-Routed w other r = r

  step-Routed : (w : World P) (e : Event) → Routed w → Routed (step P cfg e w).1
  unfolding step
  step-Routed w hello r = quiet-Routed _ w (QuietOps.Quiet-on_hello cfg) r
  step-Routed w (push v) r = quiet-Routed _ w (QuietOps.Quiet-on_push cfg v) r
  step-Routed w (hvals v) r = quiet-Routed _ w (QuietOps.Quiet-on_hvals cfg v) r
  step-Routed w (hgetall b v) r = quiet-Routed _ w (QuietOps.Quiet-on_hgetall cfg b v) r
  step-Routed w (accepted a) r = quiet-Routed _ w (Quiet-with_acceptor (on_accept a)) r
  step-Routed w (lrange v) r = quiet-Routed _ w (QuietOps.Quiet-on_lrange cfg v) r
  step-Routed w (read p msg) r = on_read-Routed cfg w p msg r
  step-Routed w (started p failed) r = on_run-Routed w failed r
  step-Routed w (written p failed) r =
      quiet-Routed _ w (Quiet-with_session p (on_write failed) (pub_hash-on_write failed)) r
  step-Routed w (pong p) r = quiet-Routed _ w (Quiet-with_session p on_pong pub_hash-on_pong) r
  step-Routed w (expired p) r = unfold expire_session in (record { entry = r.entry })
  step-Routed w (api_delete user key id) r =
      quiet-Routed _ w (Quiet-catching tt _ (QuietOps.Quiet-delete_post cfg user key id)) r
  step-Routed w (api_publish body) r =
      quiet-Routed _ w (Quiet-catching tt _ (Quiet-publish_body body)) r
  step-Routed w (api_visualization msg) r =
      quiet-Routed _ w (Quiet-catching tt _ (QuietOps.Quiet-on_visualization cfg msg)) r
  step-Routed w api_user_id r =
      quiet-Routed _ w (Quiet-catching tt _ (Quiet-discard _ (QuietOps.Quiet-on_get_user_id cfg))) r
  step-Routed w api_credit r = unfold take_credit get_upload_credit in (record { entry = r.entry })
  step-Routed w (signal code) r = on_signal-Routed w code r
  step-Routed w (time now) r = unfold set_clock in (record { entry = r.entry })

  run-Routed_from : (w : World P) (es : List Event) → Routed w → Routed (run P cfg es w).1
  unfolding run
  run-Routed_from w [] r = r
  run-Routed_from w (e ∷ es) r =
      continue-Routed (step P cfg e w) (λ _. run P cfg es) (step-Routed w e r)
        (λ _ v h. run-Routed_from v es h)

-- After any events of a worker, whether the process goes on or has ended: an entry of sessions_
-- leads to a session that is logged in as exactly the user of the entry, and no entry is for the
-- empty user.
pub run-Routed :
    (P : Platform) (cfg : Core) (now : ℤ) (gen : P.Gen) (es : List Event)
    → Routed (run P cfg es (init P cfg now gen)).1
unfolding init
run-Routed P cfg now gen es =
    run-Routed_from cfg _ es (record { entry = λ user p e. unfold lookup in ground arith })
