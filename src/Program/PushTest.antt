-- ===== src/Program/PushTest.antt =====
-- src/notify-test.cpp: the program that sends one notification. The state and the outcomes of calls are
-- those of a node's start. `user_agent` is the version string of the HTTP library, and `cfg` the default
-- configuration of src/ntf_session.hpp.
use occase.Base.{
  ℕ, ◌≡◌, refl, Bool, true, false, ◌||◌, ◌&&◌, List, [], ◌∷◌, ◌++◌, Option, none, some, Str, codes,
  if◌then◌else◌, maybe,
}
use occase.Platform.{Platform}
use occase.Exec.{Exec, Result, ok, thrown, pure, modify, or_throw, ◌>>=◌, ◌>>◌}
use occase.Log.{debug, info, upto, write}
use occase.Notifier.{NtfConfig, make_ntf_body}
use occase.Notifier.Push.{Push, Request, Completion, new_push, serve, make_request}
use occase.Notifier.Push
use occase.Notifier.Push.Exchange.{succeed, push_exchange}
use occase.Program.{Process, or_raise, log_with}
use occase.Program.Status.{succeeds, status}

-- What the options library read, with the defaults of `parse_options`.
pub record Options : Type 0 where
  pub help : Bool
  pub title : Str
  pub body : Str
  pub fcm_token : Str

-- What the options library ends with.
pub data Reading : Type 0 where
  parsed : Options → Reading
  invalid : Str → Reading

-- The outcomes of calls: the search for the host, the setting of the host's name, what the operations
-- of the session complete with, and the exception that ends the loop, if one does. `unwritable` is the
-- message of the JSON library where a text can not be written.
pub record Outside : Type 0 where
  pub reading : Reading
  pub unwritable : Str
  pub resolving : Option Str
  pub named : Bool
  pub completions : List Completion
  pub running : Option Str

-- The state, with the session that sends the notification.
pub record Tester : Type 0 where
  pub process : Process
  pub push : Push

abbrev on_process : {A : Type 0} → Tester → Result A × Process → Result A × Tester
on_process t (r, p) = (r, record t { process = p })

abbrev lift : {A : Type 0} → Exec Process A → Exec Tester A
lift m t = on_process t (m t.process)

abbrev with_push : (Push → Push) → Tester → Tester
with_push f t = record t { push = f t.push }

-- A value, or an exception with a message.
or_raise_with : Str → Option Str → Exec Tester Str
unfolding or_raise
or_raise_with message (some text) = pure text
or_raise_with message none = do lift (or_raise (some message)); or_throw none

-- The handler of exceptions at the end of `main`.
handled : Result ℕ → Tester → Result ℕ × Tester
handled thrown t = (ok 1, record t { process = log_with (write info t.process.what) t.process })
handled r t = (r, t)

module _ (P : Platform) (user_agent : Str) (cfg : NtfConfig) where
  -- The session is started, and the loop runs its handlers.
  pub push_body : Outside → Str → Exec Tester ℕ
  unfolding or_raise
  push_body out ntf_body = do
    modify (with_push (λ s. serve out.completions (Push.run user_agent cfg out.named ntf_body s)))
    lift (or_raise out.running)
    pure 0

  pub resolved : Outside → Str → Exec Tester ℕ
  unfolding push_body
  resolved out ntf_body =
      maybe out.resolving (push_body out ntf_body) (λ message. do
        lift (modify (log_with (write debug (codes "resolve: " ++ message))))
        pure 1)

  pub start : Options → Outside → Exec Tester ℕ
  unfolding or_raise_with resolved
  start op out = if op.help then pure 0 else (do
    lift (modify (log_with (upto debug)))
    ntf_body ← or_raise_with out.unwritable (make_ntf_body P op.title op.body op.fcm_token)
    lift (modify (log_with (write info (codes "Sending: " ++ ntf_body))))
    resolved out ntf_body)

  pub configured : Reading → Outside → Exec Tester ℕ
  unfolding start
  configured (invalid message) out = do lift (or_raise (some message)); pure 1
  configured (parsed op) out = start op out

  pub main : Outside → Exec Tester ℕ
  unfolding configured handled
  main out t = let (r, q) = configured out.reading out t in handled r q

  abbrev found : Option Str → Bool
  found o = succeeds o

  -- Whether there is a body to send.
  abbrev written : Options → Option Str
  written op = make_ntf_body P op.title op.body op.fcm_token

  abbrev pub fine : Reading → Outside → Bool
  fine (invalid message) out = false
  fine (parsed op) out =
      op.help || maybe (written op) false (λ body. found out.resolving && succeeds out.running)

  abbrev pub requests : Reading → Outside → List Request
  requests (invalid message) out = []
  requests (parsed op) out =
      if op.help
      then []
      else maybe (written op) [] (λ body.
        if found out.resolving && (out.named && succeed 2 out.completions)
        then make_request user_agent cfg body ∷ []
        else [])

  abbrev Ends : Result ℕ × Tester → Bool → List Request → Type 0
  Ends r b sent = ((handled r.0 r.1).0 ≡ ok (status b)) × ((handled r.0 r.1).1.push.written ≡ sent)

  resolved-Ends :
      (out : Outside) (body : Str) (t : Tester)
      → t.push ≡ new_push
      → (host running : Option Str) → out.resolving ≡ host
      → out.running ≡ running
      → Ends (resolved out body t) (found host && succeeds running) (
          if found host && (out.named && succeed 2 out.completions)
          then make_request user_agent cfg body ∷ []
          else [])
  unfolding resolved push_body handled or_raise
  resolved-Ends out body t e (some message) running h k = rw (h, e) (refl, refl)
  resolved-Ends out body t e none none h k =
      rw (h, k, e) (refl, (push_exchange user_agent cfg out.named body out.completions).0)
  resolved-Ends out body t e none (some message) h k =
      rw (h, k, e) (refl, (push_exchange user_agent cfg out.named body out.completions).0)

  configured-Ends :
      (reading : Reading) (out : Outside) (t : Tester)
      → t.push ≡ new_push
      → Ends (configured reading out t) (fine reading out) (requests reading out)
  unfolding configured start or_raise_with handled or_raise
  configured-Ends (invalid message) out t e = rw e (refl, refl)
  configured-Ends (parsed op) out t e = helped op.help refl (written op) refl
    where
      helped :
          (help : Bool)
          → op.help ≡ help
          → (body : Option Str) → written op ≡ body
          → Ends (start op out t) (fine (parsed op) out) (requests (parsed op) out)
      helped true h body b = rw (h, e) (refl, refl)
      helped false h none b = rw (h, b, e) (refl, refl)
      helped false h (some body) b =
          rw (h, b) (resolved-Ends out body _ e out.resolving out.running refl refl)

  -- The program that sends one notification ends, from a session that is not yet used, with 0 where
  -- help was asked for, or where the notification can be written, the host is found and no exception
  -- ends the loop, and with 1 otherwise. It has given the notification of its options to the service,
  -- once, exactly where in addition help was not asked for, the host's name could be set and the
  -- connection and the handshake succeeded (whatever then ends the loop); so that the status does not
  -- tell whether it was sent.
  pub push_test_ends :
      (out : Outside) (t : Tester)
      → t.push ≡ new_push
      → ((main out t).0 ≡ ok (status (fine out.reading out)))
        × ((main out t).1.push.written ≡ requests out.reading out)
  unfolding main
  push_test_ends out t e = configured-Ends out.reading out t e
