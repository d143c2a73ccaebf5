-- ===== src/Client/Turns.antt =====
-- src/occase-db-tests.cpp (launch_replier, publisher): the loops of the two coroutines in the turns that
-- an executor can run, which end where a coroutine waits for a text.
pub mod Steps
pub mod Checks
pub mod Phases
pub mod Loops
pub mod Ends
use occase.Base.{
  ℕ, zero, suc, ◌≡◌, ◌+◌, ◌*◌, Bool, true, false, not, List, [], ◌∷◌, ◌++◌, some, Str, is_empty,
  All, ◌⊎◌,
}
use occase.Platform.{Platform}
use occase.Exec.{Exec, Result, ok, pure, ◌>>=◌, ◌>>◌}
use occase.Config.{Core}
use occase.Session.{MsgEntry, on_write}
use occase.Worker.State.{World, with_session}
use occase.Worker.Life.{on_read}
use occase.Http.{Response}
use occase.Client.{UserCred, CredPubHelper, HttpRequest, Message}
use occase.Client.Flows.{Bench, Prints, on_node, Wire, verdict}
use occase.Client.Sockets.{replier_ack, app_msg, receive_and_send, server_ack, log_text}

-- What the clients rely on: a text that is written to a stream is read by the node's session of that
-- stream, the text that the node is writing to a stream is what is read from it, and its write is then
-- completed; and a line that is printed is put behind the others.
pub record Carries {P : Platform} (cfg : Core) (W : Wire (Bench P)) : Type 0 where
  pub writes :
      (s : ℕ) (text : Str) (b : Bench P)
      → W.write s text b ≡ on_node b (on_read P cfg s (some text) b.node)
  pub reads :
      (s : ℕ) (m : MsgEntry) (q : List MsgEntry) (b : Bench P)
      → (b.node.heap s).msg_queue ≡ m ∷ q
      → (b.node.heap s).writing ≡ true
      → W.read s b ≡ (ok m.msg, record b { node = with_session s (on_write false) b.node })
  pub prints : Prints W

-- Where the loop of launch_replier stands, with the rounds that are left after this one.
pub data Replier : Type 0 where
  sending awaiting_ack awaiting_answer : ℕ → Replier

-- Where the loop of publisher stands.
pub data Publisher : Type 0 where
  receiving acking : ℕ → Publisher

module _ (P : Platform) {S : Type 0} (exchange : HttpRequest → Exec S Response) (W : Wire S) where
  unfoldable pub replier_step : ℕ → UserCred → Str → Replier → Exec S Replier
  replier_step ws cred text (sending zero) = pure (sending zero)
  replier_step ws cred text (sending (suc n)) = do W.write ws text; pure (awaiting_ack n)
  replier_step ws cred text (awaiting_ack n) = do
    replier_ack P exchange W ws cred
    pure (awaiting_answer n)
  replier_step ws cred text (awaiting_answer n) = do app_msg P exchange W ws cred; pure (sending n)

  unfoldable pub publisher_step : ℕ → CredPubHelper → Publisher → Exec S Publisher
  publisher_step ws foo (receiving zero) = pure (receiving zero)
  publisher_step ws foo (receiving (suc n)) = do
    receive_and_send P exchange W ws foo
    pure (acking n)
  publisher_step ws foo (acking n) = do server_ack P exchange W ws foo; pure (receiving n)

-- Both coroutines, and the node that they talk to.
pub record Talk (P : Platform) : Type 0 where
  pub bench : Bench P
  pub replier : Replier
  pub publisher : Publisher

-- A coroutine that has to read can go on only when a text is there for it, given whether there is none.
unfoldable pub replier_ready : Replier → Bool → Bool
replier_ready (sending zero) none_there = false
replier_ready (sending (suc n)) none_there = true
replier_ready (awaiting_ack n) none_there = not none_there
replier_ready (awaiting_answer n) none_there = not none_there

unfoldable pub publisher_ready : Publisher → Bool → Bool
publisher_ready (receiving zero) none_there = false
publisher_ready (receiving (suc n)) none_there = not none_there
publisher_ready (acking n) none_there = not none_there

-- The turns that are left.
unfoldable pub replier_left : Replier → ℕ
replier_left (sending n) = 3 * n
replier_left (awaiting_ack n) = 2 + 3 * n
replier_left (awaiting_answer n) = 1 + 3 * n

unfoldable pub publisher_left : Publisher → ℕ
publisher_left (receiving n) = 2 * n
publisher_left (acking n) = 1 + 2 * n

unfoldable pub left : {P : Platform} → Talk P → ℕ
unfolding replier_left publisher_left
left t = replier_left t.replier + publisher_left t.publisher

-- No text waits on the stream of a session.
abbrev pub drained : {P : Platform} → Talk P → ℕ → Bool
drained t s = is_empty (t.bench.node.heap s).msg_queue

module _ (P : Platform) (exchange : HttpRequest → Exec (Bench P) Response) (W : Wire (Bench P))
    (r p : ℕ) (cred : UserCred) (foo : CredPubHelper) (text : Str) where
  -- One turn of either coroutine.
  pub data Turn (t : Talk P) : Talk P → Type 0 where
    replier_turn :
        (a : Replier) (b : Bench P)
        → replier_ready t.replier (drained t r) ≡ true
        → replier_step P exchange W r cred text t.replier t.bench ≡ (ok a, b)
        → Turn t (record t { replier = a; bench = b })
    publisher_turn :
        (a : Publisher) (b : Bench P)
        → publisher_ready t.publisher (drained t p) ≡ true
        → publisher_step P exchange W p foo t.publisher t.bench ≡ (ok a, b)
        → Turn t (record t { publisher = a; bench = b })

  -- Turns in any order, and their number.
  pub data Turns (t : Talk P) : ℕ → Talk P → Type 0 where
    start : Turns t 0 t
    later : {k : ℕ} {u v : Talk P} → Turns t k u → Turn u v → Turns t (suc k) v

-- A line that reports a message or a check that passed.
abbrev pub IsFine : Str → Type 0
IsFine line =
    ((msg : Str) × (line ≡ verdict true msg))
    ⊎ ((cred : UserCred) × (msg : Message) × (line ≡ log_text cred msg))
