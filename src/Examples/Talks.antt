-- ===== src/Examples/Talks.antt =====
-- Two clients that talk over a node on concrete states.
use occase.Base.{
  ℕ, ◌≡◌, refl, ◌+◌, true, false, [], ◌∷◌, ◌++◌, List, some, pos, Str, codes, str_eq, All, ◌⊎◌,
  if◌then◌else◌, ◌==◌,
}
use occase.Examples.Toy.{toy, write, write_full}
use occase.Examples.Nodes.{cfg, online}
use occase.Exec.{Exec, ok, thrown, pure}
use occase.Assoc.{lookup}
use occase.Session.{MsgEntry, Session, fresh, on_write, handle_ev, chat_msg_ok}
use occase.Worker.State.{World, with_session}
use occase.Worker.Api.{chat_admin_id_key}
use occase.Worker.App.{chat_ack}
use occase.Worker.Life.{on_read}
use occase.Worker.Relay.{passed_state}
use occase.Http.{Response, no_response}
use occase.Client.{
  UserCred, CredPubHelper, HttpRequest, Message, message_to, message_to_json, make_message,
}
use occase.Client.Offline.{signed}
use occase.Client.Flows.{Bench, on_node, Wire}
use occase.Client.Relay.{Letter, Waits, letter_passed}
use occase.Client.Turns.{
  Carries, Replier, Publisher, sending, awaiting_ack, receiving, replier_step, publisher_step,
  replier_ready, publisher_ready, left, drained, Talk, replier_turn, Turns, start, later, IsFine,
}
use occase.Client.Turns.Checks.{Connected}
use occase.Client.Turns.Ends.{talk_ends}

-- A network on which a text arrives at once.
abbrev read_front : ℕ → List MsgEntry → Exec (Bench toy) Str
read_front s [] b = (thrown, b)
read_front s (m ∷ q) b = (ok m.msg, record b { node = with_session s (on_write false) b.node })

abbrev direct : Wire (Bench toy)
direct = record {
  resolve = λ host port. pure tt;
  connect = pure 0;
  handshake = λ s target. pure tt;
  write = λ s text b. on_node b (on_read toy cfg s (some text) b.node);
  read = λ s b. read_front s (b.node.heap s).msg_queue b;
  read_some = λ s. pure tt;
  close = λ s. pure tt;
  spawn = λ m. m;
  print = λ line b. (ok tt, record b { output = b.output ++ line ∷ [] });
  what = pure [];
}

direct-Carries : Carries cfg direct
direct-Carries = record {
  writes = λ s text b. refl;
  reads = λ s m q b e f. rw e refl;
  prints = λ line b. refl;
}

abbrev no_http : HttpRequest → Exec (Bench toy) Response
no_http r = pure no_response

-- "bo" sends on session 3, "al" answers on session 1.
abbrev bo : UserCred
bo = record { user = codes "b"; key = codes "k"; user_id = codes "bo" }

abbrev al : CredPubHelper
al = record {
  cred = record { user = codes "a"; key = codes "k"; user_id = codes "al" };
  pack = record { admin_id = []; id = codes "x"; date = 0 };
}

abbrev both_online : World toy
both_online = record online {
  sessions = (codes "al", 1) ∷ (codes "bo", 3) ∷ [];
  heap = λ p.
      if p == 1
      then record fresh { pub_hash = codes "al" }
      else if p == 3
      then record fresh { pub_hash = codes "bo" }
      else fresh;
}

abbrev table : Bench toy
table = record { node = both_online; output = [] }

abbrev note :
    (from to : Str) → str_eq to chat_admin_id_key ≡ false → Letter toy cfg from to (codes "x")
note from to e =
    let m : Message = message_to toy to (codes "x") [] in
    record {
      text = write (message_to_json toy m);
      passed = write (signed toy from m);
      ack = write (chat_ack toy cfg to from (codes "x") (pos 23));
      text_dump = unfold make_message in refl;
      passed_dump = refl;
      ack_dump = refl;
      passed_full = write_full (signed toy from m);
      ack_full = write_full (chat_ack toy cfg to from (codes "x") (pos 23));
      to_user = e;
    }

from_bo : Letter toy cfg (codes "bo") (codes "al") (codes "x")
from_bo = note (codes "bo") (codes "al") refl

from_al : Letter toy cfg (codes "al") (codes "bo") (codes "x")
from_al = note (codes "al") (codes "bo") refl

both_Connected : Connected both_online 3 1 (codes "bo") (codes "al")
unfolding lookup
both_Connected = record {
  full_u = refl;
  full_v = refl;
  entry_u = refl;
  entry_v = refl;
  alive_r = refl;
  alive_p = refl;
  apart = λ e. cc;
}

idle : (user : Str) → Waits user [] (record fresh { pub_hash = user })
idle user = record { hash = refl; queue = refl; busy = refl; running = refl }

-- The message of "bo" was sent.
abbrev sent : Bench toy
sent = record table {
  node =
      with_session 3 (handle_ev chat_msg_ok)
        (passed_state cfg 3 1 from_bo.passed from_bo.ack both_online);
}

abbrev first_talk : Talk toy
first_talk = record { bench = table; replier = sending 2; publisher = receiving 2 }

abbrev next_talk : Talk toy
next_talk = record { bench = sent; replier = awaiting_ack 1; publisher = receiving 2 }

sent_step :
    replier_step toy no_http direct 3 bo from_bo.text (sending 2) table
    ≡ (ok (awaiting_ack 1), sent)
unfolding replier_step
sent_step =
    rw (letter_passed cfg from_bo both_online 3 1 refl refl both_Connected.entry_v refl (λ e. cc))
      refl

one_turn : Turns toy no_http direct 3 1 bo al from_bo.text first_talk 1 next_talk
unfolding replier_ready
one_turn = later start (replier_turn (awaiting_ack 1) sent refl sent_step)

talk_ends_example :
    ((lines : List Str) × ([] ≡ lines) × All IsFine lines)
    × ((h : ℕ → Session) × (sent.node ≡ record both_online { heap = h }))
    × ((replier_ready (awaiting_ack 1) (drained next_talk 3) ≡ true)
        → (a : Replier) × (b : Bench toy) × (replier_step toy no_http direct 3 bo from_bo.text
              (awaiting_ack 1)
              sent
            ≡ (ok a, b)))
    × ((publisher_ready (receiving 2) (drained next_talk 1) ≡ true)
        → (a : Publisher) × (b : Bench toy) × (publisher_step toy no_http direct 1 al
              (receiving 2)
              sent
            ≡ (ok a, b)))
    × ((replier_ready (awaiting_ack 1) (drained next_talk 3) ≡ true)
        ⊎ ((publisher_ready (receiving 2) (drained next_talk 1) ≡ true)
            ⊎ ((awaiting_ack 1 ≡ sending 0)
                × (receiving 2 ≡ receiving 0)
                × (drained next_talk 3 ≡ true)
                × (drained next_talk 1 ≡ true))))
    × (1 + left next_talk ≡ 10)
talk_ends_example =
    talk_ends cfg no_http direct-Carries 3 1 2 bo al from_bo from_al table both_Connected
      (idle (codes "bo")) (idle (codes "al")) 1 next_talk one_turn
