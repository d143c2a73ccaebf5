-- ===== src/Client/Relay.antt =====
-- src/occase-db-tests.cpp (launch_replier, publisher) against a node: what the sessions of two clients
-- hold while they talk.
use occase.Base.{
  ℕ, ◌≡◌, ◌≢◌, refl, Bool, true, false, not, List, [], ◌∷◌, ◌++◌, some, pos, Str, arith, codes,
  str_eq, is_empty,
}
use occase.Platform.{Platform, object}
use occase.Exec.{ok}
use occase.Assoc.{lookup}
use occase.Config.{Core}
use occase.Session.{
  MsgEntry, Session, enqueue, on_write, write_front, do_write, is_logged_in, handle_ev, chat_msg_ok,
}
use occase.Worker.State.{World, with_session}
use occase.Worker.Api.{chat_admin_id_key}
use occase.Worker.App.{chat_ack}
use occase.Worker.Life.{on_read}
use occase.Worker.Offline.{read_chat}
use occase.Worker.Relay.{chat_passed, passed_state}
use occase.Post.Json.{get_optional_field}
use occase.Client.{Message, message_to, message_to_json, message_from_json, make_message}
use occase.Client.Offline.{signed, message_fields}
use occase.Client.Texts.{signed_read}

-- An entry of the queue of a session.
abbrev pub entry : Str → Bool → MsgEntry
entry msg persist = record { msg = msg; persist = persist }

-- The session of `user` is open and its queue is `q`, whose front is being written.
pub record Waits (user : Str) (q : List MsgEntry) (s : Session) : Type 0 where
  pub hash : s.pub_hash ≡ user
  pub queue : s.msg_queue ≡ q
  pub busy : s.writing ≡ not (is_empty q)
  pub running : s.closing ≡ false

pub Waits-enqueue :
    (user m : Str) (persist : Bool) (q : List MsgEntry) (s : Session)
    → Waits user q s
    → Waits user (q ++ entry m persist ∷ []) (enqueue m persist s)
unfolding enqueue write_front do_write
Waits-enqueue user m persist [] s h =
    rw (h.queue, h.running) (record { hash = h.hash; queue = refl; busy = refl; running = refl })
Waits-enqueue user m persist (x ∷ q) s h =
    rw (h.queue) (record { hash = h.hash; queue = refl; busy = h.busy; running = h.running })

pub Waits-on_write :
    (user : Str) (m : MsgEntry) (q : List MsgEntry) (s : Session)
    → Waits user (m ∷ q) s
    → Waits user q (on_write false s)
unfolding on_write write_front do_write
Waits-on_write user m [] s h =
    rw (h.queue) (record { hash = h.hash; queue = refl; busy = refl; running = h.running })
Waits-on_write user m (x ∷ q) s h =
    rw (h.queue) (record { hash = h.hash; queue = refl; busy = refl; running = h.running })

pub Waits-chat_ok :
    (user : Str) (q : List MsgEntry) (s : Session)
    → Waits user q s
    → Waits user q (handle_ev chat_msg_ok s)
unfolding handle_ev
Waits-chat_ok user q s h = h

-- The message that the node's acknowledgement is read as.
unfoldable pub ack_message : Str → Str → Str → Message
ack_message from to post_id = record {
  cmd = codes "message";
  to = to;
  from = from;
  message = [];
  post_id = post_id;
  nick = [];
  type = codes "server_ack";
  is_redirected = pos 0;
  refers_to = pos 0;
  id = pos 0;
}

pub ack_read :
    (P : Platform) (cfg : Core) (from to post_id : Str)
    → message_from_json P (chat_ack P cfg from to post_id (pos 23))
      ≡ some (ack_message from to post_id)
unfolding message_from_json chat_ack object get_optional_field ack_message
ack_read P cfg from to post_id = simp (P.at-set, P.at-empty, P.get_string-of_string)

-- The texts of a message without a body from one user to another about a post: what the client writes,
-- what the node passes on, and what it acknowledges with.
pub record Letter (P : Platform) (cfg : Core) (from to post_id : Str) : Type 0 where
  pub text : Str
  pub passed : Str
  pub ack : Str
  pub text_dump : make_message P to post_id [] ≡ some text
  pub passed_dump : P.dump (signed P from (message_to P to post_id [])) ≡ some passed
  pub ack_dump : P.dump (chat_ack P cfg to from post_id (pos 23)) ≡ some ack
  pub passed_full : passed ≢ []
  pub ack_full : ack ≢ []
  pub to_user : str_eq to chat_admin_id_key ≡ false

-- The message as the receiver reads it.
unfoldable pub letter_message : (P : Platform) → Str → Str → Str → Message
letter_message P from to post_id = record (message_to P to post_id []) { from = from }

module _ {P : Platform} (cfg : Core) {from to post_id : Str}
    (l : Letter P cfg from to post_id) where
  pub passed_read :
      (j : P.Json) × (P.parse l.passed ≡ some j)
      × (message_from_json P j ≡ some (letter_message P from to post_id))
  unfolding letter_message
  passed_read = (
    _,
    P.parse-dump _ l.passed l.passed_dump,
    unfold message_to in
        (signed_read P (message_to P to post_id []) from (omega arith) (omega arith) (omega arith)),
  )

  pub acked_read :
      (j : P.Json) × (P.parse l.ack ≡ some j)
      × (message_from_json P j ≡ some (ack_message to from post_id))
  acked_read = (_, P.parse-dump _ l.ack l.ack_dump, ack_read P cfg to from post_id)

  -- The node reads the message of a session that is logged in, while the receiver has a session.
  pub letter_passed :
      (w : World P) (s p : ℕ)
      → (w.heap s).pub_hash ≡ from
      → is_empty from ≡ false
      → lookup to w.sessions ≡ some p
      → w.alive p ≡ true
      → s ≢ p
      → on_read P cfg s (some l.text) w
        ≡ (ok tt, with_session s (handle_ev chat_msg_ok) (passed_state cfg s p l.passed l.ack w))
  unfolding make_message is_logged_in
  letter_passed w s p h f n a d =
      let (cmd, receiver, post, id) = message_fields P cfg from to post_id [] in
      read_chat cfg w _ s l.text (message_to_json P (message_to P to post_id []))
        (P.parse-dump _ l.text l.text_dump) cmd (rw h (rw f refl))
        (chat_passed cfg w _ s p to post_id l.passed l.ack (pos 23) receiver l.to_user n a d
          (rw h l.passed_dump) (rw h post) (rw h id) (rw h l.ack_dump) l.passed_full l.ack_full)
