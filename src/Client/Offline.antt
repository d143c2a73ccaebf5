-- ===== src/Client/Offline.antt =====
-- src/occase-db-tests.cpp (offline) against a node: a message to a user who is not there, who then logs
-- in.
use occase.Base.{
  ℕ, ◌≡◌, ◌≢◌, ◌∙◌, ap, true, false, [], ◌∷◌, ◌++◌, none, some, pos, negsuc, Str, arith, codes,
  str_eq, is_empty,
}
use occase.Platform.{Platform, string_at, object}
use occase.Exec.{ok}
use occase.Assoc.{lookup}
use occase.Config.{Core}
use occase.Crypto.{make_hex_digest}
use occase.Session.{Session, is_logged_in}
use occase.Worker.State.{World, incr, rpush, expire, publish, del, lrange, subscribe}
use occase.Worker.Api.{chat_admin_id_key}
use occase.Worker.App.{int_of, chat_ack, login_ack}
use occase.Worker.Db.{on_lrange}
use occase.Worker.Life.{on_read}
use occase.Worker.Delivery.{kept}
use occase.Worker.Offline.{chat_stored, login_fetches, read_chat, read_login}
use occase.Worker.Arrival.{
  sent_state, arrived_state, sent_others, sent_redis, sent_ready, arrived_redis, arrived_delivery,
}
use occase.Client.{
  UserCred, Message, message_to, message_to_json, message_from_json, make_message, login_json,
  make_login,
}
use occase.Client.Texts.{signed_read}
use occase.Client.Credentials.{cred_of}

module _ (P : Platform) where
  -- The message as the node passes it on.
  abbrev pub signed : Str → Message → P.Json
  signed from m = P.set (message_to_json P m) (codes "from") (P.of_string from)

  -- The fields that the node reads of a client's message.
  pub message_fields :
      (cfg : Core) (from to post_id body : Str)
      → let m = message_to P to post_id body in
        (string_at P (message_to_json P m) (codes "cmd") ≡ some (codes "message"))
        × (string_at P (message_to_json P m) (codes "to") ≡ some to)
        × (string_at P (signed from m) (codes "post_id") ≡ some post_id)
        × (int_of P cfg (P.at (signed from m) (codes "id")) ≡ some (pos 23))
  unfolding message_to_json message_to object int_of
  message_fields cfg from to post_id body = (
    simp (P.at-set, P.get_string-of_string),
    simp (P.at-set, P.get_string-of_string),
    simp (P.at-set, P.get_string-of_string),
    simp (P.at-set, P.get_int-of_int (pos 23) (omega arith)),
  )

  pub login_fields :
      (c : UserCred)
      → (string_at P (login_json P c) (codes "cmd") ≡ some (codes "login"))
        × (string_at P (login_json P c) (codes "user") ≡ some c.user)
        × (string_at P (login_json P c) (codes "key") ≡ some c.key)
        × (P.at (login_json P c) (codes "token") ≡ none)
  unfolding login_json object
  login_fields c = (
    simp (P.at-set, P.get_string-of_string),
    simp (P.at-set, P.get_string-of_string),
    simp (P.at-set, P.get_string-of_string),
    simp (P.at-set, P.at-empty),
  )

module _ {P : Platform} (cfg : Core) where
  -- What the reading of a client's message does where the receiver has no session.
  reads_message :
      (w : World P) (s : ℕ) (to post_id body text stored ack : Str)
      → make_message P to post_id body ≡ some text
      → is_logged_in (w.heap s) ≡ true
      → str_eq to chat_admin_id_key ≡ false
      → lookup to w.sessions ≡ none
      → let from = (w.heap s).pub_hash in
        P.dump (signed P from (message_to P to post_id body)) ≡ some stored
        → P.dump (chat_ack P cfg to from post_id (pos 23)) ≡ some ack
        → ack ≢ []
        → on_read P cfg s (some text) w ≡ (ok tt, sent_state cfg s ack stored to w)
  unfolding make_message sent_state
  reads_message w s to post_id body text stored ack m l a n d e f =
      let (cmd, receiver, post, id) = message_fields P cfg (w.heap s).pub_hash to post_id body in
      read_chat cfg w _ s text (message_to_json P (message_to P to post_id body))
        (P.parse-dump _ text m) cmd l
        (chat_stored cfg w _ s to post_id stored ack (pos 23) receiver a n d post id e f)

  -- What the reading of a login does where the user has no session.
  reads_login :
      (v : World P) (p : ℕ) (user key login resp : Str)
      → let c = cred_of P user key in
        make_login P c ≡ some login
        → is_logged_in (v.heap p) ≡ false
        → is_empty c.user_id ≡ false
        → lookup c.user_id v.sessions ≡ none
        → P.dump (login_ack P cfg (codes "ok")) ≡ some resp
        → resp ≢ []
        → on_read P cfg p (some login) v ≡ (ok tt, arrived_state cfg p resp c.user_id v)
  unfolding make_login arrived_state
  reads_login v p user key login resp m l f n d e =
      let c = cred_of P user key in
      let (cmd, u, k, token) = login_fields P c in
      read_login cfg v _ p login (login_json P c) (P.parse-dump _ login m) cmd l
        (login_fetches cfg v _ p user key resp u k token f n d e)

  -- A client who is logged in sends a message to a user who has no session on the node and is not the
  -- admin; then this user logs in on another session, which was not logged in, with his user and key,
  -- whose digest is his id; no reply of the database is waited for, and no text is refused or empty.
  -- The message is stored for the user with the sender's name in it, whatever the client wrote; the
  -- login fetches the key under which it is stored; when the reply holds the message, the user's
  -- session is given the acknowledgement of the login and then the message, which is to be kept; and a
  -- client reads it as the message that was sent, from the user that the sender was logged in as.
  pub offline_delivered :
      (w : World P) (s p : ℕ) (user key post_id body text stored ack login resp : Str)
      → let c = cred_of P user key in
        let from = (w.heap s).pub_hash in
        make_message P c.user_id post_id body ≡ some text
        → make_login P c ≡ some login
        → is_logged_in (w.heap s) ≡ true
        → is_logged_in (w.heap p) ≡ false
        → s ≢ p
        → w.alive p ≡ true
        → w.chat_queue ≡ []
        → is_empty c.user_id ≡ false
        → str_eq c.user_id chat_admin_id_key ≡ false
        → lookup c.user_id w.sessions ≡ none
        → P.dump (signed P from (message_to P c.user_id post_id body)) ≡ some stored
        → P.dump (chat_ack P cfg c.user_id from post_id (pos 23)) ≡ some ack
        → P.dump (login_ack P cfg (codes "ok")) ≡ some resp
        → stored ≢ []
        → ack ≢ []
        → resp ≢ []
        → let key = cfg.redis.chat_msg_prefix ++ c.user_id in
          (w1 : World P) × (w2 : World P) × (w3 : World P) × (on_read P cfg s (some text) w
            ≡ (ok tt, w1))
          × (on_read P cfg p (some login) w1 ≡ (ok tt, w2))
          × (on_lrange P cfg (stored ∷ []) w2 ≡ (ok tt, w3))
          × (w1.redis
              ≡ w.redis
                ++ incr cfg.redis.chat_msgs_counter_key
                  ∷ rpush key (stored ∷ [])
                  ∷ expire key cfg.redis.chat_msg_exp_time
                  ∷ publish cfg.redis.notify_channel stored
                  ∷ [])
          × (w2.redis
              ≡ w1.redis
                ++ subscribe (cfg.redis.user_notify_prefix ++ c.user_id)
                  ∷ subscribe (cfg.redis.presence_channel_prefix ++ c.user_id)
                  ∷ lrange key (pos 0) (negsuc 0)
                  ∷ del key
                  ∷ [])
          × ((w3.heap p).msg_queue
              ≡ (w.heap p).msg_queue ++ record { msg = resp; persist = false } ∷ kept stored ∷ [])
          × ((j : P.Json) × (P.parse stored ≡ some j)
              × (message_from_json P j
                  ≡ some (record (message_to P c.user_id post_id body) { from = from })))
  offline_delivered w s p user key post_id body text stored ack login resp m g l k n a q f o e d b r
        x y z =
      let to = make_hex_digest P user key in
      let w1 = sent_state cfg s ack stored to w in
      let other = sent_others cfg s p ack stored to w n in
      let (wait, live, gone) = sent_ready cfg s p ack stored to w q a e in
      let (w3, delivery, queue) =
        arrived_delivery cfg p resp to (stored ∷ []) w1 wait live (x, tt) in
      (
        w1,
        arrived_state cfg p resp to w1,
        w3,
        reads_message w s to post_id body text stored ack m l o e d b y,
        reads_login w1 p user key login resp g (ap is_logged_in other ∙ k) f gone r z,
        delivery,
        sent_redis cfg s ack stored to w,
        arrived_redis cfg p resp to w1,
        queue
            ∙ ap
                (λ (h : Session).
                  h.msg_queue ++ record { msg = resp; persist = false } ∷ kept stored ∷ [])
                other,
        (
          _,
          P.parse-dump _ stored d,
          unfold message_to in
              (signed_read P (message_to P to post_id body) (w.heap s).pub_hash (omega arith)
                (omega arith) (omega arith)),
        ),
      )
