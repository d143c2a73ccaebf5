-- ===== src/Examples/Nodes.antt =====
-- The node on concrete states.
use occase.Base.{
  ℕ, ◌≡◌, ◌≢◌, refl, true, false, List, [], ◌∷◌, ◌++◌, map, none, some, pos, negsuc, Str, codes,
  str_eq, ◌==◌, if◌then◌else◌, is_empty, ap, arith,
}
use occase.Examples.Toy.{toy, Tree, chars, num, write, write_full}
use occase.Platform.{object, string_at}
use occase.Exec.{ok}
use occase.Assoc.{lookup}
use occase.Config.{Core}
use occase.Crypto.{make, make_hex_digest}
use occase.Crypto.Hex.{digest_full}
use occase.Channel.Lookup.{find_id, get-find_id}
use occase.Post.{Post, empty_post}
use occase.Post.Json.{to_json, from_json-to_json, IsRepresentable}
use occase.Channel.{get, remove_post}
use occase.Session.{Session, fresh}
use occase.Worker.State.{
  World, hset, hdel, publish, lrange, del, incr, rpush, expire, send_redis, with_posts,
}
use occase.Worker.Db.{on_lrange, on_push, on_db_channel_post}
use occase.Worker.Api.{
  on_publish_impl, delete_post, delete_json, publish_json, publish_ack_json, stamp,
}
use occase.Worker.Delivery.{kept, lrange_delivers, push_misses_session}
use occase.Worker.Chat.{signed, chat_delivered}
use occase.Worker.App.{receiver, readdress, int_of, chat_ack, on_app_chat_msg}
use occase.Session.{chat_msg_ok}
use occase.Worker.Publishing.{received, publish_reaches_nodes, delete_reaches_nodes}
use occase.Worker.Sessions.{Routed, logged_in_state, takeover}
use occase.Worker.Events.{Event, started, read, pong, init, run}
use occase.Worker.Run.{run-Routed}

abbrev pub cfg : Core
cfg = record {
  max_posts_on_search = pos 10;
  pwd_size = pos 2;
  db_port = 8080;
  max_listen_connections = pos 5;
  mms_key = codes "mm";
  db_host = [];
  mms_host = codes "https://mms";
  http_session_timeout = pos 30;
  http_allow_origin = codes "*";
  ssl_shutdown_timeout = pos 30;
  server_name = codes "occase";
  adm_pwd = [];
  allowed_posts = pos 3;
  chat_admin_id = codes "admin";
  redis = record {
    host = codes "127.0.0.1";
    port = codes "6379";
    posts_channel_key = codes "posts_channel";
    posts_key = codes "posts";
    removed_posts_key = codes "removed_posts";
    chat_msg_prefix = codes "msg:";
    presence_channel_prefix = codes "pc:";
    notify_prefix = codes "__keyspace@";
    user_notify_prefix = codes "__keyspace@0__:msg:";
    chat_msgs_counter_key = codes "chat_msgs_counter";
    notify_channel = codes "notify";
    tokens_key = codes "fcm_tokens";
    post_visualizations_key = codes "post_visualizations";
    chat_msg_exp_time = pos 3600;
    max_offline_chat_msgs = pos 100;
  };
  timeouts = record {
    handshake = pos 30;
    idle = pos 30;
    post_interval = pos 10;
    post_expiration = pos 100;
  };
}

abbrev pub alice : Session
alice = record fresh { pub_hash = codes "al" }

-- Session 1 is logged in as "al"; the node waits for the reply for her messages.
abbrev pub online : World toy
online = record {
  clock = pos 1000;
  number_of_sessions = pos 1;
  sessions = (codes "al", 1) ∷ [];
  heap = λ p. if p == 1 then alice else fresh;
  alive = λ p. true;
  posts = record { posts = [] };
  redis = [];
  chat_queue = codes "al" ∷ [];
  gen = 0;
  acceptor = record { is_open = true; cancelled = false; waiting = 1; detected = 3 };
  signals_cancelled = false;
}

al_listed : lookup (codes "al") online.sessions ≡ some 1
unfolding lookup
al_listed = refl

lrange_delivers_example :
    let (r, v) = on_lrange toy cfg (codes "hi" ∷ codes "you" ∷ []) online in
    (r ≡ ok tt)
    × ((v.heap 1).msg_queue ≡ map kept (codes "hi" ∷ codes "you" ∷ []))
    × ((q : ℕ) → q ≢ 1 → v.heap q ≡ online.heap q)
    × (v.chat_queue ≡ [])
    × (v.sessions ≡ online.sessions)
    × (v.redis ≡ [])
lrange_delivers_example =
    lrange_delivers cfg online (codes "al") [] 1 (codes "hi" ∷ codes "you" ∷ []) refl al_listed refl
      (λ e. cc, ((λ e. cc), tt))

abbrev pub idle : World toy
idle = record online { chat_queue = [] }

key_unlisted : lookup (codes "msg:al") idle.sessions ≡ none
unfolding lookup
key_unlisted = refl

push_misses_session_example :
    let v =
      (on_lrange toy cfg
        (codes "hi" ∷ [])
        (on_push toy cfg
          (codes "message" ∷ (cfg.redis.user_notify_prefix ++ codes "al") ∷ codes "rpush" ∷ [])
          idle).1).1 in
    (v.heap ≡ idle.heap)
    × (v.redis
        ≡ lrange (codes "msg:al") (pos 0) (negsuc 0)
          ∷ del (codes "msg:al")
          ∷ incr cfg.redis.chat_msgs_counter_key
          ∷ rpush (codes "msg:msg:al") (codes "hi" ∷ [])
          ∷ expire (codes "msg:msg:al") (pos 3600)
          ∷ publish (codes "notify") (codes "hi")
          ∷ [])
push_misses_session_example =
    push_misses_session cfg idle (codes "al") (codes "hi") [] refl (λ e. cc) key_unlisted

idle-Routed : Routed online
unfolding lookup
idle-Routed = record { entry = λ user p e. ground arith }

takeover_example :
    let v = logged_in_state (codes "al") 2 online in
    (lookup (codes "al") v.sessions ≡ some 2)
    × ((v.heap 2).pub_hash ≡ codes "al")
    × ((v.heap 1).pub_hash ≡ [])
    × ((v.heap 1).closing ≡ true)
takeover_example = takeover online (codes "al") 2 1 idle-Routed refl al_listed refl

abbrev pub login : Str
login = write (
    object toy (
      (codes "cmd", chars (codes "login"))
      ∷ (codes "user", chars (codes "alice"))
      ∷ (codes "key", chars (codes "kk"))
      ∷ (codes "token", chars (codes "tok"))
      ∷ []))

abbrev pub events : List Event
events =
    started 3 false
    ∷ read 3 (some login)
    ∷ started 4 false
    ∷ read 4 (some login)
    ∷ pong 3
    ∷ read 3 none
    ∷ []

run-Routed_example : Routed (run toy cfg events (init toy cfg (pos 5) 0)).1
run-Routed_example = run-Routed toy cfg (pos 5) 0 events

abbrev pub item : Post
item = record empty_post { nick = codes "n"; location = pos 1 ∷ [] }

-- The item as the node publishes it, for the user "alice".
abbrev pub published : Post
published =
    stamp toy cfg item (make_hex_digest toy (codes "alice") (codes "kk")) (pos 1000)
      (make toy (pos 2) 0).0

item-IsRepresentable : IsRepresentable item
item-IsRepresentable = record {
  date = omega arith;
  visualizations = omega arith;
  location = (omega arith, tt);
  product = tt;
  ex_details = tt;
  in_details = tt;
  range_values = tt;
}

pub published-IsRepresentable : IsRepresentable published
unfolding stamp
published-IsRepresentable = record {
  date = omega arith;
  visualizations = omega arith;
  location = (omega arith, tt);
  product = tt;
  ex_details = tt;
  in_details = tt;
  range_values = tt;
}

abbrev request : Tree
request = object toy (
    (codes "user", chars (codes "alice"))
    ∷ (codes "key", chars (codes "kk"))
    ∷ (codes "post", to_json toy item)
    ∷ [])

request_fields :
    (string_at toy request (codes "user") ≡ some (codes "alice"))
    × (string_at toy request (codes "key") ≡ some (codes "kk"))
    × (toy.at request (codes "post") ≡ some (to_json toy item))
unfolding object
request_fields = (refl, refl, refl)

alice_known : is_empty (make_hex_digest toy (codes "alice") (codes "kk")) ≡ false
alice_known = digest_full toy (codes "alice") (codes "kk") (λ e. cc) refl

publish_reaches_nodes_example :
    (on_publish_impl toy cfg request online ≡ (
      ok (write (publish_ack_json toy cfg published)),
      send_redis
          (hset cfg.redis.posts_key
              (((make toy (pos 2) 0).0, write (publish_json toy cfg published)) ∷ [])
            ∷ publish cfg.redis.posts_channel_key (write (publish_json toy cfg published))
            ∷ [])
          (record online { gen = (make toy (pos 2) 0).1 }),
    ))
    × (on_db_channel_post toy cfg (write (publish_json toy cfg published)) idle
        ≡ (ok tt, received cfg published idle))
publish_reaches_nodes_example =
    publish_reaches_nodes cfg online idle request (to_json toy item) (codes "alice") (codes "kk")
      item (make toy (pos 2) 0).0 (write (publish_json toy cfg published))
      (write (publish_ack_json toy cfg published)) (make toy (pos 2) 0).1 request_fields.0
      request_fields.1 alice_known request_fields.2
      (from_json-to_json toy item item-IsRepresentable) refl published-IsRepresentable refl refl

abbrev holding : World toy
holding = record online {
  posts = record { posts = (record item { id = codes "x"; from = codes "f" }) ∷ [] };
}

x_found :
    find_id (codes "x") holding.posts.posts
    ≡ some (record item { id = codes "x"; from = codes "f" })
unfolding find_id
x_found = refl

held : is_empty (get holding.posts (codes "x")).id ≡ false
held =
    ap (λ (p : Post). is_empty p.id)
      (get-find_id holding.posts (codes "x") (record item { id = codes "x"; from = codes "f" })
        (tt, tt) x_found)

delete_reaches_nodes_example :
    let from = make_hex_digest toy (codes "mallory") (codes "kk") in
    let msg = write (delete_json toy cfg (codes "mallory") (codes "kk") (codes "x")) in
    (delete_post toy cfg (codes "mallory") (codes "kk") (codes "x") holding ≡ (
      ok tt,
      send_redis
          (hset cfg.redis.removed_posts_key
              ((codes "x", write (to_json toy (get holding.posts (codes "x")))) ∷ [])
            ∷ hdel cfg.redis.posts_key (codes "x" ∷ [])
            ∷ publish cfg.redis.posts_channel_key msg
            ∷ [])
          holding,
    ))
    × (on_db_channel_post toy cfg msg holding ≡ (
      ok tt,
      with_posts (λ c. (remove_post c (codes "x") from (str_eq from (codes "admin"))).1) holding,
    ))
delete_reaches_nodes_example =
    delete_reaches_nodes cfg holding holding (codes "mallory") (codes "kk") (codes "x")
      (write (to_json toy (get holding.posts (codes "x"))))
      (write (delete_json toy cfg (codes "mallory") (codes "kk") (codes "x"))) held refl refl

-- Session 3 is logged in as "bo", and names another sender.
abbrev pub chatting : World toy
chatting = record online {
  heap = λ p.
      if p == 1 then alice else if p == 3 then record fresh { pub_hash = codes "bo" } else fresh;
}

abbrev chat : Tree
chat = object toy (
    (codes "to", chars (codes "al"))
    ∷ (codes "from", chars (codes "mallory"))
    ∷ (codes "post_id", chars (codes "x"))
    ∷ (codes "id", num (pos 4))
    ∷ [])

abbrev chat_text : Str
chat_text = write (signed toy cfg chat (codes "bo") (codes "al"))

abbrev chat_ack_text : Str
chat_ack_text = write (chat_ack toy cfg (codes "al") (codes "bo") (codes "x") (pos 4))

chat_fields :
    (string_at toy chat (codes "to") ≡ some (codes "al"))
    × (string_at toy (signed toy cfg chat (codes "bo") (codes "al")) (codes "post_id")
        ≡ some (codes "x"))
    × (int_of toy cfg (toy.at (signed toy cfg chat (codes "bo") (codes "al")) (codes "id"))
        ≡ some (pos 4))
unfolding object signed readdress int_of
chat_fields = (refl, refl, refl)

chat_receiver : lookup (receiver toy cfg (codes "al")) chatting.sessions ≡ some 1
unfolding receiver lookup
chat_receiver = refl

chat_delivered_example :
    let (r, v) = on_app_chat_msg toy cfg chat 3 chatting in
    (r ≡ ok chat_msg_ok)
    × ((v.heap 1).msg_queue ≡ kept chat_text ∷ [])
    × (v.redis ≡ [])
    × ((m : Tree) × (toy.parse chat_text ≡ some m)
        × (string_at toy m (codes "from") ≡ some (codes "bo")))
chat_delivered_example =
    chat_delivered cfg chatting chat 3 1 (codes "al") (codes "x") chat_text chat_ack_text (pos 4)
      chat_fields.0 chat_receiver refl (λ e. ground arith) refl
      (write_full (signed toy cfg chat (codes "bo") (codes "al"))) chat_fields.1 chat_fields.2 refl
      (write_full (chat_ack toy cfg (codes "al") (codes "bo") (codes "x") (pos 4)))
