-- ===== src/Examples/Clients.antt =====
-- Clients and a node on concrete states.
use occase.Base.{
  sym, List, ℕ, ◌≡◌, refl, ap, Bool-cases, inl, inr, true, false, [], ◌∷◌, ◌++◌, none, some, pos,
  negsuc, Str, codes, arith, length, is_empty, str_eq, str_eq_refl, map, eq_of_str_eq, ◌==◌,
  if◌then◌else◌,
}
use mathlib.Core.Path.{subst}
use occase.Examples.Toy.{toy, Tree, write, write_full}
use occase.Examples.Nodes.{cfg, online}
use occase.Exec.{ok, pure}
use occase.Platform.{Platform, string_at}
use occase.Assoc.{lookup}
use occase.Crypto.{make, make_key}
use occase.Crypto.Hex.{make_hex_digest_cases, digest_full}
use occase.Session.{fresh, is_logged_in, undelivered}
use occase.Worker.State.{
  World, Command, incr, rpush, expire, publish, del, lrange, subscribe, unsubscribe, hset,
  send_redis,
}
use occase.Worker.Api.{chat_admin_id_key, user_id_json, publish_json, publish_ack_json, stamp}
use occase.Worker.App.{token_json, chat_ack, login_ack}
use occase.Worker.Db.{on_lrange}
use occase.Worker.Life.{on_read, finish}
use occase.Worker.Handover.{handed_over}
use occase.Worker.Offline.{TokenSends}
use occase.Worker.Delivery.{kept}
use occase.Post.{Post}
use occase.Client.{
  UserCred, Message, message_to, message_to_json, message_from_json, make_message, make_login,
  test_post, publish_body_json, to_size, login_json,
}
use occase.Client.Flows.{Wire, Bench, cred_pub}
use occase.Client.Credentials.{cred_of, asked, cred_pub_publishes}
use occase.Client.Offline.{signed, login_fields, offline_delivered}

-- The strings that the node draws.
abbrev user : Str
user = (make toy (pos 2) 0).0

abbrev g1 : ℕ
g1 = (make toy (pos 2) 0).1

abbrev key : Str
key = (make_key toy g1).0

abbrev g2 : ℕ
g2 = (make_key toy g1).1

abbrev id : Str
id = (make toy (pos 2) g2).0

abbrev g3 : ℕ
g3 = (make toy (pos 2) g2).1

abbrev cred : UserCred
cred = cred_of toy user key

abbrev new_post : Post
new_post = stamp toy cfg (test_post cred) cred.user_id (pos 1000) id

-- The client prints, and nothing happens in its other calls.
abbrev console : Wire (Bench toy)
console = record {
  resolve = λ host port. pure tt;
  connect = pure 0;
  handshake = λ s target. pure tt;
  write = λ s text. pure tt;
  read = λ s. pure [];
  read_some = λ s. pure tt;
  close = λ s. pure tt;
  spawn = λ m. m;
  print = λ line b. (ok tt, record b { output = b.output ++ line ∷ [] });
  what = pure [];
}

cred_pub_publishes_example :
    (is_empty cred.user_id ≡ false)
    × (cred_pub toy
          (asked toy cfg (pos 0))
          console
          (codes "db")
          (record { node = online; output = [] })
        ≡ (
          ok (record {
            cred = cred;
            pack = record { admin_id = chat_admin_id_key; id = id; date = to_size (pos 1000) };
          }),
          record {
            node =
                send_redis
                  (hset (codes "posts") ((id, write (publish_json toy cfg new_post)) ∷ [])
                    ∷ publish (codes "posts_channel") (write (publish_json toy cfg new_post))
                    ∷ [])
                  (record online { gen = g3 });
            output = codes "Success: get-user-id" ∷ codes "Success: get-user-id" ∷ [];
          },
        ))
cred_pub_publishes_example =
    cred_pub_publishes toy cfg (pos 0) console (λ line b. refl) (codes "db")
      (record { node = online; output = [] }) user key id (write (user_id_json toy cfg user key))
      (write (publish_body_json toy cred)) (write (publish_json toy cfg new_post))
      (write (publish_ack_json toy cfg new_post)) g1 g2 g3 (omega arith) (omega arith) refl refl
      refl refl refl refl refl

-- Session 3 is logged in as "bo"; nobody else is there.
abbrev quiet : World toy
quiet = record online {
  sessions = [];
  chat_queue = [];
  heap = λ p. if p == 3 then record fresh { pub_hash = codes "bo" } else fresh;
}

abbrev carol : UserCred
carol = cred_of toy (codes "carol") (codes "kk")

abbrev hello : Message
hello = message_to toy carol.user_id (codes "x") (codes "hi")

abbrev hello_signed : Str
hello_signed = write (signed toy (codes "bo") hello)

abbrev hello_ack : Str
hello_ack = write (chat_ack toy cfg carol.user_id (codes "bo") (codes "x") (pos 23))

abbrev welcome : Str
welcome = write (login_ack toy cfg (codes "ok"))

carol_size : length carol.user_id ≡ 2
carol_size = elim (make_hex_digest_cases toy (codes "carol") (codes "kk")) [
  | inl (e, inl k) ↦ absurd (ground (arith, k))
  | inl (e, inr k) ↦ absurd (k refl)
  | inr (a, b, size, c) ↦ size
]

carol_user : str_eq carol.user_id chat_admin_id_key ≡ false
carol_user = elim (Bool-cases (str_eq carol.user_id chat_admin_id_key)) [
  | inl e ↦ absurd (
      omega (
        arith,
        carol_size,
        ap (λ (s : Str). length s) (eq_of_str_eq carol.user_id chat_admin_id_key e),
      ))
  | inr e ↦ e
]

nobody : lookup carol.user_id quiet.sessions ≡ none
unfolding lookup
nobody = refl

bo_logged_in : is_logged_in (quiet.heap 3) ≡ true
unfolding is_logged_in
bo_logged_in = refl

guest : is_logged_in (quiet.heap 4) ≡ false
unfolding is_logged_in
guest = refl

hello_text :
    make_message toy carol.user_id (codes "x") (codes "hi")
    ≡ some (write (message_to_json toy hello))
unfolding make_message
hello_text = refl

carol_login : make_login toy carol ≡ some (write (login_json toy carol))
unfolding make_login
carol_login = refl

offline_delivered_example :
    (w1 : World toy) × (w2 : World toy) × (w3 : World toy) × (on_read toy cfg 3
        (some (write (message_to_json toy hello)))
        quiet
      ≡ (ok tt, w1))
    × (on_read toy cfg 4 (some (write (login_json toy carol))) w1 ≡ (ok tt, w2))
    × (on_lrange toy cfg (hello_signed ∷ []) w2 ≡ (ok tt, w3))
    × (w1.redis
        ≡ incr (codes "chat_msgs_counter")
          ∷ rpush (codes "msg:" ++ carol.user_id) (hello_signed ∷ [])
          ∷ expire (codes "msg:" ++ carol.user_id) (pos 3600)
          ∷ publish (codes "notify") hello_signed
          ∷ [])
    × (w2.redis
        ≡ w1.redis
          ++ subscribe (codes "__keyspace@0__:msg:" ++ carol.user_id)
            ∷ subscribe (codes "pc:" ++ carol.user_id)
            ∷ lrange (codes "msg:" ++ carol.user_id) (pos 0) (negsuc 0)
            ∷ del (codes "msg:" ++ carol.user_id)
            ∷ [])
    × ((w3.heap 4).msg_queue ≡ record { msg = welcome; persist = false } ∷ kept hello_signed ∷ [])
    × ((j : Tree) × (toy.parse hello_signed ≡ some j)
        × (message_from_json toy j ≡ some (record hello { from = codes "bo" })))
offline_delivered_example =
    offline_delivered cfg quiet 3 4 (codes "carol") (codes "kk") (codes "x") (codes "hi")
      (write (message_to_json toy hello)) hello_signed hello_ack (write (login_json toy carol))
      welcome hello_text carol_login bo_logged_in guest (λ e. ground arith) refl refl
      (digest_full toy (codes "carol") (codes "kk") (λ e. cc) refl) carol_user nobody refl refl refl
      (write_full (signed toy (codes "bo") hello))
      (write_full (chat_ack toy cfg carol.user_id (codes "bo") (codes "x") (pos 23)))
      (write_full (login_ack toy cfg (codes "ok")))

-- Carol's session 3 ends before the second of two messages for her was written.
abbrev leaving : World toy
leaving = record quiet {
  sessions = (carol.user_id, 3) ∷ [];
  heap = λ p.
      if p == 3
      then record fresh {
        pub_hash = carol.user_id;
        msg_queue =
            record { msg = welcome; persist = false } ∷ kept (codes "hi") ∷ kept (codes "you") ∷ [];
      }
      else fresh;
}

carol_entry : lookup carol.user_id leaving.sessions ≡ some 3
unfolding lookup
carol_entry = rw (str_eq_refl carol.user_id) refl

left_over : undelivered (leaving.heap 3).msg_queue ≡ codes "hi" ∷ codes "you" ∷ []
unfolding undelivered kept
left_over = refl

next_guest : is_logged_in (leaving.heap 4) ≡ false
unfolding is_logged_in
next_guest = refl

-- A login that brings a token.
abbrev token_login : (P : Platform) → UserCred → Str → P.Json
token_login P c t = P.set (login_json P c) (codes "token") (P.of_string t)

token_login_fields :
    (P : Platform) (c : UserCred) (t : Str)
    → let j = token_login P c t in
      (string_at P j (codes "cmd") ≡ some (codes "login"))
      × (string_at P j (codes "user") ≡ some c.user)
      × (string_at P j (codes "key") ≡ some c.key)
      × (P.at j (codes "token") ≡ some (P.of_string t))
token_login_fields P c t =
    let (cmd, user, key, token) = login_fields P c in
    (simp (P.at-set) (cmd), simp (P.at-set) (user), simp (P.at-set) (key), simp (P.at-set))

abbrev carol_token_login : Tree
carol_token_login = token_login toy carol (codes "t")

abbrev carol_announced : List Command
carol_announced =
    publish (codes "notify") (write (token_json toy cfg carol.user_id (codes "t")))
    ∷ hset (codes "fcm_tokens") ((carol.user_id, codes "t") ∷ [])
    ∷ []

carol_sends :
    TokenSends toy cfg carol.user_id (toy.at carol_token_login (codes "token")) carol_announced
carol_sends =
    subst (λ o. TokenSends toy cfg carol.user_id o carol_announced)
      (sym (token_login_fields toy carol (codes "t")).3)
      (inr
        (refl, (codes "t", write (token_json toy cfg carol.user_id (codes "t")), refl, refl, refl)))

handed_over_example :
    let list = codes "msg:" ++ carol.user_id in
    let w1 = finish toy cfg 3 leaving in
    (w2 : World toy) × (w3 : World toy) × (w1.redis
      ≡ (unsubscribe (codes "__keyspace@0__:msg:" ++ carol.user_id)
          ∷ unsubscribe (codes "pc:" ++ carol.user_id)
          ∷ [])
        ++ incr (codes "chat_msgs_counter")
          ∷ rpush list (codes "hi" ∷ codes "you" ∷ [])
          ∷ expire list (pos 3600)
          ∷ publish (codes "notify") (codes "you")
          ∷ [])
    × (on_read toy cfg 4 (some (write carol_token_login)) w1 ≡ (ok tt, w2))
    × (w2.redis
        ≡ (w1.redis ++ carol_announced)
          ++ subscribe (codes "__keyspace@0__:msg:" ++ carol.user_id)
            ∷ subscribe (codes "pc:" ++ carol.user_id)
            ∷ lrange list (pos 0) (negsuc 0)
            ∷ del list
            ∷ [])
    × (on_lrange toy cfg (codes "hi" ∷ codes "you" ∷ []) w2 ≡ (ok tt, w3))
    × ((w3.heap 4).msg_queue
        ≡ record { msg = welcome; persist = false } ∷ map kept (codes "hi" ∷ codes "you" ∷ []))
handed_over_example =
    let (cmd, user, key, token) = token_login_fields toy carol (codes "t") in
    handed_over cfg leaving 3 4 3 carol_token_login (write carol_token_login) (codes "carol")
      (codes "kk") (codes "hi") welcome (codes "you" ∷ []) carol_announced refl
      (digest_full toy (codes "carol") (codes "kk") (λ e. cc) refl) carol_entry left_over
      ((λ e. cc), ((λ e. cc), tt)) refl next_guest refl
      (toy.parse-dump carol_token_login (write carol_token_login) refl) cmd user key carol_sends
      refl (write_full (login_ack toy cfg (codes "ok")))
