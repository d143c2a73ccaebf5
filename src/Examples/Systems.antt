-- ===== src/Examples/Systems.antt =====
-- The node with the notifier, and the start of a node, on concrete states.
use occase.Base.{
  Bool, Option, not, ◌&&◌, ◌||◌, arith, is_empty, ◌++◌, ◌↔◌, Bool-cases, inl, inr, map, add_ℕ,
  length, ◌≡◌, refl, true, false, [], ◌∷◌, none, some, pos, negsuc, Str, codes, ◌==◌, if◌then◌else◌,
  maybe,
}
use occase.Examples.Toy.{toy, Tree, chars, num, write, write_full, parse_written}
use occase.Examples.Nodes.{cfg, online}
use occase.Examples.Services.{
  notify_cfg, known, waiting, notification, al_known, al_token, fcm_valid, notification_made,
  body_cut, in_time,
}
use occase.Platform.{object, string_at}
use occase.Exec.{ok}
use occase.Assoc.{lookup}
use occase.Session.{fresh, chat_msg_ok}
use occase.Worker.State.{
  World, incr, rpush, expire, publish, subscribe, lrange, del, hset, send_redis,
}
use occase.Worker.App.{int_of, chat_ack, on_app_chat_msg, fetch_messages, token_step, token_json}
use occase.Notifier.{fresh_entry, on_push, on_hgetall, run}
use occase.Notifier.Timers.{story}
use occase.System.Tokens.{login_token_known}
use occase.System.Notices.{offline_notified}
use mathlib.Core.List.{Memᴰ}
use occase.Post.{Post, empty_post}
use occase.Post.Json.{to_json, from_json-to_json, IsRepresentable}
use occase.Channel.Query.{select, Extends}
use occase.Http.{Response, post, process_request, int_to_string}
use occase.Http.Search.{search_answers}
use occase.Session.{enqueue, presence_ok, undelivered}
use occase.Worker.State.{with_session}
use occase.Worker.App.{on_app_presence}
use occase.Worker.Db
use occase.Worker.Presence.{presence_reaches_node}
use occase.Log.{notice}
use occase.Program.{ConfigAll, Outside, parsed, go_on, fresh_process, main}
use occase.Program.Status.{main_status, outcome, raised, fine}

abbrev token_text : Str
token_text = write (token_json toy cfg (codes "bo") (codes "t"))

bo_unknown : lookup (codes "bo") waiting.tokens ≡ none
unfolding lookup
bo_unknown = refl

login_token_known_example :
    (token_step toy cfg (codes "bo") (some (chars (codes "t"))) online ≡ (
      ok tt,
      send_redis
          (publish (codes "notify") token_text
            ∷ hset (codes "fcm_tokens") ((codes "bo", codes "t") ∷ [])
            ∷ [])
          online,
    ))
    × (let (r, v) =
          on_push toy notify_cfg (codes "message" ∷ codes "notify" ∷ token_text ∷ []) waiting in
        (r ≡ ok tt)
        × (lookup (codes "bo") v.tokens
            ≡ some (
                maybe
                  (lookup (codes "bo") waiting.tokens)
                  (fresh_entry toy (codes "t"))
                  (λ e. record e { token = codes "t" }))))
    × (lookup (codes "bo") (on_hgetall toy notify_cfg (codes "bo" ∷ codes "t" ∷ []) waiting).tokens
        ≡ some (fresh_entry toy (codes "t")))
login_token_known_example =
    login_token_known cfg notify_cfg online waiting waiting (chars (codes "t")) (codes "bo")
      (codes "t") token_text refl refl refl refl refl bo_unknown

-- Session 3 is logged in as "bo"; nobody else is there.
abbrev alone : World toy
alone = record online {
  sessions = [];
  heap = λ p. if p == 3 then record fresh { pub_hash = codes "bo" } else fresh;
}

abbrev chat : Tree
chat = object toy (
    (codes "cmd", chars (codes "message"))
    ∷ (codes "to", chars (codes "al"))
    ∷ (codes "post_id", chars (codes "x"))
    ∷ (codes "id", num (pos 4))
    ∷ (codes "body", chars (codes "hello"))
    ∷ (codes "nick", chars (codes "bob"))
    ∷ [])

chat_fields :
    (string_at toy chat (codes "cmd") ≡ some (codes "message"))
    × (string_at toy chat (codes "to") ≡ some (codes "al"))
    × (string_at toy chat (codes "post_id") ≡ some (codes "x"))
    × (int_of toy cfg (toy.at chat (codes "id")) ≡ some (pos 4))
    × (string_at toy chat (codes "body") ≡ some (codes "hello"))
    × (string_at toy chat (codes "nick") ≡ some (codes "bob"))
unfolding object int_of
chat_fields = (refl, refl, refl, refl, refl, refl)

abbrev text : Str
text = write (toy.set chat (codes "from") (chars (codes "bo")))

al_absent : lookup (codes "al") alone.sessions ≡ none
unfolding lookup
al_absent = refl

offline_notified_example :
    let (r, v) = on_app_chat_msg toy cfg chat 3 alone in
    let (q, m) =
      run toy notify_cfg (story notify_cfg text (codes "msg:al") (pos 105) (codes "al")) waiting in
    (r ≡ ok chat_msg_ok)
    × (v.redis
        ≡ incr (codes "chat_msgs_counter")
          ∷ rpush (codes "msg:al") (text ∷ [])
          ∷ expire (codes "msg:al") (pos 3600)
          ∷ publish (codes "notify") text
          ∷ [])
    × ((fetch_messages toy cfg (codes "al") online).redis
        ≡ subscribe (codes "__keyspace@0__:msg:al")
          ∷ subscribe (codes "pc:al")
          ∷ lrange (codes "msg:al") (pos 0) (negsuc 0)
          ∷ del (codes "msg:al")
          ∷ [])
    × (q ≡ ok tt)
    × (m.sent ≡ (codes "al", notification) ∷ [])
offline_notified_example =
    offline_notified cfg notify_cfg alone online waiting chat 3 known (pos 105) (pos 4) (codes "al")
      (codes "x") text (write (chat_ack toy cfg (codes "al") (codes "bo") (codes "x") (pos 4)))
      (codes "hello") (codes "bob") (codes "he") notification chat_fields.0 chat_fields.1
      chat_fields.2 chat_fields.3 chat_fields.4 chat_fields.5 refl al_absent refl refl
      (write_full (chat_ack toy cfg (codes "al") (codes "bo") (codes "x") (pos 4))) (λ e. cc) refl
      fcm_valid al_known al_token in_time body_cut notification_made

abbrev config_all : ConfigAll
config_all = record {
  help = go_on;
  ssl_cert_file = codes "cert";
  ssl_priv_key_file = codes "key";
  ssl_dh_file = codes "dh";
  logfilter = notice;
  core = cfg;
  handshake_timeout = pos 30;
  idle_timeout = pos 30;
  post_interval = pos 10;
  post_expiration = pos 100;
}

-- A formatting library that refuses every brace: a text without braces is its own format.
abbrev plain : Str → Bool
plain [] = true
plain (c ∷ s) = not (c == b'{' || c == b'}') && plain s

abbrev plain_format : Str → Option Str
plain_format s = if plain s then some s else none

-- The private key can not be used, and the message of the exception has a brace.
abbrev outside : Outside
outside = record {
  format = plain_format;
  reading =
      parsed
        (record { help = false; git_sha1 = false; cfg = config_all; logfilter_str = codes "info" });
  sodium = true;
  ssl = record {
    password_callback = none;
    options = none;
    certificate_chain = none;
    private_key = some (codes "bad {key");
    tmp_dh = none;
  };
  running = none;
}

main_status_example :
    (main 2 outside fresh_process).0
    ≡ outcome plain_format
        (fine 2 outside.reading outside)
        (raised 2 notice outside.reading outside)
main_status_example = main_status 2 outside fresh_process

-- A node with two posts, and a search for one location.
abbrev first : Post
first = record empty_post { id = codes "a"; location = pos 1 ∷ pos 2 ∷ [] }

abbrev wanted : Post
wanted = record empty_post { location = pos 1 ∷ [] }

abbrev two_posts : World toy
two_posts = record online {
  posts = record {
    posts = first ∷ (record empty_post { id = codes "b"; location = pos 3 ∷ [] }) ∷ [];
  };
}

wanted-IsRepresentable : IsRepresentable wanted
wanted-IsRepresentable = record {
  date = omega arith;
  visualizations = omega arith;
  location = (omega arith, tt);
  product = tt;
  ex_details = tt;
  in_details = tt;
  range_values = tt;
}

abbrev search_json : Tree
search_json = object toy ((codes "post", to_json toy wanted) ∷ [])

search_field : toy.at search_json (codes "post") ≡ some (to_json toy wanted)
unfolding object
search_field = refl

search_text : is_empty (write search_json) ≡ false
search_text = elim (Bool-cases (is_empty (write search_json))) [
  | inl e ↦ absurd (write_full search_json (empty_nil (write search_json) e))
  | inr e ↦ e
]
  where
    empty_nil : (s : Str) → is_empty s ≡ true → s ≡ []
    empty_nil [] e = refl
    empty_nil (c ∷ s) e = cc

search_answers_example :
    let found = select wanted two_posts.posts.posts in
    ((r : Response) × (r.body
        ≡ write (object toy ((codes "posts", toy.of_list (map (to_json toy) found)) ∷ []))
          ++ 13 ∷ 10 ∷ [])
      × (process_request toy cfg
            (pos 0)
            (record { method = post; target = codes "/posts/search"; body = write search_json })
            two_posts
          ≡ (ok r, two_posts)))
    × ((r : Response) × (r.body ≡ int_to_string (add_ℕ (pos 0) (length found)) ++ 13 ∷ 10 ∷ [])
        × (process_request toy cfg
              (pos 0)
              (record { method = post; target = codes "/posts/count"; body = write search_json })
              two_posts
            ≡ (ok r, two_posts)))
    × ((p : Post)
        → Memᴰ p found
          ↔ (Memᴰ p two_posts.posts.posts × Extends p.location (pos 1 ∷ []) × Extends p.product []))
search_answers_example =
    search_answers toy cfg (pos 0) two_posts (write search_json)
      (write (
        object toy (
          (codes "posts", toy.of_list (map (to_json toy) (select wanted two_posts.posts.posts)))
          ∷ [])))
      search_json (to_json toy wanted) wanted search_text (parse_written search_json _ refl)
      search_field (from_json-to_json toy wanted wanted-IsRepresentable) refl

abbrev here : Tree
here = object toy ((codes "cmd", chars (codes "presence")) ∷ (codes "to", chars (codes "al")) ∷ [])

abbrev here_text : Str
here_text = write (toy.set here (codes "from") (chars (codes "bo")))

here_to : string_at toy here (codes "to") ≡ some (codes "al")
unfolding object
here_to = refl

al_online : lookup (codes "al") online.sessions ≡ some 1
unfolding lookup
al_online = refl

presence_reaches_node_example :
    let u = with_session 1 (enqueue here_text false) online in
    (on_app_presence toy cfg here 3 alone
      ≡ (ok presence_ok, send_redis (publish (codes "pc:al") here_text ∷ []) alone))
    × (Db.on_push toy cfg (codes "message" ∷ codes "pc:al" ∷ here_text ∷ []) online ≡ (ok tt, u))
    × ((u.heap 1).msg_queue
        ≡ (online.heap 1).msg_queue ++ record { msg = here_text; persist = false } ∷ [])
    × (undelivered (u.heap 1).msg_queue ≡ undelivered (online.heap 1).msg_queue)
presence_reaches_node_example =
    presence_reaches_node cfg alone online here 3 1 (codes "al") here_text here_to refl al_absent
      refl (write_full (toy.set here (codes "from") (chars (codes "bo")))) refl al_online refl
