-- ===== src/Worker/Db.antt =====
-- src/worker.cpp: what the worker does with the messages of the database.
use occase.Base.{
  ℕ, Bool, true, false, not, ◌&&◌, List, [], ◌∷◌, ◌++◌, Option, none, some, ℤ, pos, negsuc, Str,
  codes, str_eq, maybe, starts_with, is_empty, length, drop, ltb, if◌then◌else◌,
}
use occase.Platform.{Platform, string_at}
use occase.Exec.{
  Exec, pure, modify, gets, or_throw, assert, catching, noexcept, aborted, ◌>>=◌, ◌>>◌,
}
use occase.Acceptor.{Binding}
use occase.Config.{Core}
use occase.Post.Json.{from_json}
use occase.Channel.{
  add_post, remove_post, on_visualization, remove_expired_posts, load_visualizations,
}
use occase.Worker.Stoi.{stoi}
use occase.Worker.State.{
  World, hvals, hgetall, subscribe, lrange, del, send_redis, with_posts, open_acceptor, send_to,
  store_chat_msg, find_session, lock,
}

module _ (P : Platform) (cfg : Core) where
  open P use {Json, parse, at}

  -- `std::for_each` over the messages, each sent to the session to be kept.
  unfoldable pub send_each : ℕ → List Str → Exec (World P) (Unit {0})
  send_each p [] = pure tt
  send_each p (m ∷ ms) = do send_to p m true; send_each p ms

  unfoldable pub on_db_chat_msg : Str → List Str → Exec (World P) (Unit {0})
  on_db_chat_msg user_id msgs = do
    match ← find_session user_id
    maybe match (modify (store_chat_msg cfg msgs user_id))
        (λ p. do online ← lock p; assert online; send_each p msgs)

  unfoldable pub on_db_presence : Str → Str → Exec (World P) (Unit {0})
  on_db_presence user_id msg = do
    match ← find_session user_id
    maybe match (pure tt) (λ p. do online ← lock p; assert online; send_to p msg false)

  -- The three commands of the posts channel.
  unfoldable pub visualize_cmd : Json → Exec (World P) (Unit {0})
  visualize_cmd j = do
    post_id ← or_throw (string_at P j (codes "post_id"))
    modify (with_posts (λ c. on_visualization c post_id))

  unfoldable pub delete_cmd : Json → Exec (World P) (Unit {0})
  delete_cmd j = do
    post_id ← or_throw (string_at P j (codes "post_id"))
    from ← or_throw (string_at P j (codes "from"))
    let ignore_owner = str_eq from cfg.chat_admin_id
    modify (with_posts (λ c. (remove_post c post_id from ignore_owner).1))

  unfoldable pub publish_cmd : Json → Exec (World P) (Unit {0})
  publish_cmd j = do
    field ← or_throw (at j (codes "post"))
    item ← or_throw (from_json P field)
    now ← gets (λ (w : World P). w.clock)
    modify (with_posts (λ c. add_post c item))
    modify (with_posts (λ c. (remove_expired_posts c now cfg.timeouts.post_expiration).1))

  unfoldable pub on_db_channel_post : Str → Exec (World P) (Unit {0})
  on_db_channel_post msg = catching tt (do
    j ← or_throw (parse msg)
    cmd ← or_throw (string_at P j (codes "cmd"))
    if str_eq cmd (codes "visualization")
        then visualize_cmd j
        else if str_eq cmd (codes "delete")
        then delete_cmd j
        else if str_eq cmd (codes "publish_internal")
        then publish_cmd j
        else pure tt)

  unfoldable pub on_hello : World P → World P
  on_hello w = send_redis (hvals cfg.redis.posts_key ∷ subscribe cfg.redis.posts_channel_key ∷ []) w

  -- The pairs of the reply; an entry at an even place without a next one is not reached.
  pairs : List Str → Option (List (Str × ℤ))
  pairs (k ∷ n ∷ v) = elim (stoi n) [
    | none ↦ none
    | some i ↦ elim (pairs v) [ none ↦ none | some rest ↦ some ((k, i) ∷ rest) ]
  ]
  pairs _ = some []

  is_even : List Str → Bool
  is_even [] = true
  is_even (k ∷ []) = false
  is_even (k ∷ n ∷ v) = is_even v

  unfoldable pub on_hgetall : Binding → List Str → Exec (World P) (Unit {0})
  unfolding pairs is_even
  on_hgetall b v = noexcept (do
    assert (is_even v)
    counts ← or_throw (pairs v)
    modify (with_posts (λ c. load_visualizations c counts))
    open_acceptor b)

  -- `s.substr(pos)`, which throws behind the end.
  unfoldable pub substr : Str → ℕ → Option Str
  substr s n = if ltb (length s) n then none else some (drop n s)

  -- A message waits for the user: fetch the list and delete it. The request's function also keeps
  -- the key for the reply.
  unfoldable pub queue_fetch : Str → World P → World P
  queue_fetch key w =
      send_redis (lrange key (pos 0) (negsuc 0) ∷ del key ∷ [])
        (record w { chat_queue = w.chat_queue ++ key ∷ [] })

  unfoldable pub on_rpush : Str → Exec (World P) (Unit {0})
  on_rpush name = do
    user_id ← or_throw (substr name (length cfg.redis.user_notify_prefix))
    assert (not (is_empty user_id))
    modify (queue_fetch (cfg.redis.chat_msg_prefix ++ user_id))

  unfoldable pub on_push : List Str → Exec (World P) (Unit {0})
  on_push (kind ∷ name ∷ payload ∷ []) =
      let prefix = cfg.redis.presence_channel_prefix in
      noexcept (
        if str_eq kind (codes "message") && str_eq payload (codes "rpush")
        then on_rpush name
        else if str_eq kind (codes "message") && starts_with name prefix
        then on_db_presence (drop (length prefix) name) payload
        else if str_eq kind (codes "message") && str_eq name cfg.redis.posts_channel_key
        then on_db_channel_post payload
        else pure tt)
  on_push _ = λ w. (aborted, w)

  unfoldable pub pop_chat_queue : World P → World P
  pop_chat_queue w = record w { chat_queue = drop 1 w.chat_queue }

  unfoldable pub front : List Str → Str
  front [] = []
  front (q ∷ qs) = q

  unfoldable pub on_lrange : List Str → Exec (World P) (Unit {0})
  unfolding front
  on_lrange msgs = noexcept (do
    queue ← gets (λ (w : World P). w.chat_queue)
    assert (not (is_empty queue))
    on_db_chat_msg (front queue) msgs
    modify pop_chat_queue)

  unfoldable pub post_each : List Str → Exec (World P) (Unit {0})
  post_each [] = pure tt
  post_each (m ∷ ms) = do on_db_channel_post m; post_each ms

  unfoldable pub on_hvals : List Str → Exec (World P) (Unit {0})
  on_hvals msgs =
      noexcept
        (do post_each msgs; modify (send_redis (hgetall cfg.redis.post_visualizations_key ∷ [])))
