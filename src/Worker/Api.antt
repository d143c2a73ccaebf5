-- ===== src/Worker/Api.antt =====
-- src/worker.cpp: the operations behind the HTTP interface.
use occase.Base.{
  ℕ, zero, suc, List, [], ◌∷◌, ◌++◌, ℤ, pos, Str, codes, is_empty, length, if◌then◌else◌,
}
use occase.Platform.{Platform, object, string_at}
use occase.Exec.{Exec, ok, pure, modify, gets, or_throw, ◌>>=◌, ◌>>◌}
use occase.Config.{Core}
use occase.Crypto.{make, make_key, make_hex_digest}
use occase.Post.{Post, make_dir}
use occase.Post.Sizes
use occase.Post.Json.{to_json, from_json}
use occase.Channel.{get, query, count}
use occase.Worker.State.{World, hset, hdel, hincrby, publish, send_redis}

abbrev pub chat_admin_id_key : Str
chat_admin_id_key = codes "chat_admin_id_key_0"

-- struct worker_stats
pub record WorkerStats : Type 0 where
  pub number_of_sessions : ℤ
  pub worker_post_queue_size : ℤ
  pub worker_reg_queue_size : ℤ
  pub worker_login_queue_size : ℤ
  pub db_post_queue_size : ℤ
  pub db_chat_queue_size : ℤ

module _ (P : Platform) (cfg : Core) where
  open P use {Json, Gen, parse, dump, at, of_string, of_int}

  unfoldable pub search_posts : Post → World P → List Post
  search_posts p w = query w.posts p cfg.max_posts_on_search

  -- `ret` is the indeterminate value of `channel::count`.
  unfoldable pub count_posts : ℤ → Post → World P → ℤ
  count_posts ret p w = count ret w.posts p

  unfoldable pub get_stats : World P → WorkerStats
  get_stats w = record {
    number_of_sessions = w.number_of_sessions;
    worker_post_queue_size = pos 0;
    worker_reg_queue_size = pos 0;
    worker_login_queue_size = pos 0;
    db_post_queue_size = pos 0;
    db_chat_queue_size = pos (length w.chat_queue);
  }

  unfoldable pub delete_json : Str → Str → Str → Json
  delete_json user key post_id = object P (
      (codes "cmd", of_string (codes "delete"))
      ∷ (codes "from", of_string (make_hex_digest P user key))
      ∷ (codes "post_id", of_string post_id)
      ∷ [])

  unfoldable pub delete_found : Str → Str → Post → Exec (World P) (Unit {0})
  delete_found post_id msg p = if is_empty p.id then pure tt else (do
    post_str ← or_throw (dump (to_json P p))
    modify (
        send_redis (
          hset cfg.redis.removed_posts_key ((post_id, post_str) ∷ [])
          ∷ hdel cfg.redis.posts_key (post_id ∷ [])
          ∷ publish cfg.redis.posts_channel_key msg
          ∷ [])))

  unfoldable pub delete_post : Str → Str → Str → Exec (World P) (Unit {0})
  unfolding delete_json delete_found
  delete_post user key post_id = do
    msg ← or_throw (dump (delete_json user key post_id))
    p ← gets (λ (w : World P). get w.posts post_id)
    delete_found post_id msg p

  credit : Str → Str
  credit filename =
      let path : Str =
        codes "/posts/imgs" ++ make_dir filename ++ codes "/" ++ filename ++ codes ".jpeg" in
      cfg.mms_host ++ path ++ codes "?hmac=" ++ make_hex_digest P path cfg.mms_key

  -- `std::generate_n`
  credits : ℕ → Gen → List Str × Gen
  credits zero gen = ([], gen)
  credits (suc n) gen =
      let (filename, gen') = make P (pos Sizes.mms_filename_size) gen in
      let (rest, gen'') = credits n gen' in (credit filename ∷ rest, gen'')

  unfoldable pub get_upload_credit : World P → List Str × World P
  unfolding credit credits
  get_upload_credit w =
      let (list, gen) = credits Sizes.mms_filename_size w.gen in (list, record w { gen = gen })

  unfoldable pub on_visualization : Str → Exec (World P) (Unit {0})
  on_visualization msg = do
    j ← or_throw (parse msg)
    post_id ← or_throw (string_at P j (codes "post_id"))
    modify (
        send_redis (
          publish cfg.redis.posts_channel_key msg
          ∷ hincrby cfg.redis.post_visualizations_key post_id (pos 1)
          ∷ []))

  -- A draw from the worker's generator.
  unfoldable pub draw_string : (Gen → Str × Gen) → Exec (World P) Str
  draw_string f w = let (s, gen) = f w.gen in (ok s, record w { gen = gen })

  unfoldable pub user_id_json : Str → Str → Json
  user_id_json user key = object P (
      (codes "result", of_string (codes "ok"))
      ∷ (codes "user", of_string user)
      ∷ (codes "key", of_string key)
      ∷ (codes "user_id", of_string (make_hex_digest P user key))
      ∷ [])

  unfoldable pub on_get_user_id : Exec (World P) Str
  on_get_user_id = do
    user ← draw_string (make P cfg.pwd_size)
    key ← draw_string (make_key P)
    or_throw (dump (user_id_json user key))

  unfoldable publish_fail_json : Json
  publish_fail_json = object P (
      (codes "cmd", of_string (codes "publish_ack"))
      ∷ (codes "result", of_string (codes "fail"))
      ∷ (codes "reason", of_string (codes "Invalid user id."))
      ∷ [])

  -- The message that the nodes read in `on_db_channel_post`.
  unfoldable pub publish_json : Post → Json
  publish_json p =
      object P
        ((codes "cmd", of_string (codes "publish_internal")) ∷ (codes "post", to_json P p) ∷ [])

  unfoldable pub publish_ack_json : Post → Json
  publish_ack_json p = object P (
      (codes "cmd", of_string (codes "publish_ack"))
      ∷ (codes "result", of_string (codes "ok"))
      ∷ (codes "id", of_string p.id)
      ∷ (codes "date", of_int p.date)
      ∷ (codes "admin_id", of_string chat_admin_id_key)
      ∷ [])

  -- The post as it is published: what the client may not choose is set here.
  unfoldable pub stamp : Post → Str → ℤ → Str → Post
  stamp p user_id now id = record p { from = user_id; date = now; id = id; visualizations = pos 0 }

  unfoldable pub publish_post : Str → Post → Exec (World P) Str
  unfolding publish_ack_json
  publish_post user_id item = do
    now ← gets (λ (w : World P). w.clock)
    id ← draw_string (make P cfg.pwd_size)
    let p : Post = stamp item user_id now id
    msg ← or_throw (dump (publish_json p))
    modify (
        send_redis (
          hset cfg.redis.posts_key ((p.id, msg) ∷ [])
          ∷ publish cfg.redis.posts_channel_key msg
          ∷ []))
    or_throw (dump (publish_ack_json p))

  unfoldable pub on_publish_impl : Json → Exec (World P) Str
  unfolding publish_fail_json
  on_publish_impl j = do
    user ← or_throw (string_at P j (codes "user"))
    key ← or_throw (string_at P j (codes "key"))
    let user_id = make_hex_digest P user key
    if is_empty user_id then or_throw (dump publish_fail_json) else (do
      field ← or_throw (at j (codes "post"))
      item ← or_throw (from_json P field)
      publish_post user_id item)
