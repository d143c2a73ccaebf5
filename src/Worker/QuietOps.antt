-- ===== src/Worker/QuietOps.antt =====
-- src/worker.cpp: the operations other than a login and the end of a session, with respect to
-- sessions_ and the hashes of the sessions.
use occase.Base.{ℕ, refl, true, List, [], ◌∷◌, Option, none, some, Str}
use occase.Platform.{Platform}
use occase.Exec.{modify}
use occase.Acceptor.{Binding}
use occase.Config.{Core}
use occase.Post.{Post}
use occase.Worker.State.{send_redis}
use occase.Worker.App.{
  forward_chat, acknowledge, on_app_chat_msg, forward_presence, on_app_presence, on_app_publish,
  fetch_messages, publish_token, token_step, refuse_login, finish_login, dispatch,
}
use occase.Worker.Api.{
  on_publish_impl, draw_string, publish_post, delete_post, on_visualization, on_get_user_id,
}
use occase.Worker.Db.{
  send_each, on_db_chat_msg, on_db_presence, visualize_cmd, delete_cmd, publish_cmd,
  on_db_channel_post, on_hello, on_hgetall, on_rpush, queue_fetch, on_push, pop_chat_queue,
  on_lrange, post_each, on_hvals,
}
use occase.Worker.Quiet.{
  Quiet, quiet_rules, Quiet-modify, Quiet-seq, Quiet-send_to, SameUsers-refl, Quiet-pure,
  Quiet-send_redis,
}

module _ {P : Platform} (cfg : Core) where
  open P use {Json}

  pub Quiet-forward_chat : (j : Json) (to : Str) → Quiet (forward_chat P cfg j to)
  unfolding forward_chat
  Quiet-forward_chat j to = search quiet_rules depth 16

  pub Quiet-acknowledge : (j : Json) (to : Str) (s : ℕ) → Quiet (acknowledge P cfg j to s)
  unfolding acknowledge
  Quiet-acknowledge j to s = search quiet_rules depth 16

  pub Quiet-on_app_chat_msg : (j : Json) (s : ℕ) → Quiet (on_app_chat_msg P cfg j s)
  unfolding on_app_chat_msg
  Quiet-on_app_chat_msg j s = search (quiet_rules, Quiet-forward_chat, Quiet-acknowledge) depth 16

  pub Quiet-forward_presence : (j : Json) (to : Str) → Quiet (forward_presence P cfg j to)
  unfolding forward_presence
  Quiet-forward_presence j to = search quiet_rules depth 16

  pub Quiet-on_app_presence : (j : Json) (s : ℕ) → Quiet (on_app_presence P cfg j s)
  unfolding on_app_presence
  Quiet-on_app_presence j s = search (quiet_rules, Quiet-forward_presence) depth 16

  Quiet-draw_string : (f : P.Gen → Str × P.Gen) → Quiet (draw_string P cfg f)
  unfolding draw_string
  Quiet-draw_string f = record {
    at = λ w. record { sessions = refl; hashes = λ p. refl; count = refl };
  }

  Quiet-publish_post : (user_id : Str) (p : Post) → Quiet (publish_post P cfg user_id p)
  unfolding publish_post
  Quiet-publish_post user_id p = search (quiet_rules, Quiet-draw_string) depth 16

  pub Quiet-on_publish_impl : (j : Json) → Quiet (on_publish_impl P cfg j)
  unfolding on_publish_impl
  Quiet-on_publish_impl j = search (quiet_rules, Quiet-publish_post) depth 16

  pub Quiet-on_app_publish : (j : Json) (s : ℕ) → Quiet (on_app_publish P cfg j s)
  unfolding on_app_publish
  Quiet-on_app_publish j s = search (quiet_rules, Quiet-on_publish_impl) depth 16

  pub Quiet-fetch_messages : (user_id : Str) → Quiet {P = P} (modify (fetch_messages P cfg user_id))
  unfolding fetch_messages send_redis
  Quiet-fetch_messages user_id = Quiet-modify _ (λ w. refl) (λ w. refl) (λ w. refl)

  pub Quiet-refuse_login : (s : ℕ) → Quiet (refuse_login P cfg s)
  unfolding refuse_login
  Quiet-refuse_login s = search quiet_rules depth 16

  Quiet-send_each : (p : ℕ) (ms : List Str) → Quiet (send_each P cfg p ms)
  unfolding send_each
  Quiet-send_each p [] = search quiet_rules depth 16
  Quiet-send_each p (m ∷ ms) = Quiet-seq _ _ (Quiet-send_to p m true) (Quiet-send_each p ms)

  Quiet-on_db_chat_msg : (user_id : Str) (ms : List Str) → Quiet (on_db_chat_msg P cfg user_id ms)
  unfolding on_db_chat_msg
  Quiet-on_db_chat_msg user_id ms = search (quiet_rules, Quiet-send_each) depth 16

  Quiet-on_db_presence : (user_id msg : Str) → Quiet (on_db_presence P cfg user_id msg)
  unfolding on_db_presence
  Quiet-on_db_presence user_id msg = search quiet_rules depth 16

  Quiet-visualize_cmd : (j : Json) → Quiet (visualize_cmd P cfg j)
  unfolding visualize_cmd
  Quiet-visualize_cmd j = search quiet_rules depth 16

  Quiet-delete_cmd : (j : Json) → Quiet (delete_cmd P cfg j)
  unfolding delete_cmd
  Quiet-delete_cmd j = search quiet_rules depth 16

  Quiet-publish_cmd : (j : Json) → Quiet (publish_cmd P cfg j)
  unfolding publish_cmd
  Quiet-publish_cmd j = search quiet_rules depth 16

  pub Quiet-on_db_channel_post : (msg : Str) → Quiet (on_db_channel_post P cfg msg)
  unfolding on_db_channel_post
  Quiet-on_db_channel_post msg =
      search (quiet_rules, Quiet-visualize_cmd, Quiet-delete_cmd, Quiet-publish_cmd) depth 20

  Quiet-queue_fetch : (key : Str) → Quiet (modify (queue_fetch P cfg key))
  unfolding queue_fetch send_redis
  Quiet-queue_fetch key = Quiet-modify _ (λ w. refl) (λ w. refl) (λ w. refl)

  Quiet-on_rpush : (name : Str) → Quiet (on_rpush P cfg name)
  unfolding on_rpush
  Quiet-on_rpush name = search (quiet_rules, Quiet-queue_fetch) depth 16

  pub Quiet-on_push : (v : List Str) → Quiet (on_push P cfg v)
  unfolding on_push
  Quiet-on_push (kind ∷ name ∷ payload ∷ []) =
      search (quiet_rules, Quiet-on_rpush, Quiet-on_db_presence, Quiet-on_db_channel_post) depth 16
  Quiet-on_push _ = record { at = SameUsers-refl }

  Quiet-pop_chat_queue : Quiet (modify (pop_chat_queue P cfg))
  unfolding pop_chat_queue
  Quiet-pop_chat_queue = Quiet-modify _ (λ w. refl) (λ w. refl) (λ w. refl)

  pub Quiet-on_lrange : (msgs : List Str) → Quiet (on_lrange P cfg msgs)
  unfolding on_lrange
  Quiet-on_lrange msgs = search (quiet_rules, Quiet-on_db_chat_msg, Quiet-pop_chat_queue) depth 16

  Quiet-post_each : (msgs : List Str) → Quiet (post_each P cfg msgs)
  unfolding post_each
  Quiet-post_each [] = Quiet-pure tt
  Quiet-post_each (m ∷ ms) = Quiet-seq _ _ (Quiet-on_db_channel_post m) (Quiet-post_each ms)

  pub Quiet-on_hvals : (msgs : List Str) → Quiet (on_hvals P cfg msgs)
  unfolding on_hvals
  Quiet-on_hvals msgs = search (quiet_rules, Quiet-post_each) depth 16

  pub Quiet-on_hgetall : (b : Binding) (v : List Str) → Quiet (on_hgetall P cfg b v)
  unfolding on_hgetall
  Quiet-on_hgetall b v = search quiet_rules depth 16

  pub Quiet-on_hello : Quiet (modify (on_hello P cfg))
  unfolding on_hello
  Quiet-on_hello = Quiet-send_redis _

  pub Quiet-delete_post : (user key id : Str) → Quiet (delete_post P cfg user key id)
  unfolding delete_post
  Quiet-delete_post user key id = search quiet_rules depth 16

  pub Quiet-on_visualization : (msg : Str) → Quiet (on_visualization P cfg msg)
  unfolding on_visualization
  Quiet-on_visualization msg = search quiet_rules depth 16

  pub Quiet-on_get_user_id : Quiet (on_get_user_id P cfg)
  unfolding on_get_user_id
  Quiet-on_get_user_id = search (quiet_rules, Quiet-draw_string) depth 16

  pub Quiet-token_step :
      (user_id : Str) (field : Option Json) → Quiet (token_step P cfg user_id field)
  unfolding token_step publish_token
  Quiet-token_step user_id none = Quiet-pure tt
  Quiet-token_step user_id (some field) = search quiet_rules depth 16

  pub Quiet-finish_login :
      (user_id : Str) (j : Json) (s : ℕ) → Quiet (finish_login P cfg user_id j s)
  unfolding finish_login
  Quiet-finish_login user_id j s =
      search (quiet_rules, Quiet-token_step, Quiet-fetch_messages) depth 16

  pub Quiet-dispatch : (cmd : Str) (j : Json) (s : ℕ) → Quiet (dispatch P cfg true cmd j s)
  unfolding dispatch
  Quiet-dispatch cmd j s =
      search (quiet_rules, Quiet-on_app_presence, Quiet-on_app_chat_msg, Quiet-on_app_publish) depth
        16
