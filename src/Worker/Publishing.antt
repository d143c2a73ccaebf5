-- ===== src/Worker/Publishing.antt =====
-- src/worker.cpp: what a node sends on a publish and a delete, and what every node does with it.
use occase.Base.{◌≡◌, refl, false, [], ◌∷◌, map, some, Str, codes, is_empty, str_eq}
use occase.Platform.{Platform, string_at, object}
use occase.Exec.{ok}
use occase.Config.{Core}
use occase.Crypto.{make, make_hex_digest}
use occase.Post.{Post, strip_query}
use occase.Post.Json.{to_json, from_json, from_json-to_json, IsRepresentable}
use occase.Channel.{add_post, remove_post, remove_expired_posts, get}
use occase.Worker.State.{World, hset, hdel, publish, send_redis, with_posts}
use occase.Worker.Db.{on_db_channel_post, publish_cmd, delete_cmd}
use occase.Worker.Api.{
  on_publish_impl, publish_post, publish_json, publish_ack_json, draw_string, stamp, delete_post,
  delete_json, delete_found,
}

publish_json_fields :
    (P : Platform) (cfg : Core) (p : Post)
    → (string_at P (publish_json P cfg p) (codes "cmd") ≡ some (codes "publish_internal"))
      × (P.at (publish_json P cfg p) (codes "post") ≡ some (to_json P p))
unfolding publish_json object
publish_json_fields P cfg p = (simp (P.at-set, P.get_string-of_string), simp (P.at-set))

delete_json_fields :
    (P : Platform) (cfg : Core) (user key id : Str)
    → (string_at P (delete_json P cfg user key id) (codes "cmd") ≡ some (codes "delete"))
      × (string_at P (delete_json P cfg user key id) (codes "post_id") ≡ some id)
      × (string_at P (delete_json P cfg user key id) (codes "from")
          ≡ some (make_hex_digest P user key))
unfolding delete_json object
delete_json_fields P cfg user key id = (
  simp (P.at-set, P.get_string-of_string),
  simp (P.at-set, P.get_string-of_string),
  simp (P.at-set, P.get_string-of_string),
)

module _ {P : Platform} (cfg : Core) where
  -- What every node does with a published post.
  unfoldable pub received : Post → World P → World P
  received p v =
      with_posts (λ c. (remove_expired_posts c v.clock cfg.timeouts.post_expiration).1)
        (with_posts (λ c. add_post c (record p { images = map strip_query p.images })) v)

  pub receive :
      (p : Post) (msg : Str) (v : World P)
      → IsRepresentable p
      → P.dump (publish_json P cfg p) ≡ some msg
      → on_db_channel_post P cfg msg v ≡ (ok tt, received p v)
  unfolding on_db_channel_post publish_cmd received
  receive p msg v h e =
      let (cmd, field) = publish_json_fields P cfg p in
      rw (P.parse-dump _ msg e) (rw cmd (rw field (rw (from_json-to_json P p h) refl)))

  -- A publish with a user and a key that give a digest, of a post that can be read, whose numbers fit
  -- their types and whose texts can be written: the node sends the text of the stamped post to the
  -- database twice, to keep and to spread, and answers with the acknowledgement; and every node that
  -- is given the text adds the stamped post, with the queries of its images removed, to its channel.
  pub publish_reaches_nodes :
      (w v : World P) (j field : P.Json) (user key : Str) (item : Post) (id msg ack : Str)
      (gen : P.Gen)
      → string_at P j (codes "user") ≡ some user
      → string_at P j (codes "key") ≡ some key
      → is_empty (make_hex_digest P user key) ≡ false
      → P.at j (codes "post") ≡ some field
      → from_json P field ≡ some item
      → make P cfg.pwd_size w.gen ≡ (id, gen)
      → IsRepresentable (stamp P cfg item (make_hex_digest P user key) w.clock id)
      → P.dump (publish_json P cfg (stamp P cfg item (make_hex_digest P user key) w.clock id))
        ≡ some msg
      → P.dump (publish_ack_json P cfg (stamp P cfg item (make_hex_digest P user key) w.clock id))
        ≡ some ack
      → let p = stamp P cfg item (make_hex_digest P user key) w.clock id in
        (on_publish_impl P cfg j w ≡ (
          ok ack,
          send_redis
              (hset cfg.redis.posts_key ((id, msg) ∷ [])
                ∷ publish cfg.redis.posts_channel_key msg
                ∷ [])
              (record w { gen = gen }),
        ))
        × (on_db_channel_post P cfg msg v ≡ (ok tt, received p v))
  unfolding on_publish_impl publish_post draw_string publish_ack_json stamp
  publish_reaches_nodes w v j field user key item id msg ack gen u k d f i m h e a =
      (rw u (rw k (rw d (rw f (rw i (rw m (rw e (rw a refl))))))), receive _ msg v h e)

  -- A delete where `get` finds a post, by whatever user and key, when the texts can be written: the
  -- node adds the post to the removed posts of the database, takes the id out of the stored ones and
  -- spreads the delete, whoever the author is; and every node that is given the text applies
  -- `remove_post` with the user's digest, where the author counts unless it is the admin's.
  pub delete_reaches_nodes :
      (w v : World P) (user key id : Str) (text msg : Str)
      → is_empty (get w.posts id).id ≡ false
      → P.dump (delete_json P cfg user key id) ≡ some msg
      → P.dump (to_json P (get w.posts id)) ≡ some text
      → let from = make_hex_digest P user key in
        (delete_post P cfg user key id w ≡ (
          ok tt,
          send_redis
              (hset cfg.redis.removed_posts_key ((id, text) ∷ [])
                ∷ hdel cfg.redis.posts_key (id ∷ [])
                ∷ publish cfg.redis.posts_channel_key msg
                ∷ [])
              w,
        ))
        × (on_db_channel_post P cfg msg v ≡ (
          ok tt,
          with_posts (λ c. (remove_post c id from (str_eq from cfg.chat_admin_id)).1) v,
        ))
  unfolding delete_post delete_found on_db_channel_post delete_cmd
  delete_reaches_nodes w v user key id text msg g m t =
      let (cmd, post_id, from) = delete_json_fields P cfg user key id in
      (rw m (rw g (rw t refl)), rw (P.parse-dump _ msg m) (rw cmd (rw post_id (rw from refl))))
