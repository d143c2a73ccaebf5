-- ===== src/Program/Prefixes.antt =====
-- src/occase-db.cpp (get_cfg) and src/worker.cpp: the prefixes that are derived from the options, against
-- the keys and channels that the node uses.
use occase.Base.{
  ◌≡◌, refl, ap, sym, ◌∙◌, true, false, List, [], ◌∷◌, ◌++◌, pos, negsuc, Str, codes, append_assoc,
  ℕ, length, ◌==◌, ◌≢◌,
}
use occase.Platform.{Platform}
use occase.Config.{derive_prefixes}
use occase.Worker.State.{
  World, subscribe, lrange, del, incr, rpush, expire, publish, send_redis, store_chat_msg, last_or,
}
use occase.Worker.App.{fetch_messages}
use occase.Worker.Db.{on_push, queue_fetch}
use occase.Worker.Delivery.{push_fetches}
use occase.Program.{Options, complete, get_cfg}
use occase.Exec.{ok}

-- The channel on which redis announces the changes of a key in its database 0, where notifications are
-- enabled.
abbrev pub keyspace_channel : Str → Str → Str
keyspace_channel notify_prefix key = notify_prefix ++ codes "0__:" ++ key

-- The prefix of the channels that a node subscribes to, for a user.
channel_of_key :
    (o : Options) (user : Str)
    → let redis = (complete o).core.redis in
      redis.user_notify_prefix ++ user
      ≡ keyspace_channel redis.notify_prefix (redis.chat_msg_prefix ++ user)
unfolding complete derive_prefixes
channel_of_key o user =
    let redis = o.cfg.core.redis in
    append_assoc (redis.notify_prefix ++ codes "0__:") (redis.chat_msg_prefix ++ codes ":") user

completed :
    (key_bytes : ℕ) (o : Options)
    → o.help ≡ false
    → o.git_sha1 ≡ false
    → (length o.cfg.core.mms_key == key_bytes) ≡ true
    → get_cfg key_bytes o ≡ complete o
unfolding get_cfg
completed key_bytes o h g m = rw (h, g, m) refl

-- With the configuration that get_cfg makes of options that ask for no help and have a key of the right
-- length: the channel that a login of a user subscribes to is that on which redis announces the key
-- under which messages for him are stored, and where messages are waiting already they are fetched
-- from that key; and when redis announces there that messages were stored, any node that gets this
-- fetches exactly that key.
pub stored_announced :
    {P : Platform} (key_bytes : ℕ) (o : Options) (user m : Str) (ms : List Str) (v w : World P)
    → o.help ≡ false
    → o.git_sha1 ≡ false
    → (length o.cfg.core.mms_key == key_bytes) ≡ true
    → user ≢ []
    → let cfg = (get_cfg key_bytes o).core in
      let key = cfg.redis.chat_msg_prefix ++ user in
      let channel = keyspace_channel cfg.redis.notify_prefix key in
      ((fetch_messages P cfg user w).redis
        ≡ w.redis
          ++ subscribe channel
            ∷ subscribe (cfg.redis.presence_channel_prefix ++ user)
            ∷ lrange key (pos 0) (negsuc 0)
            ∷ del key
            ∷ [])
      × ((store_chat_msg cfg (m ∷ ms) user w).redis
          ≡ w.redis
            ++ incr cfg.redis.chat_msgs_counter_key
              ∷ rpush key (m ∷ ms)
              ∷ expire key cfg.redis.chat_msg_exp_time
              ∷ publish cfg.redis.notify_channel (last_or m ms)
              ∷ [])
      × (on_push P cfg (codes "message" ∷ channel ∷ codes "rpush" ∷ []) v
          ≡ (ok tt, queue_fetch P cfg key v))
unfolding fetch_messages store_chat_msg send_redis
stored_announced {P = P} key_bytes o user m ms v w h g k n =
    let c = complete o in
    let e = channel_of_key o user in
    rw (completed key_bytes o h g k) (
      ap
          (λ (channel : Str).
            w.redis
            ++ subscribe channel
              ∷ subscribe (c.core.redis.presence_channel_prefix ++ user)
              ∷ lrange (c.core.redis.chat_msg_prefix ++ user) (pos 0) (negsuc 0)
              ∷ del (c.core.redis.chat_msg_prefix ++ user)
              ∷ [])
          e,
      refl,
      ap (λ (channel : Str). on_push P c.core (codes "message" ∷ channel ∷ codes "rpush" ∷ []) v)
            (sym e)
          ∙ push_fetches c.core v user n,
    )
