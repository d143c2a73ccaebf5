-- ===== src/System/Notices.antt =====
-- src/worker.cpp and src/notifier.cpp: a chat message that the node stores, and the notification that
-- it leads to.
use occase.Base.{
  ℕ, ◌≡◌, ◌≢◌, refl, ◌∙◌, ap, true, false, [], ◌∷◌, ◌++◌, none, some, ℤ, pos, negsuc, Str, codes,
  str_eq, length, length-append, arith,
}
use occase.Platform.{Platform, string_at}
use occase.Exec.{ok}
use occase.Assoc.{lookup}
use occase.Config.{Core}
use occase.Session.{enqueue, chat_msg_ok}
use occase.Worker.State.{
  World, incr, rpush, expire, publish, subscribe, lrange, del, with_session, store_chat_msg,
  send_redis,
}
use occase.Worker.Api.{chat_admin_id_key}
use occase.Worker.App.{int_of, chat_ack, on_app_chat_msg, fetch_messages}
use occase.Worker.Offline.{chat_stored}
use occase.Notifier.{
  Notifier, UserEntry, Config, has_token, is_fcm_valid, later, int_leb, cut, make_ntf_body, run,
}
use occase.Notifier.Timers.{story, notified}

-- A field other than "from" is as the client wrote it.
signed_fields :
    (P : Platform) (j : P.Json) (from : Str)
    → let signed = P.set j (codes "from") (P.of_string from) in
      (string_at P signed (codes "cmd") ≡ string_at P j (codes "cmd"))
      × (string_at P signed (codes "to") ≡ string_at P j (codes "to"))
      × (string_at P signed (codes "post_id") ≡ string_at P j (codes "post_id"))
      × (P.at signed (codes "id") ≡ P.at j (codes "id"))
      × (string_at P signed (codes "body") ≡ string_at P j (codes "body"))
      × (string_at P signed (codes "nick") ≡ string_at P j (codes "nick"))
signed_fields P j from = (
  simp (P.at-set),
  simp (P.at-set),
  simp (P.at-set),
  simp (P.at-set),
  simp (P.at-set),
  simp (P.at-set),
)

key_differs : (p to : Str) → p ≢ [] → p ++ to ≢ to
key_differs [] to n e = absurd (n refl)
key_differs (c ∷ p) to n e = omega (arith, length-append p to, ap (λ (s : Str). length s) e)

module _ {P : Platform} (cfg : Core) (ncfg : Config) where
  fetched_key :
      (to : Str) (u : World P)
      → (fetch_messages P cfg to u).redis
        ≡ u.redis
          ++ subscribe (cfg.redis.user_notify_prefix ++ to)
            ∷ subscribe (cfg.redis.presence_channel_prefix ++ to)
            ∷ lrange (cfg.redis.chat_msg_prefix ++ to) (pos 0) (negsuc 0)
            ∷ del (cfg.redis.chat_msg_prefix ++ to)
            ∷ []
  unfolding fetch_messages send_redis
  fetched_key to u = refl

  stored_redis :
      (s : ℕ) (ack text to : Str) (w : World P)
      → (with_session s (enqueue ack false) (store_chat_msg cfg (text ∷ []) to w)).redis
        ≡ w.redis
          ++ incr cfg.redis.chat_msgs_counter_key
            ∷ rpush (cfg.redis.chat_msg_prefix ++ to) (text ∷ [])
            ∷ expire (cfg.redis.chat_msg_prefix ++ to) cfg.redis.chat_msg_exp_time
            ∷ publish cfg.redis.notify_channel text
            ∷ []
  unfolding with_session store_chat_msg send_redis
  stored_redis s ack text to w = refl

  -- A session's message, with a body and a nick, to a user who has no session on the node, is not the
  -- admin and whose token the notifier has; the prefix of the keys is not empty, the notifier has the
  -- node's notify channel and a configured service, no text is refused, and the acknowledgement is not
  -- empty. The node stores the message and publishes its text on the channel; a login of the user on
  -- any node fetches and deletes the key under which it is stored. A notifier that is given the text
  -- and then the deleted key sends the user one notification when the time of his timer is reached,
  -- with the nick and the message cut to the greatest size: the deletion does not cancel it.
  pub offline_notified :
      (w u : World P) (n : Notifier P) (j : P.Json) (s : ℕ) (e : UserEntry P) (now id : ℤ)
      (to post_id text ack body nick cut_body ntf : Str)
      → string_at P j (codes "cmd") ≡ some (codes "message")
      → string_at P j (codes "to") ≡ some to
      → string_at P j (codes "post_id") ≡ some post_id
      → int_of P cfg (P.at j (codes "id")) ≡ some id
      → string_at P j (codes "body") ≡ some body
      → string_at P j (codes "nick") ≡ some nick
      → str_eq to chat_admin_id_key ≡ false
      → lookup to w.sessions ≡ none
      → P.dump (P.set j (codes "from") (P.of_string (w.heap s).pub_hash)) ≡ some text
      → P.dump (chat_ack P cfg to (w.heap s).pub_hash post_id id) ≡ some ack
      → ack ≢ []
      → cfg.redis.chat_msg_prefix ≢ []
      → ncfg.redis_notify_channel ≡ cfg.redis.notify_channel
      → is_fcm_valid ncfg.ntf ≡ true
      → lookup to n.tokens ≡ some e
      → has_token e ≡ true
      → int_leb (later n.clock ncfg.wait_interval) now ≡ true
      → cut body ncfg.max_msg_size ≡ some cut_body
      → make_ntf_body P nick cut_body e.token ≡ some ntf
      → let key = cfg.redis.chat_msg_prefix ++ to in
        let (r, v) = on_app_chat_msg P cfg j s w in
        let (q, m) = run P ncfg (story ncfg text key now to) n in
        (r ≡ ok chat_msg_ok)
        × (v.redis
            ≡ w.redis
              ++ incr cfg.redis.chat_msgs_counter_key
                ∷ rpush key (text ∷ [])
                ∷ expire key cfg.redis.chat_msg_exp_time
                ∷ publish ncfg.redis_notify_channel text
                ∷ [])
        × ((fetch_messages P cfg to u).redis
            ≡ u.redis
              ++ subscribe (cfg.redis.user_notify_prefix ++ to)
                ∷ subscribe (cfg.redis.presence_channel_prefix ++ to)
                ∷ lrange key (pos 0) (negsuc 0)
                ∷ del key
                ∷ [])
        × (q ≡ ok tt)
        × (m.sent ≡ n.sent ++ (to, ntf) ∷ [])
  offline_notified w u n j s e now id to post_id text ack body nick cut_body ntf c t p i b k a l d f
        g h ch v o x z y m =
      let from : Str = (w.heap s).pub_hash in
      let (cmd, receiver, post, ident, text_body, name) = signed_fields P j from in
      let stored =
        chat_stored cfg w j s to post_id text ack id t a l d (post ∙ p)
          (ap (λ o. int_of P cfg o) ident ∙ i) f g in
      let (q, sent) =
        notified ncfg n text to (cfg.redis.chat_msg_prefix ++ to)
          (P.set j (codes "from") (P.of_string from)) e now body nick cut_body ntf
          (P.parse-dump _ text d) (cmd ∙ c) (receiver ∙ t) v o x
          (key_differs cfg.redis.chat_msg_prefix to h) z (text_body ∙ b) (name ∙ k) y m in
      (
        ap (λ r. r.0) stored,
        rw stored (rw ch (stored_redis s ack text to w)),
        fetched_key to u,
        q,
        sent,
      )
