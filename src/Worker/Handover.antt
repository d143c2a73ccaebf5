-- ===== src/Worker/Handover.antt =====
-- src/ws_session.hpp (finish) and src/worker.cpp: the messages that a session leaves at its end, and the
-- next login of its user.
use occase.Base.{
  arith, ℕ, ◌≡◌, ◌≢◌, refl, ◌∙◌, ap, true, false, List, [], ◌∷◌, ◌++◌, map, none, some, pos, negsuc,
  Str, codes, is_empty, str_eq_refl, All, dec,
}
use occase.Platform.{Platform, string_at}
use occase.Exec.{ok}
use occase.Assoc.{lookup, lookup-erase}
use occase.Config.{Core}
use occase.Crypto.{make_hex_digest}
use occase.Session.{Session, take_from, undelivered, is_logged_in}
use occase.Worker.State.{
  World, Command, with_session, incr, rpush, expire, publish, del, lrange, subscribe, unsubscribe,
  store_chat_msg, send_redis, last_or,
}
use occase.Worker.App.{login_ack}
use occase.Worker.Db.{on_lrange}
use occase.Worker.Life.{finish, on_session_dtor, remove_session, on_read}
use occase.Worker.Delivery.{kept}
use occase.Worker.Offline.{TokenSends, read_login, login_sends, other_session}
use occase.Worker.Arrival.{arrived_state, arrived_redis, arrived_delivery}

module _ {P : Platform} (cfg : Core) where
  -- The node in which the session was counted out and its messages were taken.
  abbrev pub left : ℕ → World P → World P
  left p w =
      with_session p (take_from P.moved_from)
        (record w { number_of_sessions = dec w.number_of_sessions })

  finished :
      (w : World P) (p q : ℕ) (user_id : Str) (msgs : List Str)
      → (w.heap p).pub_hash ≡ user_id
      → is_empty user_id ≡ false
      → lookup user_id w.sessions ≡ some q
      → undelivered (w.heap p).msg_queue ≡ msgs
      → finish P cfg p w ≡ remove_session P cfg user_id msgs (left p w)
  unfolding finish on_session_dtor is_logged_in with_session
  finished w p q user_id msgs h f l u = rw h (rw f (rw l (rw u refl)))

  -- A guest is not the session of a user.
  guest_other :
      (w : World P) (p s : ℕ) (user_id : Str)
      → (w.heap p).pub_hash ≡ user_id
      → is_empty user_id ≡ false
      → is_logged_in (w.heap s) ≡ false
      → p ≢ s
  unfolding is_logged_in
  guest_other w p s user_id h f g e = ground (arith, ap (λ q. w.heap q) e)

  -- The node after the end of the session.
  ended_state :
      (w : World P) (user_id m : Str) (ms : List Str)
      → let key = cfg.redis.chat_msg_prefix ++ user_id in
        let v = remove_session P cfg user_id (m ∷ ms) w in
        (v.heap ≡ w.heap)
        × (v.alive ≡ w.alive)
        × (v.chat_queue ≡ w.chat_queue)
        × (lookup user_id v.sessions ≡ none)
        × (v.redis
            ≡ (w.redis
                ++ unsubscribe (cfg.redis.user_notify_prefix ++ user_id)
                  ∷ unsubscribe (cfg.redis.presence_channel_prefix ++ user_id)
                  ∷ [])
              ++ incr cfg.redis.chat_msgs_counter_key
                ∷ rpush key (m ∷ ms)
                ∷ expire key cfg.redis.chat_msg_exp_time
                ∷ publish cfg.redis.notify_channel (last_or m ms)
                ∷ [])
  unfolding remove_session store_chat_msg send_redis
  ended_state w user_id m ms = (
    refl,
    refl,
    refl,
    lookup-erase user_id user_id w.sessions ∙ rw (str_eq_refl user_id) refl,
    refl,
  )

  -- A session that is logged in ends with messages to be kept that were not written, while its user has
  -- an entry; then the user logs in on another session, with his user and key and with or without a
  -- token for notifications; no other reply is waited for and no text is empty or refused. The messages
  -- are stored under the key of the user in their order; the login announces and stores its token, if
  -- it has one that is not empty, finds no entry any more and fetches that key; and when the reply holds
  -- the messages, they are given to the new session after the acknowledgement of the login, in their
  -- order and to be kept again: the end of a session that is logged in loses none of them.
  pub handed_over :
      (w : World P) (p s q : ℕ) (j : P.Json) (login user key m resp : Str) (ms : List Str)
      (cs : List Command)
      → let user_id = make_hex_digest P user key in
        (w.heap p).pub_hash ≡ user_id
        → is_empty user_id ≡ false
        → lookup user_id w.sessions ≡ some q
        → undelivered (w.heap p).msg_queue ≡ m ∷ ms
        → All (λ x. x ≢ []) (m ∷ ms)
        → w.chat_queue ≡ []
        → is_logged_in (w.heap s) ≡ false
        → w.alive s ≡ true
        → P.parse login ≡ some j
        → string_at P j (codes "cmd") ≡ some (codes "login")
        → string_at P j (codes "user") ≡ some user
        → string_at P j (codes "key") ≡ some key
        → TokenSends P cfg user_id (P.at j (codes "token")) cs
        → P.dump (login_ack P cfg (codes "ok")) ≡ some resp
        → resp ≢ []
        → let list = cfg.redis.chat_msg_prefix ++ user_id in
          let w1 = finish P cfg p w in
          (w2 : World P) × (w3 : World P) × (w1.redis
            ≡ (w.redis
                ++ unsubscribe (cfg.redis.user_notify_prefix ++ user_id)
                  ∷ unsubscribe (cfg.redis.presence_channel_prefix ++ user_id)
                  ∷ [])
              ++ incr cfg.redis.chat_msgs_counter_key
                ∷ rpush list (m ∷ ms)
                ∷ expire list cfg.redis.chat_msg_exp_time
                ∷ publish cfg.redis.notify_channel (last_or m ms)
                ∷ [])
          × (on_read P cfg s (some login) w1 ≡ (ok tt, w2))
          × (w2.redis
              ≡ (w1.redis ++ cs)
                ++ subscribe (cfg.redis.user_notify_prefix ++ user_id)
                  ∷ subscribe (cfg.redis.presence_channel_prefix ++ user_id)
                  ∷ lrange list (pos 0) (negsuc 0)
                  ∷ del list
                  ∷ [])
          × (on_lrange P cfg (m ∷ ms) w2 ≡ (ok tt, w3))
          × ((w3.heap s).msg_queue
              ≡ (w.heap s).msg_queue ++ record { msg = resp; persist = false } ∷ map kept (m ∷ ms))
  unfolding arrived_state send_redis with_session
  handed_over w p s q j login user key m resp ms cs h f l u full wait guest live parsed cmd un k
        token d n =
      let user_id = make_hex_digest P user key in
      let v = remove_session P cfg user_id (m ∷ ms) (left p w) in
      let (heap, alive, queue, gone, redis) = ended_state (left p w) user_id m ms in
      let v' : World P = send_redis cs v in
      let same : v.heap s ≡ w.heap s =
        ap (λ (x : ℕ → Session). x s) heap
        ∙ other_session (take_from P.moved_from)
            (record w { number_of_sessions = dec w.number_of_sessions }) p s
            (guest_other w p s user_id h f guest) in
      let (w3, delivery, messages) =
        arrived_delivery cfg s resp user_id (m ∷ ms) v' (queue ∙ wait) (ap (λ a. a s) alive ∙ live)
          full in
      rw (finished w p q user_id (m ∷ ms) h f l u) (
        arrived_state cfg s resp user_id v',
        w3,
        redis,
        read_login cfg v _ s login j parsed cmd (ap is_logged_in same ∙ guest)
            (login_sends cfg v j s user key resp cs un k token f gone d n),
        arrived_redis cfg s resp user_id v',
        delivery,
        messages
            ∙ ap
                (λ (x : Session).
                  x.msg_queue ++ record { msg = resp; persist = false } ∷ map kept (m ∷ ms))
                same,
      )
