-- ===== src/Worker/Delivery.antt =====
-- src/worker.cpp: the replies and pushes of the database about a user's chat messages.
use occase.Base.{
  ℕ, ◌≡◌, ◌≢◌, refl, sym, append-nil, append_assoc, ◌∙◌, ap, true, false, List, [], ◌∷◌, ◌++◌, map,
  none, some, Str, arith, All, codes, length, ltb, length-append, pos, negsuc, drop,
  drop-length-append,
}
use occase.Platform.{Platform}
use occase.Exec.{Result, ok, ended, continue, modify}
use occase.Assoc.{lookup}
use occase.Config.{Core}
use occase.Session.{MsgEntry, Session, write_front, do_write, enqueue}
use occase.Worker.State.{
  World, lrange, del, incr, rpush, expire, publish, last_or, send_to, store_chat_msg, send_redis,
}
use occase.Worker.Db.{
  send_each, on_db_chat_msg, on_lrange, front, pop_chat_queue, on_push, on_rpush, queue_fetch,
  substr,
}

-- The entry of the write queue for a chat message.
unfoldable pub kept : Str → MsgEntry
kept m = record { msg = m; persist = true }

-- `v` is `w` after the messages were given to the session behind `p`.
pub record Given {P : Platform} (p : ℕ) (msgs : List Str) (w v : World P) : Type 0 where
  pub queued : (v.heap p).msg_queue ≡ (w.heap p).msg_queue ++ map kept msgs
  pub others : (q : ℕ) → q ≢ p → v.heap q ≡ w.heap q
  pub chat_queue : v.chat_queue ≡ w.chat_queue
  pub redis : v.redis ≡ w.redis
  pub sessions : v.sessions ≡ w.sessions

queue-enqueue : (m : Str) (s : Session) → (enqueue m true s).msg_queue ≡ s.msg_queue ++ kept m ∷ []
unfolding enqueue kept write_front do_write
queue-enqueue m s = ground arith

after_prefix :
    (P : Platform) (cfg : Core) (p user : Str) → substr P cfg (p ++ user) (length p) ≡ some user
unfolding substr
after_prefix P cfg p user =
    let long : ltb (length (p ++ user)) (length p) ≡ false = ground (arith, length-append p user) in
    rw long (ap some (drop-length-append p user))

module _ {P : Platform} (cfg : Core) where
  Given-trans :
      {u v w : World P} (p : ℕ) (m : Str) (ms : List Str)
      → Given p (m ∷ []) u v
      → Given p ms v w
      → Given p (m ∷ ms) u w
  Given-trans {u = u} p m ms h k = record {
    queued =
        k.queued
        ∙ ap (λ q. q ++ map kept ms) h.queued
        ∙ append_assoc (u.heap p).msg_queue (kept m ∷ []) (map kept ms);
    others = λ q n. k.others q n ∙ h.others q n;
    chat_queue = k.chat_queue ∙ h.chat_queue;
    redis = k.redis ∙ h.redis;
    sessions = k.sessions ∙ h.sessions;
  }

  ended_ok :
      (r : Result (Unit {0})) (v : World P) (f : World P → World P)
      → r ≡ ok tt
      → (ended (continue r v (λ x. modify f)).0 (continue r v (λ x. modify f)).1) ≡ (ok tt, f v)
  ended_ok r v f e = rw e refl

  Given-refl : (p : ℕ) (w : World P) → Given p [] w w
  Given-refl p w = record {
    queued = sym (append-nil (w.heap p).msg_queue);
    others = λ q _. refl;
    chat_queue = refl;
    redis = refl;
    sessions = refl;
  }

  pub Given-send_to :
      (p : ℕ) (m : Str) (w : World P)
      → m ≢ []
      → ((send_to p m true w).0 ≡ ok tt) × Given p (m ∷ []) w (send_to p m true w).1
  unfolding send_to
  Given-send_to p [] w h = absurd (h refl)
  Given-send_to p (c ∷ m) w h = (
    refl,
    record {
      queued = ground (arith, queue-enqueue (c ∷ m) (w.heap p));
      others = λ q n. ground arith;
      chat_queue = refl;
      redis = refl;
      sessions = refl;
    },
  )

  send_each-Given :
      (p : ℕ) (msgs : List Str) (w : World P)
      → All (λ m. m ≢ []) msgs
      → ((send_each P cfg p msgs w).0 ≡ ok tt) × Given p msgs w (send_each P cfg p msgs w).1
  unfolding send_each
  send_each-Given p [] w h = (refl, Given-refl p w)
  send_each-Given p (m ∷ ms) w h =
      let (sent, given) = Given-send_to p m w h.0 in
      let (all_sent, all_given) = send_each-Given p ms (send_to p m true w).1 h.1 in
      rw sent (all_sent, Given-trans p m ms given all_given)

  -- The reply to the oldest lrange of a worker whose first queued key is that of a user with a live
  -- session: the handler returns, all messages are at the end of that session's write queue, in
  -- their order and to be kept, the key is taken from the queue, no other session's state and no
  -- entry of sessions_ changes, and no command is sent.
  pub lrange_delivers :
      (w : World P) (user : Str) (keys : List Str) (p : ℕ) (msgs : List Str)
      → w.chat_queue ≡ user ∷ keys
      → lookup user w.sessions ≡ some p
      → w.alive p ≡ true
      → All (λ m. m ≢ []) msgs
      → let (r, v) = on_lrange P cfg msgs w in
        (r ≡ ok tt)
        × ((v.heap p).msg_queue ≡ (w.heap p).msg_queue ++ map kept msgs)
        × ((q : ℕ) → q ≢ p → v.heap q ≡ w.heap q)
        × (v.chat_queue ≡ keys)
        × (v.sessions ≡ w.sessions)
        × (v.redis ≡ w.redis)
  unfolding on_lrange on_db_chat_msg front pop_chat_queue
  lrange_delivers w user keys p msgs e s a h =
      let v : World P = record w { chat_queue = user ∷ keys } in
      let (sent, given) = send_each-Given p msgs v h in
      rw e (
        rw s (
          rw a (
            rw (ended_ok _ _ (pop_chat_queue P cfg) sent) (
              refl,
              given.queued,
              given.others,
              ap (drop 1) given.chat_queue,
              given.sessions,
              given.redis,
            ))))

  lrange_stores :
      (w : World P) (user : Str) (keys : List Str) (msgs : List Str)
      → w.chat_queue ≡ user ∷ keys
      → lookup user w.sessions ≡ none
      → on_lrange P cfg msgs w ≡ (ok tt, pop_chat_queue P cfg (store_chat_msg cfg msgs user w))
  unfolding on_lrange on_db_chat_msg front
  lrange_stores w user keys msgs e s = rw e (rw s refl)

  pub push_fetches :
      (w : World P) (user : Str)
      → user ≢ []
      → on_push P cfg
          (codes "message" ∷ (cfg.redis.user_notify_prefix ++ user) ∷ codes "rpush" ∷ [])
          w
        ≡ (ok tt, queue_fetch P cfg (cfg.redis.chat_msg_prefix ++ user) w)
  unfolding on_push on_rpush
  push_fetches w [] n = absurd (n refl)
  push_fetches w (c ∷ user) n = rw (after_prefix P cfg cfg.redis.user_notify_prefix (c ∷ user)) refl

  -- A push says that messages wait for a user, and the reply to the lrange it caused holds them: when
  -- no other reply is waited for and no user is called by the key itself, every session is as before,
  -- and the messages are stored under the key of the key, where the user may well have a session.
  pub push_misses_session :
      (w : World P) (user m : Str) (ms : List Str)
      → w.chat_queue ≡ []
      → user ≢ []
      → lookup (cfg.redis.chat_msg_prefix ++ user) w.sessions ≡ none
      → let pushed =
          codes "message" ∷ (cfg.redis.user_notify_prefix ++ user) ∷ codes "rpush" ∷ [] in
        let key = cfg.redis.chat_msg_prefix ++ user in
        let key_of_key = cfg.redis.chat_msg_prefix ++ key in
        let v = (on_lrange P cfg (m ∷ ms) (on_push P cfg pushed w).1).1 in
        (v.heap ≡ w.heap)
        × (v.redis
            ≡ (w.redis ++ lrange key (pos 0) (negsuc 0) ∷ del key ∷ [])
              ++ incr cfg.redis.chat_msgs_counter_key
                ∷ rpush key_of_key (m ∷ ms)
                ∷ expire key_of_key cfg.redis.chat_msg_exp_time
                ∷ publish cfg.redis.notify_channel (last_or m ms)
                ∷ [])
  unfolding queue_fetch pop_chat_queue store_chat_msg send_redis
  push_misses_session w user m ms e n s =
      let key : Str = cfg.redis.chat_msg_prefix ++ user in
      let waiting : (queue_fetch P cfg key w).chat_queue ≡ key ∷ [] =
        ap (λ (q : List Str). q ++ key ∷ []) e in
      rw (push_fetches w user n)
        (rw (lrange_stores (queue_fetch P cfg key w) key [] (m ∷ ms) waiting s) (refl, refl))
