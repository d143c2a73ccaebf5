-- ===== src/Worker/Arrival.antt =====
-- src/worker.cpp: the node after a message for a user who has no session, and after the login of this
-- user.
use occase.Base.{
  ℕ, ◌≡◌, ◌≢◌, refl, ◌∙◌, ap, true, false, List, [], ◌∷◌, ◌++◌, none, some, pos, negsuc, Str,
  append_assoc, All, map,
}
use occase.Platform.{Platform}
use occase.Exec.{ok}
use occase.Assoc.{lookup}
use occase.Config.{Core}
use occase.Session.{MsgEntry, Session, enqueue, chat_msg_ok, login_ok, handle_ev}
use occase.Worker.State.{
  World, incr, rpush, expire, publish, del, lrange, subscribe, with_session, store_chat_msg,
  send_redis,
}
use occase.Worker.App.{assign_session, fetch_messages}
use occase.Worker.Db.{on_lrange}
use occase.Worker.Delivery.{kept, lrange_delivers}
use occase.Worker.Offline.{logged_in, own_session, other_session, logged_in_queue, logged_in_entry}

module _ {P : Platform} (cfg : Core) where
  -- The node after the message, and after the login.
  unfoldable pub sent_state : ℕ → Str → Str → Str → World P → World P
  sent_state s ack stored to w =
      with_session s (handle_ev chat_msg_ok)
        (with_session s (enqueue ack false) (store_chat_msg cfg (stored ∷ []) to w))

  unfoldable pub arrived_state : ℕ → Str → Str → World P → World P
  arrived_state p resp to v = with_session p (handle_ev login_ok) (logged_in cfg to resp p v)

  pub sent_others :
      (s p : ℕ) (ack stored to : Str) (w : World P)
      → s ≢ p
      → (sent_state s ack stored to w).heap p ≡ w.heap p
  unfolding sent_state store_chat_msg send_redis
  sent_others s p ack stored to w n =
      other_session (handle_ev chat_msg_ok) (with_session s (enqueue ack false) _) s p n
      ∙ other_session (enqueue ack false) _ s p n

  -- The sender's message is stored for the receiver, under the key that his login fetches.
  pub sent_redis :
      (s : ℕ) (ack stored to : Str) (w : World P)
      → let key = cfg.redis.chat_msg_prefix ++ to in
        (sent_state s ack stored to w).redis
        ≡ w.redis
          ++ incr cfg.redis.chat_msgs_counter_key
            ∷ rpush key (stored ∷ [])
            ∷ expire key cfg.redis.chat_msg_exp_time
            ∷ publish cfg.redis.notify_channel stored
            ∷ []
  unfolding sent_state store_chat_msg send_redis with_session
  sent_redis s ack stored to w = refl

  pub arrived_redis :
      (p : ℕ) (resp to : Str) (v : World P)
      → let key = cfg.redis.chat_msg_prefix ++ to in
        (arrived_state p resp to v).redis
        ≡ v.redis
          ++ subscribe (cfg.redis.user_notify_prefix ++ to)
            ∷ subscribe (cfg.redis.presence_channel_prefix ++ to)
            ∷ lrange key (pos 0) (negsuc 0)
            ∷ del key
            ∷ []
  unfolding arrived_state logged_in fetch_messages send_redis with_session assign_session
  arrived_redis p resp to v = refl

  arrived_queue :
      (p : ℕ) (resp to : Str) (v : World P)
      → ((arrived_state p resp to v).heap p).msg_queue
        ≡ (v.heap p).msg_queue ++ record { msg = resp; persist = false } ∷ []
  unfolding arrived_state handle_ev
  arrived_queue p resp to v =
      ap (λ (x : Session). x.msg_queue)
        (own_session (handle_ev login_ok) (logged_in cfg to resp p v) p)
      ∙ logged_in_queue cfg to resp p v

  arrived_ready :
      (p : ℕ) (resp to : Str) (v : World P)
      → v.chat_queue ≡ []
      → v.alive p ≡ true
      → ((arrived_state p resp to v).chat_queue ≡ to ∷ [])
        × (lookup to (arrived_state p resp to v).sessions ≡ some p)
        × ((arrived_state p resp to v).alive p ≡ true)
  unfolding arrived_state logged_in fetch_messages send_redis with_session assign_session
  arrived_ready p resp to v q a =
      (ap (λ (l : List Str). l ++ to ∷ []) q, logged_in_entry cfg to resp p v, a)

  -- The messages that the reply to the login's request holds reach the session.
  pub arrived_delivery :
      (p : ℕ) (resp to : Str) (ms : List Str) (v : World P)
      → v.chat_queue ≡ []
      → v.alive p ≡ true
      → All (λ m. m ≢ []) ms
      → (u : World P) × (on_lrange P cfg ms (arrived_state p resp to v) ≡ (ok tt, u))
        × ((u.heap p).msg_queue
            ≡ (v.heap p).msg_queue ++ record { msg = resp; persist = false } ∷ map kept ms)
  arrived_delivery p resp to ms v q a n =
      let x = arrived_state p resp to v in
      let (wait, entry, live) = arrived_ready p resp to v q a in
      let (r, queue, o, c, t, d) = lrange_delivers cfg x to [] p ms wait entry live n in
      (
        (on_lrange P cfg ms x).1,
        ap (λ y. (y, (on_lrange P cfg ms x).1)) r,
        queue
            ∙ ap (λ (l : List MsgEntry). l ++ map kept ms) (arrived_queue p resp to v)
            ∙ append_assoc (v.heap p).msg_queue (record { msg = resp; persist = false } ∷ [])
                (map kept ms),
      )

  pub sent_ready :
      (s p : ℕ) (ack stored to : Str) (w : World P)
      → w.chat_queue ≡ []
      → w.alive p ≡ true
      → lookup to w.sessions ≡ none
      → ((sent_state s ack stored to w).chat_queue ≡ [])
        × ((sent_state s ack stored to w).alive p ≡ true)
        × (lookup to (sent_state s ack stored to w).sessions ≡ none)
  unfolding sent_state store_chat_msg send_redis with_session
  sent_ready s p ack stored to w q a l = (q, a, l)
