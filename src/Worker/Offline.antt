-- ===== src/Worker/Offline.antt =====
-- src/worker.cpp: a chat message for a user who has no session on the node, and the login that
-- fetches it.
use occase.Base.{
  Option, List, sym, append-nil, ◌⊎◌, inl, inr, ℕ, ==_iff, str_eq_refl, ◌≡◌, ◌≢◌, Bool, refl, ◌∙◌,
  ap, true, false, [], ◌∷◌, ◌++◌, none, some, ℤ, Str, arith, codes, str_eq, is_empty,
}
use occase.Platform.{Platform, string_at}
use occase.Exec.{ok}
use occase.Assoc.{lookup, lookup-assign}
use occase.Config.{Core}
use occase.Crypto.{make_hex_digest}
use occase.Session.{
  Session, enqueue, write_front, do_write, chat_msg_ok, login_ok, set_pub_hash, is_logged_in,
  handle_ev,
}
use occase.Worker.State.{
  World, Command, publish, hset, send_to, with_session, store_chat_msg, send_redis,
}
use occase.Worker.Api.{chat_admin_id_key}
use occase.Worker.App.{
  int_of, receiver, readdress, forward_chat, acknowledge, chat_ack, on_app_chat_msg, on_app_login,
  log_in, register, assign_session, finish_login, token_step, token_json, publish_token,
  fetch_messages, login_ack, dispatch, on_app,
}
use occase.Worker.Chat.{receiver_kept}
use occase.Worker.Life.{on_read}

module _ {P : Platform} (f : Session → Session) (w : World P) (s : ℕ) where
  pub own_session : (with_session s f w).heap s ≡ f (w.heap s)
  unfolding with_session
  own_session = ground (arith, ==_iff s s)

  pub other_session : (p : ℕ) → s ≢ p → (with_session s f w).heap p ≡ w.heap p
  unfolding with_session
  other_session p n = ground arith

pub queued_last :
    (m : Str) (persist : Bool) (s : Session)
    → (enqueue m persist s).msg_queue ≡ s.msg_queue ++ record { msg = m; persist = persist } ∷ []
unfolding enqueue write_front do_write
queued_last m persist s = ground arith

-- The requests that the field "token" of a login makes: a token that is not empty is announced and
-- stored for the user.
abbrev pub TokenSends : (P : Platform) → Core → Str → Option P.Json → List Command → Type 0
TokenSends P cfg user_id none cs = cs ≡ []
TokenSends P cfg user_id (some field) cs =
    ((P.json_empty field ≡ true) × (cs ≡ []))
    ⊎ ((P.json_empty field ≡ false)
        × ((token : Str) × (msg : Str) × (P.get_string field ≡ some token)
            × (P.dump (token_json P cfg user_id token) ≡ some msg)
            × (cs
                ≡ publish cfg.redis.notify_channel msg
                  ∷ hset cfg.redis.tokens_key ((user_id, token) ∷ [])
                  ∷ [])))

module _ {P : Platform} (cfg : Core) where
  pub send_to_full :
      (p : ℕ) (m : Str) (persist : Bool) (w : World P)
      → m ≢ []
      → send_to p m persist w ≡ (ok tt, with_session p (enqueue m persist) w)
  unfolding send_to with_session
  send_to_full p [] persist w n = absurd (n refl)
  send_to_full p (c ∷ m) persist w n = refl

  -- The message is stored for the receiver, and acknowledged.
  pub chat_stored :
      (w : World P) (j : P.Json) (s : ℕ) (to post_id text ack : Str) (id : ℤ)
      → string_at P j (codes "to") ≡ some to
      → str_eq to chat_admin_id_key ≡ false
      → lookup to w.sessions ≡ none
      → let hash = (w.heap s).pub_hash in
        let signed = P.set j (codes "from") (P.of_string hash) in
        P.dump signed ≡ some text
        → string_at P signed (codes "post_id") ≡ some post_id
        → int_of P cfg (P.at signed (codes "id")) ≡ some id
        → P.dump (chat_ack P cfg to hash post_id id) ≡ some ack
        → ack ≢ []
        → on_app_chat_msg P cfg j s w ≡ (
          ok chat_msg_ok,
          with_session s (enqueue ack false) (store_chat_msg cfg (text ∷ []) to w),
        )
  unfolding on_app_chat_msg readdress receiver forward_chat acknowledge store_chat_msg send_redis
  chat_stored w j s to post_id text ack id t a l d q i e n =
      let v : World P = store_chat_msg cfg (text ∷ []) to w in
      rw (receiver_kept P j (w.heap s).pub_hash)
        (rw t (rw a (rw l (rw d (rw q (rw i (rw e (rw (send_to_full s ack false v n) refl))))))))

  -- The state after a login of a user without an entry.
  unfoldable pub logged_in : Str → Str → ℕ → World P → World P
  logged_in user resp p v =
      with_session p (enqueue resp false)
        (fetch_messages P cfg user (assign_session user p (with_session p (set_pub_hash user) v)))

  pub login_fetches :
      (v : World P) (j : P.Json) (p : ℕ) (user key resp : Str)
      → string_at P j (codes "user") ≡ some user
      → string_at P j (codes "key") ≡ some key
      → P.at j (codes "token") ≡ none
      → let user_id = make_hex_digest P user key in
        is_empty user_id ≡ false
        → lookup user_id v.sessions ≡ none
        → P.dump (login_ack P cfg (codes "ok")) ≡ some resp
        → resp ≢ []
        → on_app_login P cfg j p v ≡ (ok login_ok, logged_in user_id resp p v)
  unfolding on_app_login log_in register finish_login token_step logged_in with_session
  login_fetches v j p user key resp u k o f l d n =
      let user_id = make_hex_digest P user key in
      let w : World P =
        fetch_messages P cfg user_id
          (assign_session user_id p (with_session p (set_pub_hash user_id) v)) in
      rw u (rw k (rw f (rw l (rw o (rw d (rw (send_to_full p resp false w n) refl))))))

  sends_nothing : (v : World P) (cs : List Command) → cs ≡ [] → v ≡ send_redis cs v
  unfolding send_redis
  sends_nothing v cs e = rw e (ap (λ l. record v { redis = l }) (sym (append-nil v.redis)))

  token_sends :
      (user_id : Str) (o : Option P.Json) (cs : List Command) (v : World P)
      → TokenSends P cfg user_id o cs
      → token_step P cfg user_id o v ≡ (ok tt, send_redis cs v)
  unfolding token_step publish_token
  token_sends user_id none cs v e = ap (λ x. (ok tt, x)) (sends_nothing v cs e)
  token_sends user_id (some field) cs v (inl (e, c)) =
      rw e (ap (λ x. (ok tt, x)) (sends_nothing v cs c))
  token_sends user_id (some field) cs v (inr (e, (token, msg, t, d, c))) = rw (e, t, d, c) refl

  -- The same login, whose token is announced and stored before the rest.
  pub login_sends :
      (v : World P) (j : P.Json) (p : ℕ) (user key resp : Str) (cs : List Command)
      → string_at P j (codes "user") ≡ some user
      → string_at P j (codes "key") ≡ some key
      → let user_id = make_hex_digest P user key in
        TokenSends P cfg user_id (P.at j (codes "token")) cs
        → is_empty user_id ≡ false
        → lookup user_id v.sessions ≡ none
        → P.dump (login_ack P cfg (codes "ok")) ≡ some resp
        → resp ≢ []
        → on_app_login P cfg j p v ≡ (ok login_ok, logged_in user_id resp p (send_redis cs v))
  unfolding on_app_login log_in register finish_login logged_in with_session assign_session
      send_redis fetch_messages
  login_sends v j p user key resp cs u k o f l d n =
      let user_id = make_hex_digest P user key in
      let there : World P = assign_session user_id p (with_session p (set_pub_hash user_id) v) in
      let w : World P = fetch_messages P cfg user_id (send_redis cs there) in
      rw u (
        rw k (
          rw f (
            rw l (
              rw (token_sends user_id (P.at j (codes "token")) cs there o)
                (rw d (rw (send_to_full p resp false w n) refl))))))

  -- What a read of a session does, from what its command does.
  pub read_chat :
      (w v : World P) (s : ℕ) (msg : Str) (j : P.Json)
      → P.parse msg ≡ some j
      → string_at P j (codes "cmd") ≡ some (codes "message")
      → is_logged_in (w.heap s) ≡ true
      → on_app_chat_msg P cfg j s w ≡ (ok chat_msg_ok, v)
      → on_read P cfg s (some msg) w ≡ (ok tt, with_session s (handle_ev chat_msg_ok) v)
  unfolding on_read on_app dispatch
  read_chat w v s msg j p c l e = rw p (rw c (rw l (rw e refl)))

  pub read_login :
      (w v : World P) (s : ℕ) (msg : Str) (j : P.Json)
      → P.parse msg ≡ some j
      → string_at P j (codes "cmd") ≡ some (codes "login")
      → is_logged_in (w.heap s) ≡ false
      → on_app_login P cfg j s w ≡ (ok login_ok, v)
      → on_read P cfg s (some msg) w ≡ (ok tt, with_session s (handle_ev login_ok) v)
  unfolding on_read on_app dispatch
  read_login w v s msg j p c l e = rw p (rw c (rw l (rw e refl)))

  -- What a session is, and waits for, after its login.
  pub logged_in_queue :
      (user resp : Str) (p : ℕ) (v : World P)
      → ((logged_in user resp p v).heap p).msg_queue
        ≡ (v.heap p).msg_queue ++ record { msg = resp; persist = false } ∷ []
  unfolding logged_in fetch_messages assign_session send_redis set_pub_hash
  logged_in_queue user resp p v =
      ap (λ (x : Session). x.msg_queue) (own_session (enqueue resp false) _ p)
      ∙ queued_last resp false _
      ∙ ap (λ (x : Session). x.msg_queue ++ record { msg = resp; persist = false } ∷ [])
          (own_session (set_pub_hash user) v p)

  pub logged_in_entry :
      (user resp : Str) (p : ℕ) (v : World P)
      → lookup user (logged_in user resp p v).sessions ≡ some p
  unfolding logged_in fetch_messages assign_session send_redis with_session
  logged_in_entry user resp p v =
      lookup-assign user user p v.sessions ∙ ground (arith, str_eq_refl user)
