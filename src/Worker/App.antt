-- ===== src/Worker/App.antt =====
-- src/worker.cpp: the commands that a client sends over its websocket session.
use occase.Base.{
  ℕ, Bool, true, false, [], ◌∷◌, ◌++◌, Option, none, some, ℤ, pos, negsuc, Str, codes, str_eq,
  maybe, is_empty, if◌then◌else◌,
}
use occase.Platform.{Platform, object, string_at}
use occase.Exec.{Exec, pure, modify, gets, or_throw, catching, noexcept, ◌>>=◌, ◌>>◌}
use occase.Assoc.{lookup, assign}
use occase.Config.{Core}
use occase.Crypto.{make_hex_digest}
use occase.Session.{
  EvRes, login_ok, login_fail, publish_ok, chat_msg_ok, presence_ok, unknown, is_logged_in,
  set_pub_hash, shutdown,
}
use occase.Worker.State.{
  World, subscribe, lrange, del, hset, publish, send_redis, with_session, send_to, find_session,
  lock, store_chat_msg,
}
use occase.Worker.Api.{chat_admin_id_key, on_publish_impl}

module _ {P : Platform} where
  -- `sessions_[user_id] = s`
  unfoldable pub assign_session : Str → ℕ → World P → World P
  assign_session user_id p w = record w { sessions = assign user_id p w.sessions }

  -- The old session of the user is shut down, and its hash is taken so that its end does not remove
  -- the new session from the map.
  unfoldable pub retire : ℕ → World P → World P
  unfolding with_session
  retire old w =
      if w.alive old then with_session old (set_pub_hash []) (with_session old shutdown w) else w

  -- The insertion into sessions_, and what happens when the user has an entry.
  unfoldable pub register : Str → ℕ → World P → World P
  unfolding assign_session retire
  register user_id p w =
      maybe (lookup user_id w.sessions) (assign_session user_id p w)
        (λ old. assign_session user_id p (retire old w))

module _ (P : Platform) (cfg : Core) where
  open P use {Json, parse, dump, at, get_string, get_int, set, of_string, of_int, json_empty}

  unfoldable pub login_ack : Str → Json
  login_ack result =
      object P
        ((codes "cmd", of_string (codes "login_ack")) ∷ (codes "result", of_string result) ∷ [])

  unfoldable pub token_json : Str → Str → Json
  token_json user_id token = object P (
      (codes "cmd", of_string (codes "token"))
      ∷ (codes "user_id", of_string user_id)
      ∷ (codes "token", of_string token)
      ∷ [])

  -- The token goes to the notifier, and to the hash that it reads when it starts.
  unfoldable pub publish_token : Str → Json → Exec (World P) (Unit {0})
  unfolding token_json
  publish_token user_id field = do
    token ← or_throw (get_string field)
    msg ← or_throw (dump (token_json user_id token))
    modify (
        send_redis (
          publish cfg.redis.notify_channel msg
          ∷ hset cfg.redis.tokens_key ((user_id, token) ∷ [])
          ∷ []))

  unfoldable pub token_step : Str → Option Json → Exec (World P) (Unit {0})
  token_step user_id none = pure tt
  token_step user_id (some field) =
      if json_empty field then pure tt else publish_token user_id field

  -- Subscribe to the user's notifications and fetch the waiting messages.
  unfoldable pub fetch_messages : Str → World P → World P
  fetch_messages user_id w =
      let key : Str = cfg.redis.chat_msg_prefix ++ user_id in
      send_redis
        (subscribe (cfg.redis.user_notify_prefix ++ user_id)
          ∷ subscribe (cfg.redis.presence_channel_prefix ++ user_id)
          ∷ lrange key (pos 0) (negsuc 0)
          ∷ del key
          ∷ [])
        (record w { chat_queue = w.chat_queue ++ user_id ∷ [] })

  -- The rest of a login, once the session is in the table.
  unfoldable pub finish_login : Str → Json → ℕ → Exec (World P) EvRes
  unfolding login_ack
  finish_login user_id j s = do
    token_step user_id (at j (codes "token"))
    modify (fetch_messages user_id)
    resp ← or_throw (dump (login_ack (codes "ok")))
    send_to s resp false
    pure login_ok

  unfoldable pub log_in : Str → Json → ℕ → Exec (World P) EvRes
  log_in user_id j s = do
    modify (with_session s (set_pub_hash user_id))
    modify (register user_id s)
    finish_login user_id j s

  unfoldable pub refuse_login : ℕ → Exec (World P) EvRes
  unfolding login_ack
  refuse_login s = do
    resp ← or_throw (dump (login_ack (codes "fail")))
    send_to s resp false
    pure login_fail

  unfoldable pub on_app_login : Json → ℕ → Exec (World P) EvRes
  on_app_login j s = do
    user ← or_throw (string_at P j (codes "user"))
    key ← or_throw (string_at P j (codes "key"))
    let user_id = make_hex_digest P user key
    if is_empty user_id then refuse_login s else log_in user_id j s

  -- The receiver, and the message with the admin's identifier replaced.
  unfoldable pub receiver : Str → Str
  receiver to = if str_eq to chat_admin_id_key then cfg.chat_admin_id else to

  unfoldable pub readdress : Json → Str → Json
  readdress j to =
      if str_eq to chat_admin_id_key then set j (codes "to") (of_string cfg.chat_admin_id) else j

  -- A message goes to the receiver's session on this node, or to the database.
  unfoldable pub forward_chat : Json → Str → Exec (World P) (Unit {0})
  forward_chat j to = do
    match ← find_session to
    maybe match (do msg ← or_throw (dump j); modify (store_chat_msg cfg (msg ∷ []) to))
        (λ p. do
          online ← lock p
          if online then (do msg ← or_throw (dump j); send_to p msg true) else pure tt)

  unfoldable pub chat_ack : Str → Str → Str → ℤ → Json
  chat_ack old_to hash post_id message_id = object P (
      (codes "cmd", of_string (codes "message"))
      ∷ (codes "from", of_string old_to)
      ∷ (codes "to", of_string hash)
      ∷ (codes "post_id", of_string post_id)
      ∷ (codes "ack_id", of_int message_id)
      ∷ (codes "type", of_string (codes "server_ack"))
      ∷ (codes "result", of_string (codes "ok"))
      ∷ [])

  unfoldable pub int_of : Option Json → Option ℤ
  int_of none = none
  int_of (some j) = get_int j

  unfoldable pub acknowledge : Json → Str → ℕ → Exec (World P) EvRes
  unfolding chat_ack int_of
  acknowledge j old_to s = do
    post_id ← or_throw (string_at P j (codes "post_id"))
    message_id ← or_throw (int_of (at j (codes "id")))
    hash ← gets (λ (w : World P). (w.heap s).pub_hash)
    ack ← or_throw (dump (chat_ack old_to hash post_id message_id))
    send_to s ack false
    pure chat_msg_ok

  unfoldable pub on_app_chat_msg : Json → ℕ → Exec (World P) EvRes
  on_app_chat_msg j0 s = do
    hash ← gets (λ (w : World P). (w.heap s).pub_hash)
    let j1 = set j0 (codes "from") (of_string hash)
    to ← or_throw (string_at P j1 (codes "to"))
    let j = readdress j1 to
    forward_chat j (receiver to)
    acknowledge j to s

  unfoldable pub forward_presence : Json → Str → Exec (World P) (Unit {0})
  forward_presence j to = do
    match ← find_session to
    maybe match
        (do
          msg ← or_throw (dump j)
          modify (send_redis (publish (cfg.redis.presence_channel_prefix ++ to) msg ∷ [])))
        (λ p. do
          online ← lock p
          if online then (do msg ← or_throw (dump j); send_to p msg false) else pure tt)

  unfoldable pub on_app_presence : Json → ℕ → Exec (World P) EvRes
  on_app_presence j0 s = do
    hash ← gets (λ (w : World P). (w.heap s).pub_hash)
    let j1 = set j0 (codes "from") (of_string hash)
    to ← or_throw (string_at P j1 (codes "to"))
    forward_presence (readdress j1 to) (receiver to)
    pure presence_ok

  unfoldable pub on_app_publish : Json → ℕ → Exec (World P) EvRes
  on_app_publish j s = do resp ← on_publish_impl P cfg j; send_to s resp true; pure publish_ok

  -- The command of a session that is logged in, and of one that is not.
  unfoldable pub dispatch : Bool → Str → Json → ℕ → Exec (World P) EvRes
  dispatch true cmd j s =
      if str_eq cmd (codes "presence")
      then on_app_presence j s
      else if str_eq cmd (codes "message")
      then on_app_chat_msg j s
      else if str_eq cmd (codes "publish")
      then on_app_publish j s
      else pure unknown
  dispatch false cmd j s = if str_eq cmd (codes "login") then on_app_login j s else pure unknown

  unfoldable pub on_app : ℕ → Str → Exec (World P) EvRes
  unfolding dispatch
  on_app s msg = noexcept (
      catching unknown (do
        j ← or_throw (parse msg)
        cmd ← or_throw (string_at P j (codes "cmd"))
        logged_in ← gets (λ (w : World P). is_logged_in (w.heap s))
        dispatch logged_in cmd j s))
