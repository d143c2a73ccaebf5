-- ===== src/Program/NotifyTable.antt =====
-- src/occase-notify.cpp (get_cfg): the options of the notifier, with their defaults, and those that it
-- shares with a node. `ntf` is the default configuration of src/ntf_session.hpp; the rest is given as
-- for a node.
use occase.Base.{ℕ, ◌≡◌, sym, ap, ◌∙◌, Option, none, some, ℤ, pos, Str, codes, maybe, arith}
use occase.Post.Json.{◌>>=◌}
use occase.Config.{Redis}
use occase.Notifier.{Config, NtfConfig}
use occase.Program.Table.{read_redis, text, int}

bind_some :
    {A B : Type 0} (o : Option A) (f : A → Option B) (b : B)
    → (o >>= f) ≡ some b
    → (a : A) × (f a ≡ some b)
bind_some none f b e = absurd (ground arith)
bind_some (some a) f b e = (a, e)

module _ (parse_int : Str → Option ℤ) (parse_number : Str → Option ℕ) (message : Str)
    (vm : Str → Option Str) where
  abbrev text_of : Str → Str → Str
  text_of = text parse_int parse_number message vm

  abbrev int_of : Str → ℤ → Option ℤ
  int_of = int parse_int parse_number message vm

  -- The members that the notifier uses.
  unfoldable pub read_config : NtfConfig → Option Config
  read_config ntf = do
    wait_interval ← int_of (codes "wait-interval") (pos 5)
    max_msg_size ← int_of (codes "max-message-size") (pos 2000)
    some (record {
      redis_notify_channel = text_of (codes "redis-notify-channel") (codes "notify");
      redis_tokens_key = text_of (codes "redis-tokens-key") (codes "fcm_tokens");
      ntf = record ntf {
        fcm_port = text_of (codes "fcm-port") ntf.fcm_port;
        fcm_host = text_of (codes "fcm-host") ntf.fcm_host;
        fcm_target = text_of (codes "fcm-target") ntf.fcm_target;
        fcm_server_token = text_of (codes "fcm-server-token") ntf.fcm_server_token;
      };
      max_msg_size = max_msg_size;
      wait_interval = wait_interval;
    })

  -- The names that both programs read.
  Shared : Str → Str → Type 0
  Shared channel key =
      (text_of (codes "redis-notify-channel") (codes "notify") ≡ channel)
      × (text_of (codes "redis-tokens-key") (codes "fcm_tokens") ≡ key)

  config-Shared :
      (ntf : NtfConfig) (c : Config)
      → read_config ntf ≡ some c
      → Shared c.redis_notify_channel c.redis_tokens_key
  unfolding read_config Shared
  config-Shared ntf c e =
      let (wait, f) = bind_some (int_of (codes "wait-interval") (pos 5)) _ c e in
      let (size, g) = bind_some (int_of (codes "max-message-size") (pos 2000)) _ c f in
      (
        ap (λ o. maybe o c.redis_notify_channel (λ (x : Config). x.redis_notify_channel)) g,
        ap (λ o. maybe o c.redis_tokens_key (λ (x : Config). x.redis_tokens_key)) g,
      )

  redis-Shared :
      (r : Redis)
      → read_redis parse_int parse_number message vm ≡ some r
      → Shared r.notify_channel r.tokens_key
  unfolding read_redis Shared
  redis-Shared r e =
      let (time, f) = bind_some (int_of (codes "redis-user-msg-exp_time") (pos 604800)) _ r e in
      let (size, g) = bind_some (int_of (codes "redis-offline-chat-msgs") (pos 100)) _ r f in
      (
        ap (λ o. maybe o r.notify_channel (λ (x : Redis). x.notify_channel)) g,
        ap (λ o. maybe o r.tokens_key (λ (x : Redis). x.tokens_key)) g,
      )

-- A node and the notifier whose options are the same, or left out, for "redis-notify-channel" and for
-- "redis-tokens-key" use the same channel and the same key of the tokens, whatever else their options
-- and files hold.
pub same_channel :
    (parse_int : Str → Option ℤ) (parse_number : Str → Option ℕ) (message : Str)
    (vm vm' : Str → Option Str) (ntf : NtfConfig) (r : Redis) (c : Config)
    → vm (codes "redis-notify-channel") ≡ vm' (codes "redis-notify-channel")
    → vm (codes "redis-tokens-key") ≡ vm' (codes "redis-tokens-key")
    → read_redis parse_int parse_number message vm ≡ some r
    → read_config parse_int parse_number message vm' ntf ≡ some c
    → (r.notify_channel ≡ c.redis_notify_channel) × (r.tokens_key ≡ c.redis_tokens_key)
unfolding Shared text
same_channel parse_int parse_number message vm vm' ntf r c e f x y =
    let (a, b) = redis-Shared parse_int parse_number message vm r x in
    let (a', b') = config-Shared parse_int parse_number message vm' ntf c y in
    (
      sym a ∙ ap (λ o. maybe o (codes "notify") (λ s. s)) e ∙ a',
      sym b ∙ ap (λ o. maybe o (codes "fcm_tokens") (λ s. s)) f ∙ b',
    )
