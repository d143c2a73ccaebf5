-- ===== src/Program/Table.antt =====
-- src/occase-db.cpp (get_cfg): the options of a node, with their defaults. `vm` is what the options
-- library has read for the name of an option, on the command line or in the file named by "config",
-- `int` and `number` are its conversions, and `message` is that of its exception.
use occase.Base.{
  ℕ, ◌≡◌, refl, Bool, true, false, [], ◌∷◌, List, Option, none, some, ℤ, pos, Str, codes, maybe,
  All,
}
use occase.Post.Json.{◌>>=◌}
use occase.Log.{notice}
use occase.Config.{Core, Redis, Timeouts}
use occase.Program.{ConfigAll, Reading, parsed, invalid, go_on}

is_given : Option Str → Bool
is_given none = false
is_given (some s) = true

-- Timeouts and prefixes that are derived later.
abbrev no_timeouts : Timeouts
no_timeouts = record {
  handshake = pos 0;
  idle = pos 0;
  post_interval = pos 0;
  post_expiration = pos 0;
}

module _ (parse_int : Str → Option ℤ) (parse_number : Str → Option ℕ) (message : Str)
    (vm : Str → Option Str) where
  unfoldable pub text : Str → Str → Str
  text name default = maybe (vm name) default (λ s. s)

  unfoldable pub int : Str → ℤ → Option ℤ
  int name default = maybe (vm name) (some default) parse_int

  number : Str → ℕ → Option ℕ
  number name default = maybe (vm name) (some default) parse_number

  unfoldable pub read_redis : Option Redis
  unfolding text int
  read_redis = do
    chat_msg_exp_time ← int (codes "redis-user-msg-exp_time") (pos 604800)
    max_offline_chat_msgs ← int (codes "redis-offline-chat-msgs") (pos 100)
    some (record {
      host = text (codes "redis-host") (codes "127.0.0.1");
      port = text (codes "redis-port") (codes "6379");
      posts_channel_key = text (codes "redis-key-posts-channel") (codes "posts_channel");
      posts_key = text (codes "redis-key-posts") (codes "posts");
      removed_posts_key = text (codes "redis-key-removed-posts") (codes "removed_posts");
      chat_msg_prefix = text (codes "redis-key-chat-msg-prefix") (codes "msg");
      chat_msgs_counter_key =
          text (codes "redis-key-chat-msgs-counter") (codes "chat_msgs_counter");
      notify_channel = text (codes "redis-notify-channel") (codes "notify");
      tokens_key = text (codes "redis-tokens-key") (codes "fcm_tokens");
      post_visualizations_key =
          text (codes "redis-post-visualizations-key") (codes "post_visualizations");
      chat_msg_exp_time = chat_msg_exp_time;
      max_offline_chat_msgs = max_offline_chat_msgs;
      presence_channel_prefix = codes "pc:";
      notify_prefix = codes "__keyspace@";
      user_notify_prefix = [];
    })

  unfoldable pub read_core : Option Core
  unfolding text int number read_redis
  read_core = do
    redis ← read_redis
    max_posts_on_search ← int (codes "max-posts-on-search") (pos 300)
    pwd_size ← int (codes "password-size") (pos 8)
    db_port ← number (codes "db-port") 443
    max_listen_connections ← int (codes "max-listen-connections") (pos 511)
    http_session_timeout ← int (codes "http-session-timeout") (pos 30)
    ssl_shutdown_timeout ← int (codes "ssl-shutdown-timeout") (pos 30)
    allowed_posts ← int (codes "allowed-posts") (pos 1)
    some (record {
      max_posts_on_search = max_posts_on_search;
      pwd_size = pwd_size;
      db_port = db_port;
      max_listen_connections = max_listen_connections;
      mms_key = text (codes "mms-key") [];
      db_host = text (codes "db-host") [];
      mms_host = text (codes "mms-host") [];
      http_session_timeout = http_session_timeout;
      http_allow_origin = text (codes "http-allow-origin") (codes "*");
      ssl_shutdown_timeout = ssl_shutdown_timeout;
      server_name = text (codes "server-name") (codes "occase-db");
      adm_pwd = text (codes "adm-password") [];
      allowed_posts = allowed_posts;
      chat_admin_id = text (codes "chat-admin-id") [];
      redis = redis;
      timeouts = no_timeouts;
    })

  unfoldable pub read_cfg : Option ConfigAll
  unfolding text int read_core
  read_cfg = do
    core ← read_core
    handshake_timeout ← int (codes "handshake-timeout") (pos 2)
    idle_timeout ← int (codes "idle-timeout") (pos 30)
    post_interval ← int (codes "post-interval") (pos 604800)
    post_expiration ← int (codes "post-expiration") (pos 7776000)
    some (record {
      ssl_cert_file = text (codes "ssl-certificate-file") [];
      ssl_priv_key_file = text (codes "ssl-private-key-file") [];
      ssl_dh_file = text (codes "ssl-dh-file") [];
      handshake_timeout = handshake_timeout;
      idle_timeout = idle_timeout;
      post_interval = post_interval;
      post_expiration = post_expiration;
      help = go_on;
      logfilter = notice;
      core = core;
    })

  unfoldable pub read_options : Reading
  unfolding text read_cfg is_given
  read_options = maybe read_cfg (invalid message) (λ cfg. parsed (record {
    help = is_given (vm (codes "help"));
    git_sha1 = is_given (vm (codes "git-sha1"));
    cfg = cfg;
    logfilter_str = text (codes "log-level") (codes "notice");
  }))

-- The names of the options.
abbrev pub names : List Str
names =
    codes "ssl-certificate-file"
    ∷ codes "ssl-private-key-file"
    ∷ codes "ssl-dh-file"
    ∷ codes "handshake-timeout"
    ∷ codes "idle-timeout"
    ∷ codes "post-interval"
    ∷ codes "post-expiration"
    ∷ codes "max-posts-on-search"
    ∷ codes "password-size"
    ∷ codes "db-port"
    ∷ codes "max-listen-connections"
    ∷ codes "mms-key"
    ∷ codes "db-host"
    ∷ codes "mms-host"
    ∷ codes "http-session-timeout"
    ∷ codes "http-allow-origin"
    ∷ codes "ssl-shutdown-timeout"
    ∷ codes "server-name"
    ∷ codes "adm-password"
    ∷ codes "allowed-posts"
    ∷ codes "chat-admin-id"
    ∷ codes "redis-host"
    ∷ codes "redis-port"
    ∷ codes "redis-key-posts-channel"
    ∷ codes "redis-key-posts"
    ∷ codes "redis-key-removed-posts"
    ∷ codes "redis-key-chat-msg-prefix"
    ∷ codes "redis-key-chat-msgs-counter"
    ∷ codes "redis-notify-channel"
    ∷ codes "redis-tokens-key"
    ∷ codes "redis-post-visualizations-key"
    ∷ codes "redis-user-msg-exp_time"
    ∷ codes "redis-offline-chat-msgs"
    ∷ codes "log-level"
    ∷ codes "help"
    ∷ codes "git-sha1"
    ∷ []

module _ (parse_int : Str → Option ℤ) (parse_number : Str → Option ℕ) (message : Str)
    (vm vm' : Str → Option Str) where
  -- What a node makes of its options depends on what is given for the names of the options only: what
  -- stands under any other name, in the file of the configuration for example, has no effect.
  pub read_options-names :
      All (λ name. vm name ≡ vm' name) names
      → read_options parse_int parse_number message vm
        ≡ read_options parse_int parse_number message vm'
  unfolding read_options read_cfg read_core read_redis text int number
  read_options-names h =
      rw
        (
          h.0, h.1.0, h.1.1.0, h.1.1.1.0, h.1.1.1.1.0, h.1.1.1.1.1.0, h.1.1.1.1.1.1.0,
          h.1.1.1.1.1.1.1.0, h.1.1.1.1.1.1.1.1.0, h.1.1.1.1.1.1.1.1.1.0, h.1.1.1.1.1.1.1.1.1.1.0,
          h.1.1.1.1.1.1.1.1.1.1.1.0, h.1.1.1.1.1.1.1.1.1.1.1.1.0, h.1.1.1.1.1.1.1.1.1.1.1.1.1.0,
          h.1.1.1.1.1.1.1.1.1.1.1.1.1.1.0, h.1.1.1.1.1.1.1.1.1.1.1.1.1.1.1.0,
          h.1.1.1.1.1.1.1.1.1.1.1.1.1.1.1.1.0, h.1.1.1.1.1.1.1.1.1.1.1.1.1.1.1.1.1.0,
          h.1.1.1.1.1.1.1.1.1.1.1.1.1.1.1.1.1.1.0, h.1.1.1.1.1.1.1.1.1.1.1.1.1.1.1.1.1.1.1.0,
          h.1.1.1.1.1.1.1.1.1.1.1.1.1.1.1.1.1.1.1.1.0,
          h.1.1.1.1.1.1.1.1.1.1.1.1.1.1.1.1.1.1.1.1.1.0,
          h.1.1.1.1.1.1.1.1.1.1.1.1.1.1.1.1.1.1.1.1.1.1.0,
          h.1.1.1.1.1.1.1.1.1.1.1.1.1.1.1.1.1.1.1.1.1.1.1.0,
          h.1.1.1.1.1.1.1.1.1.1.1.1.1.1.1.1.1.1.1.1.1.1.1.1.0,
          h.1.1.1.1.1.1.1.1.1.1.1.1.1.1.1.1.1.1.1.1.1.1.1.1.1.0,
          h.1.1.1.1.1.1.1.1.1.1.1.1.1.1.1.1.1.1.1.1.1.1.1.1.1.1.0,
          h.1.1.1.1.1.1.1.1.1.1.1.1.1.1.1.1.1.1.1.1.1.1.1.1.1.1.1.0,
          h.1.1.1.1.1.1.1.1.1.1.1.1.1.1.1.1.1.1.1.1.1.1.1.1.1.1.1.1.0,
          h.1.1.1.1.1.1.1.1.1.1.1.1.1.1.1.1.1.1.1.1.1.1.1.1.1.1.1.1.1.0,
          h.1.1.1.1.1.1.1.1.1.1.1.1.1.1.1.1.1.1.1.1.1.1.1.1.1.1.1.1.1.1.0,
          h.1.1.1.1.1.1.1.1.1.1.1.1.1.1.1.1.1.1.1.1.1.1.1.1.1.1.1.1.1.1.1.0,
          h.1.1.1.1.1.1.1.1.1.1.1.1.1.1.1.1.1.1.1.1.1.1.1.1.1.1.1.1.1.1.1.1.0,
          h.1.1.1.1.1.1.1.1.1.1.1.1.1.1.1.1.1.1.1.1.1.1.1.1.1.1.1.1.1.1.1.1.1.0,
          h.1.1.1.1.1.1.1.1.1.1.1.1.1.1.1.1.1.1.1.1.1.1.1.1.1.1.1.1.1.1.1.1.1.1.0,
          h.1.1.1.1.1.1.1.1.1.1.1.1.1.1.1.1.1.1.1.1.1.1.1.1.1.1.1.1.1.1.1.1.1.1.1.0,
        )
        refl
