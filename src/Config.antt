-- ===== src/Config.antt =====
-- src/config.hpp: the configuration of a node, and src/occase-db.cpp: the prefixes that `get_cfg`
-- derives from the options.
use occase.Base.{ℕ, Bool, ◌||◌, not, ◌++◌, ℤ, Str, codes, is_empty}

pub record Timeouts : Type 0 where
  pub handshake : ℤ
  pub idle : ℤ
  pub post_interval : ℤ
  pub post_expiration : ℤ

pub record Redis : Type 0 where
  pub host : Str
  pub port : Str
  pub posts_channel_key : Str
  pub posts_key : Str
  pub removed_posts_key : Str
  pub chat_msg_prefix : Str
  pub presence_channel_prefix : Str
  pub notify_prefix : Str
  pub user_notify_prefix : Str
  pub chat_msgs_counter_key : Str
  pub notify_channel : Str
  pub tokens_key : Str
  pub post_visualizations_key : Str
  pub chat_msg_exp_time : ℤ
  pub max_offline_chat_msgs : ℤ

pub record Core : Type 0 where
  pub max_posts_on_search : ℤ
  pub pwd_size : ℤ
  pub db_port : ℕ
  pub max_listen_connections : ℤ
  pub mms_key : Str
  pub db_host : Str
  pub mms_host : Str
  pub http_session_timeout : ℤ
  pub http_allow_origin : Str
  pub ssl_shutdown_timeout : ℤ
  pub server_name : Str
  pub adm_pwd : Str
  pub allowed_posts : ℤ
  pub chat_admin_id : Str
  pub redis : Redis
  pub timeouts : Timeouts

-- The end of `get_cfg`, after the options were read.
unfoldable pub derive_prefixes : Redis → Redis
derive_prefixes r =
    let chat_msg_prefix : Str = r.chat_msg_prefix ++ codes ":" in
    record r {
      chat_msg_prefix = chat_msg_prefix;
      user_notify_prefix = r.notify_prefix ++ codes "0__:" ++ chat_msg_prefix;
    }

-- config_all::with_ssl
pub with_ssl : Str → Str → Str → Bool
with_ssl ssl_cert_file ssl_priv_key_file ssl_dh_file =
    not (is_empty ssl_cert_file || is_empty ssl_priv_key_file || is_empty ssl_dh_file)
