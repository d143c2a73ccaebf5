-- ===== src/Examples/Programs.antt =====
-- The programs of the repository on concrete options and outcomes.
use occase.Base.{
  ℕ, ◌≡◌, refl, true, false, [], ◌∷◌, ◌++◌, Option, some, none, ℤ, pos, negsuc, Str, codes, str_eq,
  if◌then◌else◌,
}
use occase.Examples.Toy.{toy}
use occase.Examples.Nodes.{cfg, online}
use occase.Examples.Services.{notify_cfg}
use occase.Exec.{ok}
use occase.Notifier.{Config}
use occase.Notifier.Push.{new_push, Completion}
use occase.Worker.State.{subscribe, lrange, del, incr, rpush, expire, publish, store_chat_msg}
use occase.Worker.App.{fetch_messages}
use occase.Worker.Db.{on_push, queue_fetch}
use occase.Program.{Options, get_cfg, fresh_process, go_on}
use occase.Program.PushTest.{Tester, Outside, parsed, fine, requests, main, push_test_ends}
use occase.Program.Prefixes.{stored_announced}
use occase.Program.Table.{read_options, read_options-names, int, text}
use occase.Program.NotifyTable.{read_config}
use occase.Program.Status.{status}
use occase.Log.{notice}

-- The service answers.
abbrev answered : Completion
answered = record { failed = false; answer = [] }

-- The last operation fails.
abbrev push_outside : Outside
push_outside = record {
  reading =
      parsed
        (record { help = false; title = codes "t"; body = codes "b"; fcm_token = codes "tok" });
  unwritable = [];
  resolving = none;
  named = true;
  completions = answered ∷ answered ∷ record { failed = true; answer = [] } ∷ [];
  running = none;
}

abbrev tester : Tester
tester = record { process = fresh_process; push = new_push }

push_test_ends_example :
    ((main toy (codes "beast") notify_cfg.ntf push_outside tester).0
      ≡ ok (status (fine toy (codes "beast") notify_cfg.ntf push_outside.reading push_outside)))
    × ((main toy (codes "beast") notify_cfg.ntf push_outside tester).1.push.written
        ≡ requests toy (codes "beast") notify_cfg.ntf push_outside.reading push_outside)
push_test_ends_example = push_test_ends toy (codes "beast") notify_cfg.ntf push_outside tester refl

-- Options with a key of two bytes.
abbrev options : Options
options = record {
  help = false;
  git_sha1 = false;
  cfg = record {
    help = go_on;
    ssl_cert_file = [];
    ssl_priv_key_file = [];
    ssl_dh_file = [];
    logfilter = notice;
    core = record cfg { redis = record cfg.redis { chat_msg_prefix = codes "msg" } };
    handshake_timeout = pos 2;
    idle_timeout = pos 30;
    post_interval = pos 10;
    post_expiration = pos 100;
  };
  logfilter_str = codes "info";
}

stored_announced_example :
    let c = (get_cfg 2 options).core in
    let key = c.redis.chat_msg_prefix ++ codes "al" in
    let channel = c.redis.notify_prefix ++ codes "0__:" ++ key in
    ((fetch_messages toy c (codes "al") online).redis
      ≡ subscribe channel
        ∷ subscribe (c.redis.presence_channel_prefix ++ codes "al")
        ∷ lrange key (pos 0) (negsuc 0)
        ∷ del key
        ∷ [])
    × ((store_chat_msg c (codes "hi" ∷ []) (codes "al") online).redis
        ≡ incr c.redis.chat_msgs_counter_key
          ∷ rpush key (codes "hi" ∷ [])
          ∷ expire key c.redis.chat_msg_exp_time
          ∷ publish c.redis.notify_channel (codes "hi")
          ∷ [])
    × (on_push toy c (codes "message" ∷ channel ∷ codes "rpush" ∷ []) online
        ≡ (ok tt, queue_fetch toy c key online))
stored_announced_example =
    stored_announced 2 options (codes "al") (codes "hi") [] online online refl refl refl (λ e. cc)

-- A file as in src/config/occase-db.conf, whose name for the expiration has a dash in place of the last underscore.
abbrev nothing_given : Str → Option Str
nothing_given name = none

abbrev dashed : Str → Option Str
dashed name = if str_eq name (codes "redis-user-msg-exp-time") then some (codes "1") else none

abbrev one : Str → Option ℤ
one s = some (pos 1)

abbrev port : Str → Option ℕ
port s = some 80

dashed_ignored :
    read_options one port (codes "bad") dashed ≡ read_options one port (codes "bad") nothing_given
dashed_ignored = read_options-names one port (codes "bad") dashed nothing_given (
  refl,
  (
    refl,
    (
      refl,
      (
        refl,
        (
          refl,
          (
            refl,
            (
              refl,
              (
                refl,
                (
                  refl,
                  (
                    refl,
                    (
                      refl,
                      (
                        refl,
                        (
                          refl,
                          (
                            refl,
                            (
                              refl,
                              (
                                refl,
                                (
                                  refl,
                                  (
                                    refl,
                                    (
                                      refl,
                                      (
                                        refl,
                                        (
                                          refl,
                                          (
                                            refl,
                                            (
                                              refl,
                                              (
                                                refl,
                                                (
                                                  refl,
                                                  (
                                                    refl,
                                                    (
                                                      refl,
                                                      (
                                                        refl,
                                                        (
                                                          refl,
                                                          (
                                                            refl,
                                                            (
                                                            refl,
                                                            (
                                                            refl,
                                                            (refl, (refl, (refl, (refl, tt)))),
                                                            ),
                                                            ),
                                                          ),
                                                        ),
                                                      ),
                                                    ),
                                                  ),
                                                ),
                                              ),
                                            ),
                                          ),
                                        ),
                                      ),
                                    ),
                                  ),
                                ),
                              ),
                            ),
                          ),
                        ),
                      ),
                    ),
                  ),
                ),
              ),
            ),
          ),
        ),
      ),
    ),
  ),
)

-- Both programs are given another channel.
abbrev channel_given : Str → Option Str
channel_given name = if str_eq name (codes "redis-notify-channel") then some (codes "n") else none

abbrev read_config_c : Config
read_config_c = record {
  redis_notify_channel = codes "n";
  redis_tokens_key = codes "fcm_tokens";
  ntf = notify_cfg.ntf;
  max_msg_size = pos 2000;
  wait_interval = pos 5;
}

config_read : read_config one port (codes "bad") channel_given notify_cfg.ntf ≡ some read_config_c
unfolding read_config int text
config_read = refl
