-- ===== src/Worker/Leftover.antt =====
-- src/ws_session.hpp (finish) and src/worker.cpp (on_session_dtor): what a session gives back at its
-- end, after any events.
use occase.Base.{List, [], ◌∷◌, ◌++◌, Str}
use occase.Platform.{Platform}
use occase.Config.{Core}
use occase.Worker.State.{Command, incr, rpush, expire, publish, unsubscribe, last_or}

-- The requests that store messages under the key of their user.
abbrev pub stored : Core → Str → List Str → List Command
stored cfg user_id [] = []
stored cfg user_id (m ∷ ms) =
    let key = cfg.redis.chat_msg_prefix ++ user_id in
    incr cfg.redis.chat_msgs_counter_key
    ∷ rpush key (m ∷ ms)
    ∷ expire key cfg.redis.chat_msg_exp_time
    ∷ publish cfg.redis.notify_channel (last_or m ms)
    ∷ []

-- The requests for a user who leaves with these messages.
abbrev pub parting : Core → Str → List Str → List Command
parting cfg user_id msgs =
    unsubscribe (cfg.redis.user_notify_prefix ++ user_id)
    ∷ unsubscribe (cfg.redis.presence_channel_prefix ++ user_id)
    ∷ stored cfg user_id msgs
