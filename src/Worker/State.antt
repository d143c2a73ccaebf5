-- ===== src/Worker/State.antt =====
-- src/worker.hpp: the state of a worker, with the objects that it shares: the sessions behind
-- their pointers, the commands given to the redis connection, the clock and the generator.
use occase.Base.{ℕ, Bool, List, [], ◌∷◌, ◌++◌, ℤ, Str, ◌==◌, if◌then◌else◌, Option}
use occase.Platform.{Platform}
use occase.Exec.{Exec, pure, gets, ◌>>=◌}
use occase.Session.{Session, send}
use occase.Acceptor
use occase.Acceptor.{Acceptor, Binding}
use occase.Channel.{Channel}
use occase.Assoc.{lookup}
use occase.Config.{Core}

-- The commands of aedis::request that the worker uses.
pub data Command : Type 0 where
  hvals hgetall subscribe unsubscribe del incr : Str → Command
  lrange : Str → ℤ → ℤ → Command
  hset : Str → List (Str × Str) → Command
  hdel : Str → List Str → Command
  hincrby : Str → Str → ℤ → Command
  publish : Str → Str → Command
  rpush : Str → List Str → Command
  expire : Str → ℤ → Command
  quit : Command

-- `sessions` maps a user id to a weak pointer, a pointer `p` is locked while `alive p`, and
-- `heap p` is the session that it points to. `posts` is the member posts_.
pub record World (P : Platform) : Type 0 where
  pub clock : ℤ
  pub number_of_sessions : ℤ
  pub sessions : List (Str × ℕ)
  pub heap : ℕ → Session
  pub alive : ℕ → Bool
  pub posts : Channel
  pub redis : List Command
  pub chat_queue : List Str
  pub gen : P.Gen
  pub acceptor : Acceptor
  pub signals_cancelled : Bool

abbrev pub update {ℓ} : {A : Type ℓ} → (ℕ → A) → ℕ → A → ℕ → A
update f p v q = if p == q then v else f q

-- `std::prev(end)` of a range that is not empty.
abbrev pub last_or : Str → List Str → Str
last_or d [] = d
last_or d (x ∷ xs) = last_or x xs

-- `sessions_.find(user_id)`
abbrev pub find_session : {P : Platform} → Str → Exec (World P) (Option ℕ)
find_session user_id = gets (λ w. lookup user_id w.sessions)

-- `lock()` on the pointer of an entry.
abbrev pub lock : {P : Platform} → ℕ → Exec (World P) Bool
lock p = gets (λ w. w.alive p)

-- A request of the redis connection.
unfoldable pub send_redis : {P : Platform} → List Command → World P → World P
send_redis cs w = record w { redis = w.redis ++ cs }

-- A call that changes posts_.
unfoldable pub with_posts : {P : Platform} → (Channel → Channel) → World P → World P
with_posts f w = record w { posts = f w.posts }

-- A change of acceptor_.
unfoldable pub with_acceptor : {P : Platform} → (Acceptor → Acceptor) → World P → World P
with_acceptor f w = record w { acceptor = f w.acceptor }

-- `acceptor_.run`
unfoldable pub run_acceptor : {P : Platform} → Binding → Exec (World P) (Unit {0})
run_acceptor b w = let (r, a) = Acceptor.run b w.acceptor in (r, record w { acceptor = a })

-- The same, unless the acceptor is open.
unfoldable pub open_acceptor : {P : Platform} → Binding → Exec (World P) (Unit {0})
open_acceptor b = do
  is_open ← gets (λ w. w.acceptor.is_open)
  if is_open then pure tt else run_acceptor b

-- A method of the session behind a pointer.
unfoldable pub with_session : {P : Platform} → ℕ → (Session → Session) → World P → World P
with_session p f w = record w { heap = update w.heap p (f (w.heap p)) }

-- `s->send(msg, persist)`
unfoldable pub send_to : {P : Platform} → ℕ → Str → Bool → Exec (World P) (Unit {0})
unfolding send
send_to p msg persist w =
    let (r, s) = send msg persist (w.heap p) in (r, record w { heap = update w.heap p s })

module _ (cfg : Core) where
  -- worker::store_chat_msg
  unfoldable pub store_chat_msg : {P : Platform} → List Str → Str → World P → World P
  unfolding send_redis
  store_chat_msg [] to w = w
  store_chat_msg (m ∷ ms) to w =
      let key : Str = cfg.redis.chat_msg_prefix ++ to in
      send_redis
        (incr cfg.redis.chat_msgs_counter_key
          ∷ rpush key (m ∷ ms)
          ∷ expire key cfg.redis.chat_msg_exp_time
          ∷ publish cfg.redis.notify_channel (last_or m ms)
          ∷ [])
        w
