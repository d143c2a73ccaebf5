-- ===== src/Notifier.antt =====
-- src/notifier.hpp, src/notifier.cpp and src/ntf_session.cpp: the process that tells users of
-- messages that wait for them. `pending` is the time at which the outstanding wait of a user's timer
-- ends; `sent` lists the notifications handed to a session, each with the user it is for.
pub mod Tokens
pub mod Timers
pub mod Armed
pub mod Push
use occase.Base.{
  ℕ, zero, suc, Bool, true, false, not, ◌&&◌, ◌||◌, List, [], ◌∷◌, ◌++◌, Option, none, some, ℤ, pos,
  negsuc, dec, add_ℕ, Str, codes, str_eq, is_empty, ltb, take, length, if◌then◌else◌, maybe,
}
use occase.Platform.{Platform, object, string_at}
use occase.Exec.{Exec, aborted, pure, modify, gets, or_throw, catching, noexcept, ◌>>=◌, ◌>>◌}
use occase.Assoc.{lookup, assign, erase, insert}

pub record UserEntry (P : Platform) : Type 0 where
  pub token : Str
  pub msg : P.Json
  pub pending : Option ℤ

-- ntf_session::config
pub record NtfConfig : Type 0 where
  pub fcm_port : Str
  pub fcm_host : Str
  pub fcm_target : Str
  pub fcm_server_token : Str
  pub version : ℤ

-- notifier::config
pub record Config : Type 0 where
  pub redis_notify_channel : Str
  pub redis_tokens_key : Str
  pub ntf : NtfConfig
  pub max_msg_size : ℤ
  pub wait_interval : ℤ

pub record Notifier (P : Platform) : Type 0 where
  pub clock : ℤ
  pub tokens : List (Str × UserEntry P)
  pub sent : List (Str × Str)

abbrev pub redis_del_ntf : Str
redis_del_ntf = codes "__keyevent@0__:del"

unfoldable pub is_fcm_valid : NtfConfig → Bool
is_fcm_valid c = not (
    is_empty c.fcm_port
    || is_empty c.fcm_host
    || is_empty c.fcm_target
    || is_empty c.fcm_server_token)

unfoldable pub has_token : {P : Platform} → UserEntry P → Bool
has_token e = not (is_empty e.token)

-- A time and an interval.
unfoldable pub later : ℤ → ℤ → ℤ
later t (pos n) = add_ℕ t n
later t (negsuc zero) = dec t
later t (negsuc (suc n)) = dec (later t (negsuc n))

-- The message is cut; `resize` to a negative size throws.
unfoldable pub cut : Str → ℤ → Option Str
cut msg (pos n) = some (if ltb n (length msg) then take n msg else msg)
cut msg (negsuc n) = none

pub is_pmessage : List Str → Str → Bool
is_pmessage (kind ∷ pattern ∷ channel ∷ payload ∷ []) m =
    str_eq kind (codes "pmessage") && str_eq pattern m
is_pmessage _ m = false

pub is_message : List Str → Str → Bool
is_message (kind ∷ name ∷ payload ∷ []) channel =
    str_eq kind (codes "message") && str_eq name channel
is_message _ channel = false

-- `v.back()` of an array that is not empty.
pub back : List Str → Str
back [] = []
back (x ∷ []) = x
back (x ∷ y ∷ xs) = back (y ∷ xs)

module _ (P : Platform) where
  open P use {Json, parse, dump, of_string, empty_object}

  unfoldable pub fresh_entry : Str → UserEntry P
  fresh_entry token = record { token = token; msg = empty_object; pending = none }

  -- A change of tokens_.
  pub with_tokens : (List (Str × UserEntry P) → List (Str × UserEntry P)) → Notifier P → Notifier P
  with_tokens f n = record n { tokens = f n.tokens }

  -- src/ntf_session.cpp
  unfoldable pub make_ntf_body : Str → Str → Str → Option Str
  make_ntf_body msg_title msg_body fcm_token =
      let text : Str → Json = of_string in
      dump (
        object P (
          (
            codes "notification",
            object P (
                (codes "title", text msg_title)
                ∷ (codes "body", text msg_body)
                ∷ (codes "tag", text (codes "chat"))
                ∷ []),
          )
          ∷ (codes "priority", text (codes "high"))
          ∷ (codes "collapse_key", text (codes "chat"))
          ∷ (
            codes "data",
            object P (
                (codes "click_action", text (codes "FLUTTER_NOTIFICATION_CLICK"))
                ∷ (codes "id", text (codes "1"))
                ∷ (codes "status", text (codes "done"))
                ∷ []),
          )
          ∷ (codes "to", text fcm_token)
          ∷ []))

  unfoldable pub make_tokens_file_content : List (Str × UserEntry P) → Str
  make_tokens_file_content [] = []
  make_tokens_file_content ((user_id, e) ∷ m) =
      user_id ++ codes "\n" ++ e.token ++ codes "\n" ++ make_tokens_file_content m

module _ (P : Platform) (cfg : Config) where
  open P use {Json, parse, at}

  -- The message is kept and the timer set, which cancels an outstanding wait.
  pub arm : Str → Json → UserEntry P → Notifier P → Notifier P
  arm to j e n =
      with_tokens P
        (assign to (record e { msg = j; pending = some (later n.clock cfg.wait_interval) })) n

  pub on_ntf_message : Json → Exec (Notifier P) (Unit {0})
  on_ntf_message j = do
    to ← or_throw (string_at P j (codes "to"))
    if not (is_fcm_valid cfg.ntf) then pure tt else (do
      match ← gets (λ (n : Notifier P). lookup to n.tokens)
      maybe match (pure tt) (λ e. if not (has_token e) then pure tt else modify (arm to j e)))

  pub notify : Str → UserEntry P → Exec (Notifier P) (Unit {0})
  notify user_id e = do
    body ← or_throw (string_at P e.msg (codes "body"))
    msg ← or_throw (cut body cfg.max_msg_size)
    nick ← or_throw (string_at P e.msg (codes "nick"))
    ntf_body ← or_throw (make_ntf_body P nick msg e.token)
    modify (λ n. record n { sent = n.sent ++ (user_id, ntf_body) ∷ [] })

  -- `cancelled` is operation_aborted. The iterator is the key of its entry: erasing an entry cancels
  -- its wait, so that it is not read again.
  pub on_timeout : Bool → Str → Exec (Notifier P) (Unit {0})
  on_timeout cancelled user_id =
      if cancelled
      then pure tt
      else catching tt (do
        match ← gets (λ (n : Notifier P). lookup user_id n.tokens)
        maybe match (λ n. (aborted, n)) (notify user_id))

  pub on_ntf_del : Str → Notifier P → Notifier P
  on_ntf_del key n =
      maybe (lookup key n.tokens) n
        (λ e. with_tokens P (assign key (record e { pending = none })) n)

  -- `insert`, and the newest token where there is an entry.
  pub reset_token : Str → Str → Notifier P → Notifier P
  reset_token user_id token n =
      maybe (lookup user_id n.tokens) (with_tokens P (assign user_id (fresh_entry P token)) n)
        (λ e. with_tokens P (assign user_id (record e { token = token })) n)

  pub on_token : Json → Exec (Notifier P) (Unit {0})
  on_token j = do
    user_id ← or_throw (string_at P j (codes "user_id"))
    token ← or_throw (string_at P j (codes "token"))
    if is_empty token
        then modify (with_tokens P (erase user_id))
        else modify (reset_token user_id token)

  pub on_ntf_publish : Str → Exec (Notifier P) (Unit {0})
  on_ntf_publish payload = do
    j ← or_throw (parse payload)
    cmd ← or_throw (string_at P j (codes "cmd"))
    if str_eq cmd (codes "message")
        then on_ntf_message j
        else if str_eq cmd (codes "token")
        then on_token j
        else pure tt

  unfoldable pub on_push : List Str → Exec (Notifier P) (Unit {0})
  on_push v = catching tt (
      if is_pmessage v redis_del_ntf
      then modify (on_ntf_del (back v))
      else if is_message v cfg.redis_notify_channel
      then on_ntf_publish (back v)
      else pure tt)

  unfoldable pub on_hgetall : List Str → Notifier P → Notifier P
  on_hgetall (user_id ∷ token ∷ tokens) n =
      on_hgetall tokens (with_tokens P (insert user_id (fresh_entry P token)) n)
  on_hgetall _ n = n

-- What happens to the notifier: the messages and the reply of the database, time, and the end of the
-- wait of a user's timer, once it is due.
pub data Event : Type 0 where
  push hgetall : List Str → Event
  time : ℤ → Event
  fire : Str → Event

abbrev pub int_leb : ℤ → ℤ → Bool
int_leb (pos a) (pos b) = not (ltb b a)
int_leb (pos a) (negsuc b) = false
int_leb (negsuc a) (pos b) = true
int_leb (negsuc a) (negsuc b) = not (ltb a b)

module _ (P : Platform) (cfg : Config) where
  -- The wait is over, and its handler runs.
  pub expire : Str → UserEntry P → Exec (Notifier P) (Unit {0})
  expire user_id e = do
    modify (with_tokens P (assign user_id (record e { pending = none })))
    on_timeout P cfg false user_id

  pub due : Option ℤ → ℤ → Bool
  due none now = false
  due (some t) now = int_leb t now

  pub fire_timer : Str → Exec (Notifier P) (Unit {0})
  fire_timer user_id n =
      maybe (lookup user_id n.tokens) (pure tt n)
        (λ e. if due e.pending n.clock then expire user_id e n else pure tt n)

  unfoldable pub step : Event → Exec (Notifier P) (Unit {0})
  step (push v) = on_push P cfg v
  step (hgetall v) = modify (on_hgetall P cfg v)
  step (time now) = modify (λ n. record n { clock = now })
  step (fire user_id) = fire_timer user_id

  unfoldable pub run : List Event → Exec (Notifier P) (Unit {0})
  run [] = pure tt
  run (e ∷ es) = do step e; run es

  pub start : ℤ → Notifier P
  start now = record { clock = now; tokens = []; sent = [] }
