-- ===== src/Session.antt =====
-- src/ws_session.hpp: a websocket session. `writes` lists the texts given to async_write, `closes`
-- counts the calls of async_close, and `writing` says that a write has not been completed;
-- `overlapped` is set when a write begins before the last one was completed, which the stream
-- forbids.
pub mod Queue
pub mod Drain
use occase.Base.{
  ℕ, zero, suc, ◌+◌, Bool, true, false, not, ◌&&◌, ◌||◌, List, [], ◌∷◌, ◌++◌, map, Str, is_empty,
  ltb, if◌then◌else◌,
}
use occase.Exec.{Exec, assert, modify, ◌>>=◌, ◌>>◌}

pub record MsgEntry : Type 0 where
  pub msg : Str
  pub persist : Bool

pub record Session : Type 0 where
  pub pong_counter : ℕ
  pub msg_queue : List MsgEntry
  pub closing : Bool
  pub pub_hash : Str
  pub writes : List Str
  pub closes : ℕ
  pub writing : Bool
  pub overlapped : Bool

-- src/ws_session_base.hpp
pub data EvRes : Type 0 where
  register_ok register_fail login_ok login_fail subscribe_ok subscribe_fail : EvRes
  publish_ok publish_fail chat_msg_ok chat_msg_fail presence_ok presence_fail unknown : EvRes

abbrev pub fresh : Session
fresh = record {
  pong_counter = 0;
  msg_queue = [];
  closing = false;
  pub_hash = [];
  writes = [];
  closes = 0;
  writing = false;
  overlapped = false;
}

unfoldable pub do_write : Str → Session → Session
do_write msg s = record s {
  writes = s.writes ++ msg ∷ [];
  writing = true;
  overlapped = s.overlapped || s.writing;
}

unfoldable pub is_logged_in : Session → Bool
is_logged_in s = not (is_empty s.pub_hash)

unfoldable pub set_pub_hash : Str → Session → Session
set_pub_hash hash s = record s { pub_hash = hash }

-- `do_write(msg_queue_.front().msg)`, if there is a front.
unfoldable pub write_front : List MsgEntry → Session → Session
unfolding do_write
write_front [] s = s
write_front (m ∷ ms) s = do_write m.msg s

-- `send` without its assertion.
unfoldable pub enqueue : Str → Bool → Session → Session
unfolding write_front
enqueue msg persist s =
    let queued : Session = record s {
      msg_queue = s.msg_queue ++ record { msg = msg; persist = persist } ∷ [];
    } in
    if is_empty s.msg_queue && not s.closing then write_front queued.msg_queue queued else queued

unfoldable pub send : Str → Bool → Exec Session (Unit {0})
send msg persist = do assert (not (is_empty msg)); modify (enqueue msg persist)

unfoldable pub shutdown : Session → Session
shutdown s = if s.closing then s else record s { closing = true; closes = suc s.closes }

-- `msg_queue_.pop_front()`
abbrev pub pop_front : List MsgEntry → List MsgEntry
pop_front [] = []
pop_front (m ∷ ms) = ms

-- The handler of a write, which is no longer outstanding; `failed` says that there is an error.
unfoldable pub on_write : Bool → Session → Session
unfolding write_front
on_write failed s =
    let done : Session = record s { writing = false } in
    if failed
    then done
    else (let popped : Session = record done { msg_queue = pop_front done.msg_queue } in
        write_front popped.msg_queue popped)

-- The control callback on a pong frame.
unfoldable pub on_pong : Session → Session
unfolding shutdown is_logged_in
on_pong s =
    let counted : Session = record s { pong_counter = s.pong_counter + 1 } in
    if ltb 1 counted.pong_counter && not (is_logged_in counted) then shutdown counted else counted

unfoldable pub handle_ev : EvRes → Session → Session
unfolding shutdown
handle_ev register_fail s = shutdown s
handle_ev login_fail s = shutdown s
handle_ev subscribe_fail s = shutdown s
handle_ev chat_msg_fail s = shutdown s
handle_ev unknown s = shutdown s
handle_ev _ s = s

-- `finish` has taken the entries to be kept out of the queue.
unfoldable pub take_from : (List MsgEntry → List MsgEntry) → Session → Session
take_from moved_from s = record s { msg_queue = moved_from s.msg_queue }

-- The texts that `finish` returns to the database: those to be kept, in the order of the queue.
unfoldable pub undelivered : List MsgEntry → List Str
undelivered [] = []
undelivered (m ∷ ms) = if m.persist then m.msg ∷ undelivered ms else undelivered ms
