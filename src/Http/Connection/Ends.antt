-- ===== src/Http/Connection/Ends.antt =====
-- src/acceptor_mgr.cpp, src/http_session_impl.hpp and its sessions: how a connection ends.
use occase.Base.{
  ℕ, ◌+◌, ◌-◌, ◌≤◌, ◌≡◌, refl, Bool, true, false, List, [], ◌∷◌, ℤ, length, length-append, arith,
}
use occase.Platform.{Platform}
use occase.Exec.{ok}
use occase.Config.{Core}
use occase.Worker.State.{World}
use occase.Http.Answers.{process_request_answers}
use occase.Http.Connection.{
  Phase, detecting, handshaking, reading, writing, shutting, ended, upgraded, Connection,
  Completion, error, end_of_stream, done, detected, request, accepted, start, end, run_session,
  do_eof, on_detect, on_handshake, on_write, on_shutdown, answer_with, on_read, complete, serve,
}

-- The handlers that may still run.
abbrev pub left : Phase → ℕ
left detecting = 5
left handshaking = 4
left (reading tls) = 3
left (writing tls) = 2
left shutting = 1
left ended = 0
left (upgraded tls) = 0

-- The answers that may still be sent.
abbrev unsent : Phase → ℕ
unsent detecting = 1
unsent handshaking = 1
unsent (reading tls) = 1
unsent (writing tls) = 0
unsent shutting = 0
unsent ended = 0
unsent (upgraded tls) = 0

-- What one handler does with the two bounds.
record Fewer (c d : Connection) : Type 0 where
  fewer : left d.phase ≤ left c.phase - 1
  answers : length d.sent + unsent d.phase ≤ length c.sent + unsent c.phase

module _ (P : Platform) (cfg : Core) (ret : ℤ) where
  read-Fewer :
      (tls : Bool) (r : Completion) (c : Connection) (w : World P)
      → c.phase ≡ reading tls
      → (d : Connection) × (v : World P) × (on_read cfg P ret tls r c w ≡ (ok d, v)) × Fewer c d
  unfolding on_read answer_with do_eof end
  read-Fewer true end_of_stream c w e = (_, w, refl, ground arith)
  read-Fewer false end_of_stream c w e = (_, w, refl, ground arith)
  read-Fewer tls (request true req) c w e = (_, w, refl, ground arith)
  read-Fewer tls (request false req) c w e =
      let (r, v, s, m, o) = process_request_answers P cfg ret req w in
      (answer_with cfg tls r c, v, rw s refl, ground (arith, length-append c.sent (r ∷ [])))
  read-Fewer tls error c w e = (_, w, refl, ground arith)
  read-Fewer tls done c w e = (_, w, refl, ground arith)
  read-Fewer tls (detected b) c w e = (_, w, refl, ground arith)

  complete-Fewer :
      (p : Phase) (r : Completion) (c : Connection) (w : World P)
      → c.phase ≡ p
      → (d : Connection) × (v : World P) × (complete cfg P ret p r c w ≡ (ok d, v)) × Fewer c d
  unfolding complete on_detect on_handshake on_write on_shutdown do_eof run_session start end
  complete-Fewer detecting (detected true) c w e = (_, w, refl, ground arith)
  complete-Fewer detecting (detected false) c w e = (_, w, refl, ground arith)
  complete-Fewer detecting error c w e = (_, w, refl, ground arith)
  complete-Fewer detecting end_of_stream c w e = (_, w, refl, ground arith)
  complete-Fewer detecting done c w e = (_, w, refl, ground arith)
  complete-Fewer detecting (request u req) c w e = (_, w, refl, ground arith)
  complete-Fewer handshaking done c w e = (_, w, refl, ground arith)
  complete-Fewer handshaking error c w e = (_, w, refl, ground arith)
  complete-Fewer handshaking end_of_stream c w e = (_, w, refl, ground arith)
  complete-Fewer handshaking (detected b) c w e = (_, w, refl, ground arith)
  complete-Fewer handshaking (request u req) c w e = (_, w, refl, ground arith)
  complete-Fewer (reading tls) r c w e = read-Fewer tls r c w e
  complete-Fewer (writing true) r c w e = (_, w, refl, ground arith)
  complete-Fewer (writing false) r c w e = (_, w, refl, ground arith)
  complete-Fewer shutting r c w e = (_, w, refl, ground arith)
  complete-Fewer ended r c w e = (_, w, refl, ground arith)
  complete-Fewer (upgraded tls) r c w e = (_, w, refl, ground arith)

  serve-bounds :
      (rs : List Completion) (c : Connection) (w : World P)
      → (d : Connection) × (v : World P) × (serve cfg P ret rs c w ≡ (ok d, v))
        × (left d.phase ≤ left c.phase - length rs)
        × (length d.sent + unsent d.phase ≤ length c.sent + unsent c.phase)
  unfolding serve
  serve-bounds [] c w = (c, w, refl, omega arith, omega arith)
  serve-bounds (r ∷ rs) c w =
      let (d, v, s, f) = complete-Fewer c.phase r c w refl in
      let (x, u, t, b, a) = serve-bounds rs d v in
      (x, u, rw s t, omega (arith, b, f.fewer), omega (arith, a, f.answers))

-- Every accepted connection comes to an end: whatever its operations complete with, the handlers
-- return, at most one answer is sent, and each of them leaves fewer that may still run, five at most
-- from the beginning; none is left where the connection has ended or was handed to a websocket session.
pub connection_ends :
    (P : Platform) (cfg : Core) (ret : ℤ) (rs : List Completion) (w : World P)
    → (d : Connection) × (v : World P) × (serve cfg P ret rs accepted w ≡ (ok d, v))
      × (length d.sent ≤ 1)
      × (left d.phase ≤ 5 - length rs)
connection_ends P cfg ret rs w =
    let (d, v, s, b, a) = serve-bounds P cfg ret rs accepted w in (d, v, s, omega (arith, a), b)
