-- ===== src/Http/Connection.antt =====
-- src/acceptor_mgr.cpp (detect_session), src/http_plain_session.hpp, src/http_ssl_session.cpp and
-- src/http_session_impl.hpp: the life of an accepted connection. A phase names the asynchronous
-- operation that is outstanding; `timeout` is the one set last, `sent` the answers given to the
-- stream, and `shut` says that the sending side was shut down.
pub mod Ends
use occase.Base.{Bool, true, false, List, [], ◌∷◌, ◌++◌, Option, none, some, ℤ, pos, if◌then◌else◌}
use occase.Platform.{Platform}
use occase.Exec.{Exec, pure, modify, gets, ◌>>=◌, ◌>>◌}
use occase.Config.{Core}
use occase.Worker.State.{World}
use occase.Http.{Request, Response, process_request}

-- The Boolean says that the stream is a TLS stream. A connection that is upgraded belongs to a
-- websocket session.
pub data Phase : Type 0 where
  detecting handshaking : Phase
  reading writing : Bool → Phase
  shutting ended : Phase
  upgraded : Bool → Phase

pub record Connection : Type 0 where
  pub phase : Phase
  pub timeout : Option ℤ
  pub sent : List Response
  pub shut : Bool

-- What an operation completes with: an error, the end of the stream, the result of the detection, a
-- request, with whether it asks for an upgrade, or nothing.
pub data Completion : Type 0 where
  error end_of_stream done : Completion
  detected : Bool → Completion
  request : Bool → Request → Completion

-- detect_session::run
abbrev pub accepted : Connection
accepted = record { phase = detecting; timeout = some (pos 30); sent = []; shut = false }

unfoldable pub start : Bool → Connection → Connection
start tls c = record c { phase = reading tls }

unfoldable pub end : Connection → Connection
end c = record c { phase = ended }

module _ (cfg : Core) where
  -- `run` of the TLS and of the plain session.
  unfoldable pub run_session : Bool → Connection → Connection
  unfolding start
  run_session true c = record c { phase = handshaking; timeout = some cfg.http_session_timeout }
  run_session false c = start false (record c { timeout = some cfg.http_session_timeout })

  unfoldable pub do_eof : Bool → Connection → Connection
  do_eof true c = record c {
    phase = shutting;
    timeout = some cfg.ssl_shutdown_timeout;
    shut = true;
  }
  do_eof false c = record c { phase = ended; shut = true }

  unfoldable pub on_detect : Completion → Connection → Connection
  unfolding run_session end
  on_detect (detected result) c = run_session result c
  on_detect _ c = end c

  unfoldable pub on_handshake : Completion → Connection → Connection
  unfolding start end
  on_handshake done c = start true c
  on_handshake _ c = end c

  unfoldable pub on_write : Bool → Connection → Connection
  on_write tls c = do_eof tls c

  unfoldable pub on_shutdown : Connection → Connection
  unfolding end
  on_shutdown c = end c

  unfoldable pub answer_with : Bool → Response → Connection → Connection
  answer_with tls r c = record c { phase = writing tls; sent = c.sent ++ r ∷ [] }

  -- http_session_impl::on_read
  unfoldable pub on_read :
      (P : Platform) (ret : ℤ) → Bool → Completion → Connection → Exec (World P) Connection
  on_read P ret tls end_of_stream c = pure (do_eof tls c)
  on_read P ret tls (request true req) c = pure (record c { phase = upgraded tls; timeout = none })
  on_read P ret tls (request false req) c = do
    r ← process_request P cfg ret req
    pure (answer_with tls r c)
  on_read P ret tls _ c = pure (end c)

  -- The handler of the outstanding operation.
  unfoldable pub complete :
      (P : Platform) (ret : ℤ) → Phase → Completion → Connection → Exec (World P) Connection
  complete P ret detecting r c = pure (on_detect r c)
  complete P ret handshaking r c = pure (on_handshake r c)
  complete P ret (reading tls) r c = on_read P ret tls r c
  complete P ret (writing tls) r c = pure (on_write tls c)
  complete P ret shutting r c = pure (on_shutdown c)
  complete P ret ended r c = pure c
  complete P ret (upgraded tls) r c = pure c

  unfoldable pub serve :
      (P : Platform) (ret : ℤ) → List Completion → Connection → Exec (World P) Connection
  serve P ret [] c = pure c
  serve P ret (r ∷ rs) c = do d ← complete P ret c.phase r c; serve P ret rs d
