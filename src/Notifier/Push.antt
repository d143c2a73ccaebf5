-- ===== src/Notifier/Push.antt =====
-- src/ntf_session.hpp and src/ntf_session.cpp: the session that hands one notification to the
-- service. A phase names the asynchronous operation that is outstanding; `timeout` is the one set
-- last, `written` lists the requests given to async_write, and `printed` the bodies of answers put
-- on the standard output. `user_agent` is the version string of the HTTP library.
pub mod Exchange
use occase.Base.{
  ℕ, Bool, true, false, not, List, [], ◌∷◌, ◌++◌, Option, none, some, ℤ, pos, Str, codes, length,
  if◌then◌else◌,
}
use occase.Notifier.{NtfConfig}

pub data Phase : Type 0 where
  created connecting handshaking writing reading shutting ended : Phase

pub record Request : Type 0 where
  pub version : ℤ
  pub method : Str
  pub target : Str
  pub host : Str
  pub content_type : Str
  pub authorization : Str
  pub user_agent : Str
  pub content_length : ℕ
  pub body : Str

pub record Push : Type 0 where
  pub phase : Phase
  pub req : Option Request
  pub timeout : Option ℤ
  pub written : List Request
  pub printed : List Str

-- What an operation completes with: whether there is an error, and the body of res_, which only a
-- read fills.
pub record Completion : Type 0 where
  pub failed : Bool
  pub answer : Str

-- ntf_session::timeout
abbrev timeout : ℤ
timeout = pos 30

abbrev pub new_push : Push
new_push = record { phase = created; req = none; timeout = none; written = []; printed = [] }

unfoldable pub close : Push → Push
close s = record s { phase = ended }

unfoldable pub write_request : Option Request → List Request → List Request
write_request none l = l
write_request (some r) l = l ++ r ∷ []

unfoldable pub on_connect : Completion → Push → Push
unfolding close
on_connect c s = if c.failed then close s else record s { phase = handshaking }

unfoldable pub on_handshake : Completion → Push → Push
unfolding close write_request
on_handshake c s = if c.failed then close s else record s {
  phase = writing;
  timeout = some timeout;
  written = write_request s.req s.written;
}

unfoldable pub on_write : Completion → Push → Push
unfolding close
on_write c s = if c.failed then close s else record s { phase = reading }

-- The status of the answer is only logged.
unfoldable pub on_read : Completion → Push → Push
unfolding close
on_read c s =
    if c.failed
    then close s
    else record s { phase = shutting; timeout = some timeout; printed = s.printed ++ c.answer ∷ [] }

unfoldable pub on_shutdown : Completion → Push → Push
unfolding close
on_shutdown c s = close s

-- The handler of the outstanding operation.
unfoldable pub complete : Phase → Completion → Push → Push
complete created c s = s
complete connecting c s = on_connect c s
complete handshaking c s = on_handshake c s
complete writing c s = on_write c s
complete reading c s = on_read c s
complete shutting c s = on_shutdown c s
complete ended c s = s

unfoldable pub serve : List Completion → Push → Push
serve [] s = s
serve (c ∷ cs) s = serve cs (complete s.phase c s)

module _ (user_agent : Str) (cfg : NtfConfig) where
  unfoldable pub make_request : Str → Request
  make_request body = record {
    version = cfg.version;
    method = codes "POST";
    target = cfg.fcm_target;
    host = cfg.fcm_host;
    content_type = codes "application/json";
    authorization = cfg.fcm_server_token;
    user_agent = user_agent;
    content_length = length body;
    body = body;
  }

  -- `named` is the result of SSL_set_tlsext_host_name.
  unfoldable pub run : Bool → Str → Push → Push
  unfolding close
  run named body s =
      if not named then close s else record s { req = some (make_request body); phase = connecting }
