-- ===== src/Program.antt =====
-- src/occase-db.cpp and src/net.cpp: the start of a node. The state is the log, and
-- `what` is the message of the exception that was thrown last. What the calls of libraries end with is
-- given: `none` is success and a text is the message of the error.
pub mod Status
pub mod Notify
pub mod PushTest
pub mod Table
pub mod NotifyTable
pub mod Prefixes
use occase.Base.{
  ℕ, Bool, true, false, not, ◌&&◌, ◌||◌, [], ◌∷◌, ◌++◌, Option, none, some, ℤ, Str, codes, length,
  ◌==◌, if◌then◌else◌,
}
use occase.Exec.{Exec, ok, thrown, pure, modify, or_throw, noexcept, ◌>>=◌, ◌>>◌, Result}
use occase.Config.{Core, Timeouts, derive_prefixes, with_ssl}
use occase.Log.{Level, emerg, notice, Log, new_log, to_level, upto, ignore, write}

-- config_all, with 0 to go on, 1 for help and -1 for an error in `help`.
pub data Help : Type 0 where
  go_on shown refused : Help

pub record ConfigAll : Type 0 where
  pub help : Help
  pub ssl_cert_file : Str
  pub ssl_priv_key_file : Str
  pub ssl_dh_file : Str
  pub logfilter : Level
  pub core : Core
  pub handshake_timeout : ℤ
  pub idle_timeout : ℤ
  pub post_interval : ℤ
  pub post_expiration : ℤ

unfoldable pub get_timeouts : ConfigAll → Timeouts
get_timeouts c = record {
  handshake = c.handshake_timeout;
  idle = c.idle_timeout;
  post_interval = c.post_interval;
  post_expiration = c.post_expiration;
}

-- What the options library read: whether "help" and "git-sha1" were given, the fields, and the name of
-- the level.
pub record Options : Type 0 where
  pub help : Bool
  pub git_sha1 : Bool
  pub cfg : ConfigAll
  pub logfilter_str : Str

-- What `get_cfg` derives from the options.
unfoldable pub complete : Options → ConfigAll
unfolding get_timeouts
complete o =
    let cfg : ConfigAll = o.cfg in
    let core : Core = cfg.core in
    record cfg {
      help = go_on;
      core = record core { redis = derive_prefixes core.redis; timeouts = get_timeouts cfg };
      logfilter = to_level o.logfilter_str;
    }

-- The end of `get_cfg`. `key_bytes` is crypto_generichash_KEYBYTES.
unfoldable pub get_cfg : ℕ → Options → ConfigAll
get_cfg key_bytes o =
    let cfg : ConfigAll = o.cfg in
    let core : Core = cfg.core in
    if o.help
    then record cfg { help = shown }
    else if o.git_sha1
    then record cfg { help = shown }
    else if not (length core.mms_key == key_bytes)
    then record cfg { help = refused }
    else complete o

pub record Process : Type 0 where
  pub log : Log
  pub what : Str

abbrev pub fresh_process : Process
fresh_process = record { log = new_log; what = [] }

-- A change of the log.
abbrev log_with : (Log → Log) → Process → Process
log_with f p = record p { log = f p.log }

-- The calls of ssl::context in `load_ssl`.
pub record SslCalls : Type 0 where
  pub password_callback : Option Str
  pub options : Option Str
  pub certificate_chain : Option Str
  pub private_key : Option Str
  pub tmp_dh : Option Str

-- `if (ec)`: a line of the log, and `false`.
unfoldable pub checked : Option Str → Str → Exec Process Bool → Exec Process Bool
checked none prefix rest = rest
checked (some message) prefix rest = do
  modify (log_with (write emerg (prefix ++ message)))
  pure false

-- A call without an error code throws.
unfoldable pub or_raise : Option Str → Exec Process (Unit {0})
or_raise none = pure tt
or_raise (some message) = do modify (λ (p : Process). record p { what = message }); or_throw none

unfoldable pub load_ssl : SslCalls → Exec Process Bool
load_ssl c = checked c.password_callback [] (
    checked c.options (codes "load_ssl: set_options: ") (
      checked c.certificate_chain (codes "load_ssl use_certificate_chain_file: ") (do
        or_raise c.private_key
        checked c.tmp_dh (codes "load_ssl use_tmp_dh_file: ") (pure true))))

-- What the options library ends with.
pub data Reading : Type 0 where
  parsed : Options → Reading
  invalid : Str → Reading

-- What the program depends on: the options, which may be refused by an exception, whether
-- sodium_init succeeds, the calls of the TLS library, and the message of the exception that ends
-- `run`, if one does. `format` is fmt::format of a format string and no arguments, where `none` stands
-- for an exception.
pub record Outside : Type 0 where
  pub format : Str → Option Str
  pub reading : Reading
  pub sodium : Bool
  pub ssl : SslCalls
  pub running : Option Str

-- src/crypto.cpp
unfoldable pub init_libsodium : Bool → Exec Process (Unit {0})
unfolding or_raise
init_libsodium true = pure tt
init_libsodium false = or_raise (some (codes "Error: Cannot initialize libsodium."))

unfoldable pub load_files : ConfigAll → SslCalls → Exec Process Bool
load_files cfg calls =
    if with_ssl cfg.ssl_cert_file cfg.ssl_priv_key_file cfg.ssl_dh_file
    then load_ssl calls
    else pure true

-- The node is run, unless the files were not loaded.
unfoldable pub serve : Bool → Option Str → Exec Process ℕ
serve loaded running =
    if not loaded
    then (do modify (log_with (write notice (codes "Unable to load ssl files."))); pure 1)
    else (do
      or_raise running
      modify (log_with (write notice (codes "Exiting with status 0 ...")))
      pure 0)

unfoldable pub start_node : ConfigAll → Outside → Exec Process ℕ
unfolding load_files
start_node cfg out = do
  init_libsodium out.sodium
  modify (log_with (upto cfg.logfilter))
  loaded ← load_files cfg out.ssl
  serve loaded out.running

unfoldable pub node_for : Help → ConfigAll → Outside → Exec Process ℕ
node_for shown cfg out = pure 0
node_for refused cfg out = pure 1
node_for go_on cfg out = start_node cfg out

unfoldable pub configured : ℕ → Reading → Outside → Exec Process ℕ
unfolding node_for
configured key_bytes (invalid message) out = do or_raise (some message); pure 1
configured key_bytes (parsed o) out = let cfg = get_cfg key_bytes o in node_for cfg.help cfg out

-- `log::write(level, e.what())`: the message of the exception is the format string.
unfoldable pub log_what : (Str → Option Str) → Level → Exec Process (Unit {0})
log_what format level p =
    if ignore level p.log
    then (ok tt, p)
    else (do text ← or_throw (format p.what); modify (log_with (write level text))) p

-- The handler of exceptions at the end of `main`. What is thrown in it leaves `main`, which ends the
-- process.
unfoldable pub handled : (Str → Option Str) → Result ℕ → Process → Result ℕ × Process
unfolding log_what
handled format thrown p =
    noexcept
      (do
        log_what format notice
        modify (log_with (write notice (codes "Exiting with status 1 ...")))
        pure 1)
      p
handled format r p = (r, p)

unfoldable pub main : ℕ → Outside → Exec Process ℕ
main key_bytes out p = let (r, q) = configured key_bytes out.reading out p in handled out.format r q
