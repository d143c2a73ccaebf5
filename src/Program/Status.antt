-- ===== src/Program/Status.antt =====
-- src/occase-db.cpp: the exit status of a node.
use occase.Base.{
  ℕ, ◌≡◌, refl, inl, inr, Bool, Bool-cases, true, false, not, ◌&&◌, ◌||◌, Option, none, some, Str,
  length, ◌==◌, if◌then◌else◌, ltb, codes, arith,
}
use occase.Exec.{Result, ok, thrown, aborted, continue}
use occase.Log.{Level, Log, emerg, notice, rank, ignore, to_level, upto, write}
use occase.Config.{with_ssl}
use occase.Program.{
  ConfigAll, Options, Reading, parsed, invalid, SslCalls, Outside, Process, get_cfg, complete,
  checked, or_raise, load_ssl, init_libsodium, load_files, start_node, serve, node_for, configured,
  handled, main, log_what,
}

abbrev pub succeeds : Option Str → Bool
succeeds none = true
succeeds (some m) = false

-- Whether all the TLS files can be loaded.
abbrev all_loaded : SslCalls → Bool
all_loaded c =
    succeeds c.password_callback
    && succeeds c.options
    && succeeds c.certificate_chain
    && succeeds c.private_key
    && succeeds c.tmp_dh

abbrev files_fine : ConfigAll → SslCalls → Bool
files_fine cfg c =
    not (with_ssl cfg.ssl_cert_file cfg.ssl_priv_key_file cfg.ssl_dh_file) || all_loaded c

-- Whether a node with the options starts and runs to its end.
abbrev pub runs : ℕ → Options → Outside → Bool
runs key_bytes o out =
    (length o.cfg.core.mms_key == key_bytes)
    && (out.sodium && files_fine o.cfg out.ssl && succeeds out.running)

abbrev pub fine : ℕ → Reading → Outside → Bool
fine key_bytes (invalid message) out = false
fine key_bytes (parsed o) out = o.help || o.git_sha1 || runs key_bytes o out

abbrev succeeds_in : Option Str → Bool
succeeds_in none = false
succeeds_in (some text) = true

abbrev pub status : Bool → ℕ
status b = if b then 0 else 1

-- The message of the exception that loading the TLS files ends with: only the call for the private
-- key throws.
abbrev files_raised : ConfigAll → SslCalls → Option Str
files_raised cfg c =
    if with_ssl cfg.ssl_cert_file cfg.ssl_priv_key_file cfg.ssl_dh_file
    then (if succeeds c.password_callback && (succeeds c.options && succeeds c.certificate_chain)
        then c.private_key
        else none)
    else none

abbrev first : Option Str → Option Str → Option Str
first (some m) o = some m
first none o = o

-- The message that ends a start, once libsodium is initialised.
abbrev start_raised : ConfigAll → Outside → Option Str
start_raised cfg out =
    first (files_raised cfg out.ssl) (if files_fine cfg out.ssl then out.running else none)

abbrev pub with_level : Level → Option Str → Option (Level × Str)
with_level l none = none
with_level l (some m) = some (l, m)

-- The exception that reaches the handler of `main`, if one does, with the log's filter at that time.
abbrev pub raised : ℕ → Level → Reading → Outside → Option (Level × Str)
raised key_bytes l (invalid message) out = some (l, message)
raised key_bytes l (parsed o) out =
    if o.help || o.git_sha1 || not (length o.cfg.core.mms_key == key_bytes)
    then none
    else if out.sodium
    then with_level (to_level o.logfilter_str) (start_raised o.cfg out)
    else some (l, codes "Error: Cannot initialize libsodium.")

-- What the program ends with, from whether it is fine and the exception, if there is one: lines of
-- the level `notice` are written unless the filter is below it.
abbrev pub outcome : (Str → Option Str) → Bool → Option (Level × Str) → Result ℕ
outcome format b none = ok (status b)
outcome format b (some (l, m)) =
    if ltb (rank l) (rank notice) then ok 1 else if succeeds_in (format m) then ok 1 else aborted

-- What is given to the handler.
abbrev pub Ends : Result ℕ × Process → Bool → Option (Level × Str) → Type 0
Ends x b none = x.0 ≡ ok (status b)
Ends x b (some (l, m)) = (x.0 ≡ thrown) × (x.1.what ≡ m) × (x.1.log.filter ≡ l)

write_then :
    (format : Str → Option Str) (p : Process) (o : Option Str)
    → format p.what ≡ o
    → (handled format thrown p).0 ≡ outcome format false (some (p.log.filter, p.what))
unfolding handled log_what ignore
write_then format p none e = rw e (ground arith)
write_then format p (some text) e = rw e (ground arith)

pub handled-Ends :
    (format : Str → Option Str) (x : Result ℕ × Process) (b : Bool) (o : Option (Level × Str))
    → Ends x b o
    → (handled format x.0 x.1).0 ≡ outcome format b o
handled-Ends format x b none e = unfold handled in rw e refl
handled-Ends format x b (some (l, m)) (e, w, f) =
    rw (e, ← w, ← f) (write_then format x.1 (format x.1.what) refl)

-- The steps of a start keep the filter of the log.
write-filter : (l : Level) (text : Str) (log : Log) → (write l text log).filter ≡ log.filter
unfolding write
write-filter l text log = ground arith

-- What loading the files ends with: a Boolean, or an exception with its message.
abbrev Loads : Result Bool × Process → Level → Bool → Option Str → Type 0
Loads x l b none = (x.0 ≡ ok b) × (x.1.log.filter ≡ l)
Loads x l b (some m) = (x.0 ≡ thrown) × (x.1.what ≡ m) × (x.1.log.filter ≡ l) × (b ≡ false)

load_ssl-Loads :
    (a b c d e : Option Str) (p : Process)
    → let calls : SslCalls = record {
      password_callback = a;
      options = b;
      certificate_chain = c;
      private_key = d;
      tmp_dh = e;
    } in
      Loads
        (load_ssl calls p)
        p.log.filter
        (all_loaded calls)
        (if succeeds a && (succeeds b && succeeds c) then d else none)
unfolding load_ssl checked or_raise
load_ssl-Loads (some m) b c d e p = (refl, write-filter emerg _ p.log)
load_ssl-Loads none (some m) c d e p = (refl, write-filter emerg _ p.log)
load_ssl-Loads none none (some m) d e p = (refl, write-filter emerg _ p.log)
load_ssl-Loads none none none (some m) e p = (refl, refl, refl, refl)
load_ssl-Loads none none none none (some m) p = (refl, write-filter emerg _ p.log)
load_ssl-Loads none none none none none p = (refl, refl)

load_files-Loads :
    (cfg : ConfigAll) (c : SslCalls) (p : Process)
    → Loads (load_files cfg c p) p.log.filter (files_fine cfg c) (files_raised cfg c)
unfolding load_files
load_files-Loads cfg c p =
    elim (Bool-cases (with_ssl cfg.ssl_cert_file cfg.ssl_priv_key_file cfg.ssl_dh_file)) [
      | inl e ↦ rw e (
          load_ssl-Loads c.password_callback c.options c.certificate_chain c.private_key c.tmp_dh p)
      | inr e ↦ rw e (refl, refl)
    ]

serve-Ends :
    (loaded : Bool) (running : Option Str) (p : Process)
    → Ends
        (serve loaded running p)
        (loaded && succeeds running)
        (with_level p.log.filter (if loaded then running else none))
unfolding serve or_raise
serve-Ends false running p = refl
serve-Ends true none p = refl
serve-Ends true (some m) p = (refl, refl, refl)

after_files :
    (l : Level) (b : Bool) (x : Result Bool × Process) (running : Option Str) (o : Option Str)
    → Loads x l b o
    → Ends
        (continue x.0 x.1 (λ loaded. serve loaded running))
        (b && succeeds running)
        (with_level l (first o (if b then running else none)))
after_files l b x running none (e, f) = rw (e, ← f) (serve-Ends b running x.1)
after_files l b x running (some m) (e, w, f, n) = rw e (refl, w, f)

start-Ends :
    (cfg : ConfigAll) (out : Outside) (p : Process)
    → Ends (start_node cfg out p) (out.sodium && files_fine cfg out.ssl && succeeds out.running) (
        if out.sodium
        then with_level cfg.logfilter (start_raised cfg out)
        else some (p.log.filter, codes "Error: Cannot initialize libsodium."))
unfolding start_node init_libsodium or_raise upto
start-Ends cfg out p = elim (Bool-cases out.sodium) [
  | inl e ↦ rw e (
      after_files cfg.logfilter (files_fine cfg out.ssl) _ out.running (files_raised cfg out.ssl)
        (load_files-Loads cfg out.ssl _))
  | inr e ↦ rw e (refl, refl, refl)
]

parsed-Ends :
    (key_bytes : ℕ) (o : Options) (out : Outside) (p : Process)
    → Ends
        (configured key_bytes (parsed o) out p)
        (fine key_bytes (parsed o) out)
        (raised key_bytes p.log.filter (parsed o) out)
unfolding configured get_cfg complete node_for
parsed-Ends key_bytes o out p = elim (Bool-cases o.help) [
  | inl e ↦ rw e refl
  | inr e ↦ elim (Bool-cases o.git_sha1) [
    | inl f ↦ rw (e, f) refl
    | inr f ↦ elim (Bool-cases (length o.cfg.core.mms_key == key_bytes)) [
      | inl g ↦ rw (e, f, g) (start-Ends (complete o) out p)
      | inr g ↦ rw (e, f, g) refl
    ]
  ]
]

configured-Ends :
    (key_bytes : ℕ) (reading : Reading) (out : Outside) (p : Process)
    → Ends
        (configured key_bytes reading out p)
        (fine key_bytes reading out)
        (raised key_bytes p.log.filter reading out)
configured-Ends key_bytes (parsed o) out p = parsed-Ends key_bytes o out p
configured-Ends key_bytes (invalid message) out p =
    unfold configured in unfold or_raise in (refl, refl, refl)

-- How the program ends, for every outcome of the calls at its start, unless a running node ends the
-- process. Where no exception is thrown, with 0 where help or the version was asked for, or where the
-- key for images has the right size, libsodium is initialised, all five calls that load the TLS files
-- succeed, if the three files are given, and the node runs to its end; and with 1 otherwise. An
-- exception comes from refused options, from libsodium, from the call for the private key or from the
-- running node; the program then ends with 1, unless notices are logged and the exception's message,
-- which is used as a format string, is refused by the formatting library: then the process is
-- terminated. The log's filter is that of the options from the moment it is set.
pub main_status :
    (key_bytes : ℕ) (out : Outside) (p : Process)
    → (main key_bytes out p).0
      ≡ outcome out.format
          (fine key_bytes out.reading out)
          (raised key_bytes p.log.filter out.reading out)
unfolding main
main_status key_bytes out p =
    handled-Ends out.format _ _ _ (configured-Ends key_bytes out.reading out p)
