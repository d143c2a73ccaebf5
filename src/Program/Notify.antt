-- ===== src/Program/Notify.antt =====
-- src/occase-notify.cpp and src/notifier.cpp (init, run): the start of the notifier. The state and the
-- outcomes of calls are those of a node's start.
use occase.Base.{
  ℕ, ◌≡◌, refl, Bool, true, false, ◌||◌, List, [], ◌∷◌, ◌++◌, Option, none, some, Str, codes,
  if◌then◌else◌,
}
use occase.Exec.{Exec, pure, modify, ◌>>◌}
use occase.Log.{Level, debug, notice, to_level, upto, write}
use occase.Notifier.{Config, redis_del_ntf}
use occase.Program.{Process, or_raise, handled, log_with}
use occase.Program.Status.{succeeds, with_level, outcome, Ends, handled-Ends}

-- The commands of aedis::request that the notifier uses.
pub data Request : Type 0 where
  psubscribe subscribe hgetall : Str → Request

-- The notifier listens before it reads the stored tokens.
init : Config → List Request
init cfg =
    psubscribe redis_del_ntf
    ∷ subscribe cfg.redis_notify_channel
    ∷ hgetall cfg.redis_tokens_key
    ∷ []

-- What the options library read.
pub record Options : Type 0 where
  pub help : Bool
  pub logfilter_str : Str

pub data Reading : Type 0 where
  parsed : Options → Reading
  invalid : Str → Reading

pub record Outside : Type 0 where
  pub format : Str → Option Str
  pub reading : Reading
  pub resolving : Option Str
  pub running : Option Str

-- notifier::run: where the service's host is not found, it returns.
run : Option Str → Option Str → Exec Process (Unit {0})
run (some message) running = modify (log_with (write debug (codes "run: " ++ message)))
run none running = or_raise running

start : Options → Outside → Exec Process ℕ
unfolding run
start o out = if o.help then pure 0 else (do
  modify (log_with (upto (to_level o.logfilter_str)))
  run out.resolving out.running
  modify (log_with (write notice (codes "Exiting with status 0 ...")))
  pure 0)

configured : Reading → Outside → Exec Process ℕ
unfolding start
configured (invalid message) out = do or_raise (some message); pure 1
configured (parsed o) out = start o out

main : Outside → Exec Process ℕ
unfolding configured
main out p = let (r, q) = configured out.reading out p in handled out.format r q

abbrev not_found : Option Str → Bool
not_found none = false
not_found (some message) = true

abbrev fine : Reading → Outside → Bool
fine (invalid message) out = false
fine (parsed o) out = o.help || (not_found out.resolving || succeeds out.running)

-- The exception that reaches the handler of `main`, with the log's filter at that time.
abbrev raised : Level → Reading → Outside → Option (Level × Str)
raised l (invalid message) out = some (l, message)
raised l (parsed o) out =
    if o.help || not_found out.resolving
    then none
    else with_level (to_level o.logfilter_str) out.running

start-Ends :
    (help : Bool) (filter : Str) (resolving running : Option Str) (out : Outside) (p : Process)
    → let o : Options = record { help = help; logfilter_str = filter } in
      let calls : Outside = record out { resolving = resolving; running = running } in
      Ends
        (start o calls p)
        (help || (not_found resolving || succeeds running))
        (raised p.log.filter (parsed o) calls)
unfolding start run or_raise upto
start-Ends true filter resolving running out p = refl
start-Ends false filter (some message) running out p = refl
start-Ends false filter none (some message) out p = (refl, refl, refl)
start-Ends false filter none none out p = refl

configured-Ends :
    (reading : Reading) (out : Outside) (p : Process)
    → Ends (configured reading out p) (fine reading out) (raised p.log.filter reading out)
unfolding configured or_raise
configured-Ends (invalid message) out p = (refl, refl, refl)
configured-Ends (parsed o) out p = start-Ends o.help o.logfilter_str out.resolving out.running out p

-- The notifier's program ends with 0 where help was asked for, where its loop ends without an
-- exception, and also where the host of the service is not found, so that it does not run at all; and
-- where an exception is thrown with 1, unless its message is refused as a format string while notices
-- are logged: then the process is terminated.
notifier_status :
    (out : Outside) (p : Process)
    → (main out p).0
      ≡ outcome out.format (fine out.reading out) (raised p.log.filter out.reading out)
unfolding main
notifier_status out p = handled-Ends out.format _ _ _ (configured-Ends out.reading out p)
