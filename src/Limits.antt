-- ===== src/Limits.antt =====
-- src/system.cpp: the limit on the open files of a process. `show` is the formatting of two numbers, and
-- `errors` counts the lines of perror.
use occase.Base.{
  ℕ, suc, ◌-◌, ◌%◌, ◌≡◌, refl, Bool, true, false, ◌&&◌, ◌++◌, Option, none, some, ℤ, pos, negsuc,
  Str, codes, if◌then◌else◌,
}
use occase.Log.{Log, info, err, write}

pub record Rlimit : Type 0 where
  pub rlim_cur : ℕ
  pub rlim_max : ℕ

pub record Machine : Type 0 where
  pub log : Log
  pub limit : Rlimit
  pub errors : ℕ

-- Whether getrlimit succeeds, and the error of setrlimit, if it fails.
pub record Calls : Type 0 where
  pub got : Bool
  pub set : Option Str

-- The conversion of an int to rlim_t.
to_rlim : ℤ → ℕ
to_rlim (pos n) = n % 18446744073709551616
to_rlim (negsuc n) = 18446744073709551615 - n % 18446744073709551616

abbrev both : ℕ → Rlimit
both n = record { rlim_cur = n; rlim_max = n }

module _ (show : ℕ → ℕ → Str) where
  -- The line about a limit, which gives the soft limit twice.
  limit_line : Rlimit → Str
  limit_line rl = codes "getrlimit (soft, hard): " ++ show rl.rlim_cur rl.rlim_cur

  raise_limits : Rlimit → Option Str → Machine → Machine
  unfolding limit_line
  raise_limits rl none m = record m { limit = rl; log = write info (limit_line rl) m.log }
  raise_limits rl (some e) m = record m {
    log = write err (codes "Unable to raise fd limits: " ++ e) m.log;
  }

  set_fd_limits : ℤ → Calls → Machine → Machine
  unfolding raise_limits to_rlim
  set_fd_limits fds calls m =
      if calls.got
      then (let logged : Machine = record m { log = write info (limit_line m.limit) m.log } in
          raise_limits (both (to_rlim fds)) calls.set logged)
      else record m { errors = suc m.errors }

  abbrev succeeds : Option Str → Bool
  succeeds none = true
  succeeds (some e) = false

  limits_of :
      (fds : ℤ) (got : Bool) (set : Option Str) (m : Machine) (hard : ℕ)
      → let calls : Calls = record { got = got; set = set } in
        let harder : Machine = record m { limit = record m.limit { rlim_max = hard } } in
        ((set_fd_limits fds calls m).limit
          ≡ (if got && succeeds set then both (to_rlim fds) else m.limit))
        × ((set_fd_limits fds calls harder).log ≡ (set_fd_limits fds calls m).log)
  unfolding set_fd_limits raise_limits limit_line
  limits_of fds false set m hard = (refl, refl)
  limits_of fds true none m hard = (refl, refl)
  limits_of fds true (some e) m hard = (refl, refl)

  -- Both limits become what is asked for where both calls succeed, and stay as they are otherwise; the
  -- log does not tell the hard limit from another.
  set_fd_limits_cases :
      (fds : ℤ) (calls : Calls) (m : Machine) (hard : ℕ)
      → let harder : Machine = record m { limit = record m.limit { rlim_max = hard } } in
        ((set_fd_limits fds calls m).limit
          ≡ (if calls.got && succeeds calls.set then both (to_rlim fds) else m.limit))
        × ((set_fd_limits fds calls harder).log ≡ (set_fd_limits fds calls m).log)
  set_fd_limits_cases fds calls m hard = limits_of fds calls.got calls.set m hard
