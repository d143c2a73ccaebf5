-- ===== src/Acceptor.antt =====
-- src/acceptor_mgr.hpp, src/acceptor_mgr.cpp: the acceptor. `waiting` counts the outstanding calls of
-- async_accept, `detected` the connections handed to a detect_session.
pub mod Accepting
use occase.Base.{ℕ, zero, suc, ◌-◌, Bool, true, false, if◌then◌else◌}
use occase.Exec.{Exec, ok, thrown}

pub record Acceptor : Type 0 where
  pub is_open : Bool
  pub cancelled : Bool
  pub waiting : ℕ
  pub detected : ℕ

-- The outcome of `bind`, which throws, and of `listen`.
pub data Binding : Type 0 where
  bind_fails listen_fails listens : Binding

-- What an accept ends with: operation_aborted, another error, or a peer.
pub data Accepted : Type 0 where
  operation_aborted error peer : Accepted

abbrev pub closed_acceptor : Acceptor
closed_acceptor = record { is_open = false; cancelled = false; waiting = 0; detected = 0 }

unfoldable pub do_accept : Acceptor → Acceptor
do_accept a = record a { waiting = suc a.waiting }

-- The accept is no longer outstanding when its handler runs.
unfoldable pub on_accept : Accepted → Acceptor → Acceptor
unfolding do_accept
on_accept operation_aborted a = record a { waiting = a.waiting - 1 }
on_accept error a = do_accept (record a { waiting = a.waiting - 1 })
on_accept peer a = do_accept (record a { waiting = a.waiting - 1; detected = suc a.detected })

-- `open` comes before `bind`, so an acceptor whose `bind` threw is open.
unfoldable pub run : Binding → Exec Acceptor (Unit {0})
unfolding do_accept
run bind_fails a = (thrown, record a { is_open = true })
run listen_fails a = (ok tt, record a { is_open = true })
run listens a = (ok tt, do_accept (record a { is_open = true }))

-- `cancel` on an acceptor that is open.
unfoldable pub shutdown : Acceptor → Acceptor
shutdown a = if a.is_open then record a { cancelled = true } else a
