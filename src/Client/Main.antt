-- ===== src/Client/Main.antt =====
-- src/occase-db-tests.cpp (main): which coroutines the chosen test starts. `limits` stands for
-- set_fd_limits and `ioc_run` for the loop that runs what was started.
use occase.Base.{ℕ, zero, suc, Bool, [], ◌∷◌, List, ℤ, pos, Str, codes, int_eq, ◌++◌, if◌then◌else◌}
use occase.Platform.{Platform}
use occase.Exec.{Exec, pure, ◌>>◌}
use occase.Crypto.{rounds}
use occase.Http.{Response}
use occase.Channel.Tests.{query_test, visualizations_test}
use occase.Client.{HttpRequest}
use occase.Client.Flows.{Wire, assert_true, posts_search}
use occase.Client.Sockets.{tcp_timeout, no_login, publisher, offline}

pub record TestOptions : Type 0 where
  pub host : Str
  pub port : Str
  pub publishers : ℤ
  pub repliers : ℤ
  pub offline_tests : ℤ
  pub test : ℤ

-- What the options library gives where an option is left out.
abbrev default_options : TestOptions
default_options = record {
  host = codes "127.0.0.1";
  port = codes "8080";
  publishers = pos 2;
  repliers = pos 10;
  offline_tests = pos 10;
  test = pos 1;
}

repeat : {A : Type 0} → ℕ → A → List A
repeat zero a = []
repeat (suc n) a = a ∷ repeat n a

module _ (P : Platform) {S : Type 0} (exchange : HttpRequest → Exec S Response) (W : Wire S)
    (limits ioc_run : Exec S (Unit {0})) where
  open W use {resolve, spawn, print}

  -- posts_search, whose requests are those of `exchange`.
  search : Str → Str → Str → Exec S (Unit {0})
  search host port target = do
    resolve host port
    posts_search P exchange host target
    print (codes "Success: search/count.")

  check_each : List Bool → List Str → Exec S (Unit {0})
  check_each (b ∷ bs) (label ∷ labels) = do assert_true W b label; check_each bs labels
  check_each _ _ = pure tt

  -- The checks of channel_tests with their labels, in their order.
  channel_tests : Exec S (Unit {0})
  unfolding check_each repeat
  channel_tests =
      check_each (query_test ++ visualizations_test)
        (codes "channel_tests" ∷ codes "channel_test" ∷ repeat 6 (codes "channel_tests"))

  -- The coroutines of a test.
  coroutines : TestOptions → List (Exec S (Unit {0}))
  unfolding repeat search
  coroutines op =
      let chosen : ℤ → Bool = λ n. int_eq op.test n in
      if chosen (pos 1)
      then tcp_timeout P exchange W op.host op.port ∷ []
      else if chosen (pos 2)
      then search op.host op.port (codes "/posts/search") ∷ []
      else if chosen (pos 3)
      then search op.host op.port (codes "/posts/count") ∷ []
      else if chosen (pos 4)
      then no_login P exchange W op.host op.port ∷ []
      else if chosen (pos 5)
      then repeat (rounds op.publishers) (publisher P exchange W op.host op.port op.repliers)
      else if chosen (pos 6)
      then repeat (rounds op.offline_tests) (offline P exchange W op.host op.port)
      else []

  spawn_each : List (Exec S (Unit {0})) → Exec S (Unit {0})
  spawn_each [] = pure tt
  spawn_each (c ∷ cs) = do spawn c; spawn_each cs

  main : Bool → TestOptions → Exec S ℕ
  unfolding coroutines spawn_each channel_tests
  main help op = if help then pure 0 else (do
    limits
    spawn_each (coroutines op)
    if int_eq op.test (pos 7) then channel_tests else pure tt
    ioc_run
    pure 0)
