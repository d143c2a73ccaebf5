-- ===== src/Client/Flows.antt =====
-- src/occase-db-tests.cpp: the requests of a client, one after another. `exchange` gives a request to
-- the node, which is a parameter, and returns its answer; the calls of a `Wire` are
-- those of the library for a websocket and for the output. What is written to std::clog is left out.
use occase.Base.{◌≡◌, List, ◌∷◌, ℕ, Bool, true, false, [], ◌++◌, Str, codes, if◌then◌else◌}
use occase.Platform.{Platform}
use occase.Exec.{Exec, Result, ok, thrown, aborted, pure, or_throw, ◌>>=◌, ◌>>◌}
use occase.Worker.State.{World}
use occase.Http.{Response, Status, success, not_found, bad_request}
use occase.Client.{
  UserCred, CredPubHelper, no_cred_pub, HttpRequest, make_req, cred_from_json, ack_from_json,
  make_publish_body, make_search_body,
}

-- `connect` makes a stream and connects it; `handshake` is async_handshake with the target "/";
-- `read` is async_read with the text of the buffer, which is then consumed; `spawn` starts a detached
-- coroutine; `print` writes a line to std::cout; `what` is the message of the exception that is
-- handled.
pub record Wire (S : Type 0) : Type 0 where
  pub resolve : Str → Str → Exec S (Unit {0})
  pub connect : Exec S ℕ
  pub handshake : ℕ → Str → Exec S (Unit {0})
  pub write : ℕ → Str → Exec S (Unit {0})
  pub read : ℕ → Exec S Str
  pub read_some : ℕ → Exec S (Unit {0})
  pub close : ℕ → Exec S (Unit {0})
  pub spawn : Exec S (Unit {0}) → Exec S (Unit {0})
  pub print : Str → Exec S (Unit {0})
  pub what : Exec S Str

-- `try` with a handler that uses the exception.
abbrev pub handle : {S A : Type 0} → Result A × S → Exec S A → Result A × S
handle (ok a, s) h = (ok a, s)
handle (thrown, s) h = h s
handle (aborted, s) h = (aborted, s)

abbrev pub try : {S A : Type 0} → Exec S A → Exec S A → Exec S A
try m h s = handle (m s) h

-- A node and the lines that its clients print.
pub record Bench (P : Platform) : Type 0 where
  pub node : World P
  pub output : List Str

abbrev pub on_node : {P : Platform} {A : Type 0} → Bench P → Result A × World P → Result A × Bench P
on_node b (r, w) = (r, record b { node = w })

-- A line that is printed is put behind the others.
abbrev pub Prints : {P : Platform} → Wire (Bench P) → Type 0
Prints {P} W =
    (line : Str) (b : Bench P)
    → W.print line b ≡ (ok tt, record b { output = b.output ++ line ∷ [] })

-- `res.result() == http::status::ok`
unfoldable pub is_ok : Status → Bool
is_ok success = true
is_ok not_found = false
is_ok bad_request = false

unfoldable pub verdict : Bool → Str → Str
verdict b msg = if b then codes "Success: " ++ msg else codes "Error: " ++ msg

module _ {S : Type 0} (W : Wire S) where
  open W use {print, what}

  unfoldable pub assert_true : Bool → Str → Exec S (Unit {0})
  assert_true b msg = print (verdict b msg)

  unfoldable pub report_error : Exec S (Unit {0})
  report_error = do e ← what; print (codes "Error: " ++ e)

module _ (P : Platform) {S : Type 0} (exchange : HttpRequest → Exec S Response) where
  unfoldable pub make_request : Str → Str → Str → Exec S Response
  make_request target host body = exchange (make_req host target body)

  unfoldable pub posts_search : Str → Str → Exec S Response
  posts_search host target = do body ← or_throw (make_search_body P); make_request target host body

module _ (P : Platform) {S : Type 0} (exchange : HttpRequest → Exec S Response) (W : Wire S) where
  open P use {parse}

  -- A request for an identity, with the test of its status, whose answer is read.
  unfoldable pub get_cred : Str → Exec S UserCred
  unfolding assert_true
  get_cred host = do
    res1 ← make_request P exchange (codes "/get-user-id") host []
    assert_true W (is_ok res1.status) (codes "get-user-id")
    j ← or_throw (parse res1.body)
    or_throw (cred_from_json P j)

  -- The publication, with the same test.
  unfoldable pub publish_with : Str → UserCred → Exec S CredPubHelper
  unfolding assert_true
  publish_with host cred = do
    body ← or_throw (make_publish_body P cred)
    res2 ← make_request P exchange (codes "/posts/publish") host body
    assert_true W (is_ok res2.status) (codes "get-user-id")
    j ← or_throw (parse res2.body)
    pack ← or_throw (ack_from_json P j)
    pure (record { cred = cred; pack = pack })

  unfoldable pub cred_pub : Str → Exec S CredPubHelper
  cred_pub host =
      try (do cred ← get_cred host; publish_with host cred) (do report_error W; pure no_cred_pub)
