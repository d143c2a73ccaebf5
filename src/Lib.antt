-- ===== src/Lib.antt =====
-- A model of the occase server: a node (occase-db) that keeps a channel of posts and forwards chat
-- messages between users, and the notifier (occase-notify) that tells users who are offline.
--
-- The parts and their files (paths of the C++ files from the repository's root):
--   Base         tests, lists, texts as lists of bytes, integers
--   Platform     what is not in the repository: JSON, libsodium, random numbers, what is left in values
--                that were moved from, given by laws
--   Exec         code that changes a state, may throw, and may end the process
--   Log          src/logger.hpp, src/logger.cpp: levels and the filter
--   Limits       src/system.cpp: the limit on open files
--   Program      main and get_cfg of src/occase-db.cpp, and load_ssl of src/net.cpp; Program/Table has
--                the options and their defaults, Program/Prefixes what is derived from them;
--                Program/Notify is main of src/occase-notify.cpp with the start of the notifier,
--                Program/NotifyTable its options; Program/PushTest is main of src/notify-test.cpp
--   Assoc        std::unordered_map with string keys
--   Config       src/config.hpp and the derived prefixes of src/occase-db.cpp
--   Post         src/post.hpp, src/post.cpp: a post, and in Post/Json its JSON form
--   Crypto       src/crypto.cpp: digests and random strings
--   Channel      src/channel.cpp: the sorted posts (channel::get is get, and so on); Channel/Tests has
--                the unit tests of src/occase-db-tests.cpp
--   Acceptor     src/acceptor_mgr.cpp: listening and accepting
--   Session      src/ws_session.hpp: the write queue and flags of a websocket session
--   Worker       src/worker.cpp: State holds the state of the node and its requests to redis, Db the
--                handlers of what redis sends, Api the operations behind HTTP, App the commands of a
--                client, Life the begin and end of sessions and of the node, Events their sequences
--   Notifier     src/notifier.cpp: tokens, timers, notifications; Notifier/Push is the session of
--                src/ntf_session.cpp that sends one
--   Http         src/http_session_impl.hpp: targets, routing, handlers and answers; Http/Connection is
--                the life of an accepted connection (detect_session of src/acceptor_mgr.cpp,
--                src/http_plain_session.hpp, src/http_ssl_session.cpp)
--   Client       src/occase-db-tests.cpp: the texts of a client, its requests against a node, in
--                Client/Sockets its coroutines over a websocket, in Client/Turns the order in which
--                an executor can run two of them, and in Client/Main its main
--   System       the node and the notifier together: what one publishes is what the other reads
--   Examples     a platform that runs, and concrete states
--
-- A client's text reaches Worker/App through Session; the operations of Http call Worker/Api; both
-- give commands to redis, which are kept in a list in the order they are sent, and what redis sends
-- back is an event with its contents. Sessions are found through a heap of pointers, since the
-- worker holds weak pointers that may have expired. A failed assertion and an exception that leaves
-- a noexcept function end the process (aborted); exceptions are values (thrown). A nlohmann::json
-- value is used by its laws only. Loops are recursions on lists, and on the number of rounds for the
-- random strings; decimal digits use as fuel the number itself plus one, which is more than its
-- digits. An int is an integer without overflow, and its range is a condition where a text is read
-- back. The value that an uninitialised int has is an argument.
--
-- An asynchronous operation is a phase or a counter of the state, and what it completes with is
-- given to its handler; the streams themselves are not there, but what was written to them is.
--
-- Not modelled: sockets, TLS, websockets and HTTP streams, whose calls are parameters or phases; the
-- HTTP parser; redis itself; the reading of a command line and of a file, of which what is read for the
-- name of an option is a parameter; and what the test client writes
-- to std::clog. They are I/O or calls of libraries. The formatting library is not modelled either; where
-- a text that is not fixed is its format string, what it gives for it, or that it throws, is a parameter.
pub mod Base
pub mod Platform
pub mod Exec
pub mod Log
pub mod Limits
pub mod Assoc
pub mod Crypto
pub mod Config
pub mod Program
pub mod Post
pub mod Channel
pub mod Acceptor
pub mod Session
pub mod Worker
pub mod Notifier
pub mod Http
pub mod Client
pub mod System
pub mod Examples
