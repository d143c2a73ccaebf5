-- ===== src/Client/Sockets.antt =====
-- src/occase-db-tests.cpp: the coroutines of the client that talk over a websocket. The library's calls
-- are the fields of a `Wire`, with a number for each stream; a call that fails throws. What is written
-- to std::clog is left out.
use occase.Base.{ℕ, zero, suc, [], ◌++◌, ℤ, Str, codes, str_eq}
use occase.Platform.{Platform}
use occase.Exec.{Exec, pure, or_throw, ◌>>=◌, ◌>>◌}
use occase.Crypto.{rounds}
use occase.Http.{Response}
use occase.Client.{
  UserCred, CredPubHelper, HttpRequest, Message, cred_from_json, message_from_json, make_login,
  make_message,
}
use occase.Client.Flows.{
  Wire, try, is_ok, verdict, assert_true, report_error, make_request, cred_pub,
}

unfoldable pub log_text : UserCred → Message → Str
log_text cred msg =
    codes "User "
    ++ cred.user_id
    ++ codes " received message to "
    ++ msg.to
    ++ codes " from "
    ++ msg.from
    ++ codes ". Type "
    ++ msg.type

module _ (P : Platform) {S : Type 0} (exchange : HttpRequest → Exec S Response) (W : Wire S) where
  open W use {resolve, connect, handshake, write, read, read_some, close, spawn, print, what}

  unfoldable pub assert_equal : Str → Str → Str → Exec S (Unit {0})
  assert_equal a b msg = print (verdict (str_eq a b) msg)

  -- A request for an identity, with the test of its status.
  unfoldable pub request_cred : Str → Exec S UserCred
  unfolding assert_true
  request_cred host = do
    res1 ← make_request P exchange (codes "/get-user-id") host []
    assert_true W (is_ok res1.status) (codes "get-user-id")
    j_cred ← or_throw (P.parse res1.body)
    or_throw (cred_from_json P j_cred)

  -- A stream that is connected to the node and upgraded.
  unfoldable pub open_stream : Str → Str → Exec S ℕ
  open_stream host port = do ws ← connect; handshake ws (host ++ codes ":" ++ port); pure ws

  unfoldable pub log_in : ℕ → UserCred → Exec S Str
  log_in ws cred = do login ← or_throw (make_login P cred); write ws login; read ws

  -- A message is read and logged.
  unfoldable pub read_message : ℕ → UserCred → Exec S Message
  read_message ws cred = do
    msg_str ← read ws
    j_msg ← or_throw (P.parse msg_str)
    msg ← or_throw (message_from_json P j_msg)
    print (log_text cred msg)
    pure msg

  -- launch_replier, "Server ack": the message is sent, and the node's acknowledgement read.
  unfoldable pub replier_ack : ℕ → UserCred → Exec S (Unit {0})
  unfolding read_message assert_equal
  replier_ack ws cred = do
    msg ← read_message ws cred
    assert_equal cred.user_id msg.to (codes "launch_replier")
    assert_equal msg.type (codes "server_ack") (codes "launch_replier")

  unfoldable pub send_and_ack : ℕ → UserCred → Str → Exec S (Unit {0})
  unfolding replier_ack
  send_and_ack ws cred text = do write ws text; replier_ack ws cred

  -- launch_replier, "App msg": the answer of the publisher.
  unfoldable pub app_msg : ℕ → UserCred → Exec S (Unit {0})
  unfolding read_message assert_equal
  app_msg ws cred = do
    msg ← read_message ws cred
    assert_equal cred.user_id msg.to (codes "launch_replier")
    assert_equal msg.type (codes "chat") (codes "launch_replier")

  unfoldable pub replier_loop : ℕ → ℕ → UserCred → Str → Exec S (Unit {0})
  replier_loop zero ws cred text = pure tt
  replier_loop (suc n) ws cred text = do
    send_and_ack ws cred text
    app_msg ws cred
    replier_loop n ws cred text

  unfoldable pub launch_replier : Str → Str → Str → Str → ℤ → Exec S (Unit {0})
  unfolding replier_loop
  launch_replier host port post_id user_id n_chat_msgs =
      try
        (do
          cred ← request_cred host
          ws ← open_stream host port
          log_in ws cred
          text ← or_throw (make_message P user_id post_id [])
          replier_loop (rounds n_chat_msgs) ws cred text
          print (codes "Replier Leaving")
          close ws)
        (report_error W)

  -- publisher, "Receive and send": a message about the post is answered.
  unfoldable pub receive_and_send : ℕ → CredPubHelper → Exec S (Unit {0})
  unfolding read_message assert_equal
  receive_and_send ws foo = do
    msg ← read_message ws foo.cred
    assert_equal foo.cred.user_id msg.to (codes "publisher")
    assert_equal foo.pack.id msg.post_id (codes "publisher")
    assert_equal msg.type (codes "chat") (codes "publisher")
    reply ← or_throw (make_message P msg.from msg.post_id [])
    write ws reply

  -- publisher, "Server ack."
  unfoldable pub server_ack : ℕ → CredPubHelper → Exec S (Unit {0})
  unfolding read_message assert_equal
  server_ack ws foo = do
    msg ← read_message ws foo.cred
    assert_equal foo.cred.user_id msg.to (codes "publisher")
    assert_equal foo.pack.id msg.post_id (codes "publisher")
    assert_equal msg.type (codes "server_ack") (codes "publisher")

  unfoldable pub publisher_loop : ℕ → ℕ → CredPubHelper → Exec S (Unit {0})
  publisher_loop zero ws foo = pure tt
  publisher_loop (suc n) ws foo = do
    receive_and_send ws foo
    server_ack ws foo
    publisher_loop n ws foo

  unfoldable pub publisher : Str → Str → ℤ → Exec S (Unit {0})
  unfolding publisher_loop
  publisher host port n_chat_msgs =
      try
        (do
          resolve host port
          foo ← cred_pub P exchange W host
          spawn (launch_replier host port foo.pack.id foo.cred.user_id n_chat_msgs)
          ws ← open_stream host port
          text ← log_in ws foo.cred
          print (codes "Login: " ++ text)
          publisher_loop (rounds n_chat_msgs) ws foo
          print (codes "Publisher Leaving")
          close ws)
        (report_error W)

  -- A stream on which nothing is sent: the node is to drop it.
  unfoldable pub no_login : Str → Str → Exec S (Unit {0})
  no_login host port =
      try (do resolve host port; ws ← open_stream host port; read ws; pure tt)
        (do e ← what; print (codes "Success: No login " ++ e))

  unfoldable pub tcp_timeout : Str → Str → Exec S (Unit {0})
  tcp_timeout host port = do
    try (do resolve host port; socket ← connect; read_some socket) (pure tt)
    print (codes "Success: tcp_timeout.")

  -- A second user sends a message to the first, who is not logged in.
  unfoldable pub offline_peer : Str → Str → CredPubHelper → Exec S (Unit {0})
  offline_peer host port u1 = do
    cred2 ← request_cred host
    ws ← open_stream host port
    log_in ws cred2
    text ← or_throw (make_message P u1.cred.user_id u1.pack.id (codes "offline test"))
    write ws text
    read ws
    close ws

  -- The first user logs in, and reads the acknowledgement and then the message.
  unfoldable pub offline_login : Str → Str → CredPubHelper → Exec S (Unit {0})
  offline_login host port u1 = do
    ws ← open_stream host port
    log_in ws u1.cred
    foo ← read ws
    print (codes "Message received: " ++ foo)
    close ws

  unfoldable pub offline : Str → Str → Exec S (Unit {0})
  unfolding offline_peer offline_login
  offline host port =
      try
        (do
          resolve host port
          u1 ← cred_pub P exchange W host
          offline_peer host port u1
          offline_login host port u1)
        (report_error W)
