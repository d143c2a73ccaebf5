-- ===== src/Client/Turns/Checks.antt =====
-- src/occase-db-tests.cpp (launch_replier, publisher): each part of the two loops, where the text that it
-- reads is there.
use occase.Base.{
  ℕ, ◌≡◌, ◌≢◌, refl, sym, true, false, List, [], ◌∷◌, ◌++◌, some, Str, is_empty, inr, str_eq, codes,
}
use occase.Platform.{Platform}
use occase.Exec.{Exec, Result, ok}
use occase.Assoc.{lookup}
use occase.Config.{Core}
use occase.Session.{MsgEntry, Session}
use occase.Worker.State.{World}
use occase.Http.{Response}
use occase.Client.{UserCred, CredPubHelper, HttpRequest, Message, message_to}
use occase.Client.Flows.{Bench, Wire, verdict}
use occase.Client.Sockets.{
  replier_ack, app_msg, receive_and_send, server_ack, log_text, assert_equal,
}
use occase.Client.Relay.{Waits, entry, Letter, letter_message, ack_message, passed_read, acked_read}
use occase.Client.Turns.{Carries, IsFine}
use occase.Client.Turns.Steps.{Grown, printed, same_IsFine, bench, writes_letter, reads_message}

-- The sessions of the two users and their queues.
pub record Both (r p : ℕ) (u v : Str) (qr qp : List MsgEntry) (h : ℕ → Session) : Type 0 where
  pub at_r : Waits u qr (h r)
  pub at_p : Waits v qp (h p)

-- Both users are logged in on the node.
pub record Connected {P : Platform} (w : World P) (r p : ℕ) (u v : Str) : Type 0 where
  pub full_u : is_empty u ≡ false
  pub full_v : is_empty v ≡ false
  pub entry_u : lookup u w.sessions ≡ some r
  pub entry_v : lookup v w.sessions ≡ some p
  pub alive_r : w.alive r ≡ true
  pub alive_p : w.alive p ≡ true
  pub apart : r ≢ p

-- A part of a loop that has ended well, and the queues that it leaves.
pub record Turned {P : Platform} (w : World P) (r p : ℕ) (u v : Str) (before : List Str)
    (qr qp : List MsgEntry) {A : Type 0} (res : Result A × Bench P) (a : A) : Type 0 where
  pub heap : ℕ → Session
  pub output : List Str
  pub ends : res ≡ (ok a, bench w heap output)
  pub both : Both r p u v qr qp heap
  pub grown : Grown before output

module _ {P : Platform} (cfg : Core) (exchange : HttpRequest → Exec (Bench P) Response)
    {W : Wire (Bench P)} (c : Carries cfg W) (w : World P) (r p : ℕ) (cred : UserCred)
    (foo : CredPubHelper) (k : Connected w r p cred.user_id foo.cred.user_id)
    (l1 : Letter P cfg cred.user_id foo.cred.user_id foo.pack.id)
    (l2 : Letter P cfg foo.cred.user_id cred.user_id foo.pack.id) where
  abbrev to_publisher : MsgEntry
  to_publisher = entry l1.passed true

  abbrev to_replier : MsgEntry
  to_replier = entry l2.passed true

  abbrev replier_acked : MsgEntry
  replier_acked = entry l1.ack false

  abbrev publisher_acked : MsgEntry
  publisher_acked = entry l2.ack false

  abbrev Done :
      List Str → List MsgEntry → List MsgEntry → {A : Type 0} → Result A × Bench P → A → Type 0
  Done before qr qp res a = Turned w r p cred.user_id foo.cred.user_id before qr qp res a

  abbrev Pair : List MsgEntry → List MsgEntry → (ℕ → Session) → Type 0
  Pair qr qp h = Both r p cred.user_id foo.cred.user_id qr qp h

  logged : (cred : UserCred) (msg : Message) → IsFine (log_text cred msg)
  logged cred msg = inr (cred, msg, refl)

  pub replier_ack-Turned :
      (before : List Str) (q qp : List MsgEntry) (h : ℕ → Session) (o : List Str)
      → Pair (replier_acked ∷ q) qp h
      → Grown before o
      → Done before q qp (replier_ack P exchange W r cred (bench w h o)) tt
  unfolding replier_ack assert_equal ack_message
  replier_ack-Turned before q qp h o b g =
      let (j, parsed, read) = acked_read cfg l1 in
      let msg = ack_message foo.cred.user_id cred.user_id foo.pack.id in
      let (h', e, wr, others) =
        reads_message cfg c w exchange cred.user_id replier_acked q r h o cred j msg b.at_r parsed
          read in
      record {
        heap = h';
        output = _;
        ends = rw e (rw (c.prints _ _) (c.prints _ _));
        both = record { at_r = wr; at_p = rw (others p k.apart) b.at_p };
        grown =
            printed before _ _
              (printed before _ _ (printed before o _ g (logged cred msg))
                (same_IsFine cred.user_id (codes "launch_replier")))
              (same_IsFine (codes "server_ack") (codes "launch_replier"));
      }

  pub app_msg-Turned :
      (before : List Str) (q qp : List MsgEntry) (h : ℕ → Session) (o : List Str)
      → Pair (to_replier ∷ q) qp h
      → Grown before o
      → Done before q qp (app_msg P exchange W r cred (bench w h o)) tt
  unfolding app_msg assert_equal letter_message message_to
  app_msg-Turned before q qp h o b g =
      let (j, parsed, read) = passed_read cfg l2 in
      let msg = letter_message P foo.cred.user_id cred.user_id foo.pack.id in
      let (h', e, wr, others) =
        reads_message cfg c w exchange cred.user_id to_replier q r h o cred j msg b.at_r parsed
          read in
      record {
        heap = h';
        output = _;
        ends = rw e (rw (c.prints _ _) (c.prints _ _));
        both = record { at_r = wr; at_p = rw (others p k.apart) b.at_p };
        grown =
            printed before _ _
              (printed before _ _ (printed before o _ g (logged cred msg))
                (same_IsFine cred.user_id (codes "launch_replier")))
              (same_IsFine (codes "chat") (codes "launch_replier"));
      }

  pub server_ack-Turned :
      (before : List Str) (qr q : List MsgEntry) (h : ℕ → Session) (o : List Str)
      → Pair qr (publisher_acked ∷ q) h
      → Grown before o
      → Done before qr q (server_ack P exchange W p foo (bench w h o)) tt
  unfolding server_ack assert_equal ack_message
  server_ack-Turned before qr q h o b g =
      let (j, parsed, read) = acked_read cfg l2 in
      let msg = ack_message cred.user_id foo.cred.user_id foo.pack.id in
      let (h', e, wp, others) =
        reads_message cfg c w exchange foo.cred.user_id publisher_acked q p h o foo.cred j msg
          b.at_p parsed read in
      record {
        heap = h';
        output = _;
        ends = rw e (rw (c.prints _ _) (rw (c.prints _ _) (c.prints _ _)));
        both = record { at_r = rw (others r (λ e. k.apart (sym e))) b.at_r; at_p = wp };
        grown =
            printed before _ _
              (printed before _ _
                (printed before _ _ (printed before o _ g (logged foo.cred msg))
                  (same_IsFine foo.cred.user_id (codes "publisher")))
                (same_IsFine foo.pack.id (codes "publisher")))
              (same_IsFine (codes "server_ack") (codes "publisher"));
      }

  pub write-Turned :
      (before : List Str) (qr qp : List MsgEntry) (h : ℕ → Session) (o : List Str)
      → Pair qr qp h
      → Grown before o
      → Done before
          (qr ++ replier_acked ∷ [])
          (qp ++ to_publisher ∷ [])
          (W.write r l1.text (bench w h o))
          tt
  write-Turned before qr qp h o b g =
      let (h', e, wr, wp) =
        writes_letter cfg c w l1 r p h o qr qp k.full_u k.entry_v k.alive_p k.apart b.at_r b.at_p in
      record { heap = h'; output = o; ends = e; both = record { at_r = wr; at_p = wp }; grown = g }

  pub receive_and_send-Turned :
      (before : List Str) (qr q : List MsgEntry) (h : ℕ → Session) (o : List Str)
      → Pair qr (to_publisher ∷ q) h
      → Grown before o
      → Done before
          (qr ++ to_replier ∷ [])
          (q ++ publisher_acked ∷ [])
          (receive_and_send P exchange W p foo (bench w h o))
          tt
  unfolding receive_and_send assert_equal letter_message message_to
  receive_and_send-Turned before qr q h o b g =
      let (j, parsed, read) = passed_read cfg l1 in
      let msg = letter_message P cred.user_id foo.cred.user_id foo.pack.id in
      let (h1, e, wp, others) =
        reads_message cfg c w exchange foo.cred.user_id to_publisher q p h o foo.cred j msg b.at_p
          parsed read in
      let wr : Waits cred.user_id qr (h1 r) = rw (others r (λ e. k.apart (sym e))) b.at_r in
      let o4 : List Str =
        (((o ++ log_text foo.cred msg ∷ [])
            ++ verdict (str_eq foo.cred.user_id foo.cred.user_id) (codes "publisher") ∷ [])
          ++ verdict (str_eq foo.pack.id foo.pack.id) (codes "publisher") ∷ [])
        ++ verdict true (codes "publisher") ∷ [] in
      let (h2, sent, wp2, wr2) =
        writes_letter cfg c w l2 p r h1 o4 q qr k.full_v k.entry_u k.alive_r (λ e. k.apart (sym e))
          wp wr in
      record {
        heap = h2;
        output = o4;
        ends =
            rw e (rw (c.prints _ _) (rw (c.prints _ _) (rw (c.prints _ _) (rw l2.text_dump sent))));
        both = record { at_r = wr2; at_p = wp2 };
        grown =
            printed before _ _
              (printed before _ _
                (printed before _ _ (printed before o _ g (logged foo.cred msg))
                  (same_IsFine foo.cred.user_id (codes "publisher")))
                (same_IsFine foo.pack.id (codes "publisher")))
              (same_IsFine (codes "chat") (codes "publisher"));
      }
