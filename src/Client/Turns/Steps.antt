-- ===== src/Client/Turns/Steps.antt =====
-- src/occase-db-tests.cpp (launch_replier, publisher): what each turn of a coroutine does to the queues
-- of the node's two sessions.
use occase.Base.{
  ℕ, ◌≡◌, ◌≢◌, refl, sym, ap, ◌∙◌, true, false, List, [], ◌∷◌, ◌++◌, some, Str, is_empty, All, inl,
  append_assoc, str_eq, str_eq_refl,
}
use occase.Platform.{Platform}
use occase.Exec.{Exec, ok}
use occase.Assoc.{lookup}
use occase.Config.{Core}
use occase.Session.{MsgEntry, Session, on_write, enqueue, handle_ev, chat_msg_ok}
use occase.Worker.State.{World, with_session}
use occase.Worker.Offline.{own_session, other_session}
use occase.Worker.Relay.{passed_state}
use occase.Http.{Response}
use occase.Client.{UserCred, HttpRequest, Message, message_from_json}
use occase.Client.Flows.{Bench, on_node, Wire, verdict}
use occase.Client.Sockets.{read_message, log_text}
use occase.Client.Relay.{
  Waits, Waits-enqueue, Waits-on_write, Waits-chat_ok, entry, Letter, letter_passed,
}
use occase.Client.Turns.{Carries, IsFine}

-- The lines that were printed since then are fine.
abbrev pub Grown : List Str → List Str → Type 0
Grown before after = (lines : List Str) × (after ≡ before ++ lines) × All IsFine lines

All-snoc :
    (lines : List Str) (line : Str)
    → All IsFine lines
    → IsFine line
    → All IsFine (lines ++ line ∷ [])
All-snoc [] line h f = (f, tt)
All-snoc (x ∷ lines) line (h, k) f = (h, All-snoc lines line k f)

pub printed :
    (before after : List Str) (line : Str)
    → Grown before after
    → IsFine line
    → Grown before (after ++ line ∷ [])
printed before after line (lines, e, h) f =
    (lines ++ line ∷ [], rw e (append_assoc before lines (line ∷ [])), All-snoc lines line h f)

pub same_IsFine : (a msg : Str) → IsFine (verdict (str_eq a a) msg)
same_IsFine a msg = inl (msg, ap (λ b. verdict b msg) (str_eq_refl a))

module _ {P : Platform} (w : World P) where
  abbrev pub bench : (ℕ → Session) → List Str → Bench P
  bench h o = record { node = record w { heap = h }; output = o }

module _ {P : Platform} (cfg : Core) {W : Wire (Bench P)} (c : Carries cfg W) (w : World P) where
  pub writes_letter :
      {from to post_id : Str} (l : Letter P cfg from to post_id) (s p : ℕ) (h : ℕ → Session)
      (o : List Str) (qs qp : List MsgEntry)
      → is_empty from ≡ false
      → lookup to w.sessions ≡ some p
      → w.alive p ≡ true
      → s ≢ p
      → Waits from qs (h s)
      → Waits to qp (h p)
      → (h' : ℕ → Session) × (W.write s l.text (bench w h o) ≡ (ok tt, bench w h' o))
        × Waits from (qs ++ entry l.ack false ∷ []) (h' s)
        × Waits to (qp ++ entry l.passed true ∷ []) (h' p)
  unfolding passed_state
  writes_letter {from} {to} l s p h o qs qp f k a d ws wp =
      let v : World P = record w { heap = h } in
      let v1 = with_session p (enqueue l.passed true) v in
      let v2 = with_session s (enqueue l.ack false) v1 in
      let v3 = with_session s (handle_ev chat_msg_ok) v2 in
      (
        v3.heap,
        c.writes s l.text (bench w h o)
            ∙ ap (on_node (bench w h o)) (letter_passed cfg l v s p ws.hash f k a d)
            ∙ unfold with_session in refl,
        rw (own_session (handle_ev chat_msg_ok) v2 s) (
            rw (own_session (enqueue l.ack false) v1 s) (
              rw (other_session (enqueue l.passed true) v p s (λ e. d (sym e)))
                (Waits-chat_ok from _ _ (Waits-enqueue from l.ack false qs (h s) ws)))),
        rw (other_session (handle_ev chat_msg_ok) v2 s p d) (
            rw (other_session (enqueue l.ack false) v1 s p d) (
              rw (own_session (enqueue l.passed true) v p)
                (Waits-enqueue to l.passed true qp (h p) wp))),
      )

  reads_entry :
      (user : Str) (m : MsgEntry) (q : List MsgEntry) (s : ℕ) (h : ℕ → Session) (o : List Str)
      → Waits user (m ∷ q) (h s)
      → (h' : ℕ → Session) × (W.read s (bench w h o) ≡ (ok m.msg, bench w h' o))
        × Waits user q (h' s)
        × ((x : ℕ) → s ≢ x → h' x ≡ h x)
  reads_entry user m q s h o ws =
      let v : World P = record w { heap = h } in
      (
        (with_session s (on_write false) v).heap,
        c.reads s m q (bench w h o) ws.queue ws.busy ∙ unfold with_session in refl,
        rw (own_session (on_write false) v s) (Waits-on_write user m q (h s) ws),
        other_session (on_write false) v s,
      )

  module _ (exchange : HttpRequest → Exec (Bench P) Response) where
    pub reads_message :
        (user : Str) (m : MsgEntry) (q : List MsgEntry) (s : ℕ) (h : ℕ → Session) (o : List Str)
        (cred : UserCred) (j : P.Json) (msg : Message)
        → Waits user (m ∷ q) (h s)
        → P.parse m.msg ≡ some j
        → message_from_json P j ≡ some msg
        → (h' : ℕ → Session) × (read_message P exchange W s cred (bench w h o)
            ≡ (ok msg, bench w h' (o ++ log_text cred msg ∷ [])))
          × Waits user q (h' s)
          × ((x : ℕ) → s ≢ x → h' x ≡ h x)
    unfolding read_message
    reads_message user m q s h o cred j msg ws e k =
        let (h', r, n, others) = reads_entry user m q s h o ws in
        (h', rw r (rw e (rw k (rw (c.prints (log_text cred msg) (bench w h' o)) refl))), n, others)
