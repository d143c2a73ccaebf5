-- ===== src/Session/Drain.antt =====
-- src/ws_session.hpp: how the queue of a session is emptied.
use occase.Base.{
  ℕ, zero, suc, ◌≡◌, refl, ap, ◌∙◌, sym, false, List, [], ◌∷◌, ◌++◌, length, append-nil,
}
use occase.Session.{MsgEntry, Session, fresh, on_write}
use occase.Session.Queue.{
  Event, written, writes, Steps, next, queued, NoFailure, texts, Steps-Inv, on_write_last,
  on_write_more, idle_write,
}

-- As many writes are completed without an error.
abbrev completions : ℕ → List Event
completions zero = []
completions (suc n) = written false ∷ completions n

abbrev pub Drained : List Event → ℕ → Session → Type 0
Drained es n t =
    Steps fresh (completions n ++ es) t
    × (t.msg_queue ≡ [])
    × (t.writes ≡ texts (queued es))
    × (t.writing ≡ false)

completions_last :
    (n : ℕ) (es : List Event) → completions n ++ (written false ∷ es) ≡ completions (suc n) ++ es
completions_last zero es = refl
completions_last (suc n) es = ap (◌∷◌ (written false)) (completions_last n es)

-- The state after the front of the queue was written.
one_written :
    (es : List Event) (s : Session) (m : MsgEntry) (ms : List MsgEntry)
    → s.msg_queue ≡ m ∷ ms
    → Steps fresh es s
    → NoFailure es
    → s.closing ≡ false
    → Steps fresh (written false ∷ es) (on_write false s)
one_written es s m ms e r ok opn =
    let (done, v) = Steps-Inv es s r in next r (writes false (v.flowing ok opn (rw e refl)))

pop_written :
    (s : Session) (m : MsgEntry) (ms : List MsgEntry)
    → s.msg_queue ≡ m ∷ ms
    → s.closing ≡ false
    → ((on_write false s).msg_queue ≡ ms) × ((on_write false s).closing ≡ false)
pop_written s m [] e c = rw (on_write_last s m e) (refl, c)
pop_written s m (n ∷ ms) e c = rw (on_write_more s m n ms e) (refl, c)

drains_from :
    (q : List MsgEntry) (es : List Event) (s : Session)
    → s.msg_queue ≡ q
    → Steps fresh es s
    → NoFailure es
    → s.closing ≡ false
    → (t : Session) × Drained es (length q) t
drains_from [] es s e r ok opn =
    let (done, v) = Steps-Inv es s r in
    let (w, b) = idle_write done es s v e in
    (s, (r, e, w ∙ ap texts (sym (v.complete ∙ (rw e (append-nil done)))), b))
drains_from (m ∷ ms) es s e r ok opn =
    let (q, c) = pop_written s m ms e opn in
    let (t, d) =
      drains_from ms (written false ∷ es) (on_write false s) q (one_written es s m ms e r ok opn)
        (refl, ok) c in
    (t, (rw (completions_last (length ms) es) at d.0, d.1, d.2, d.3))

-- A session that is not closing and of which no write has failed, after any events, empties its
-- queue: as many writes as the queue has entries are completed one after another, each while it is
-- outstanding, and if none of them fails, the queue is then empty, no write is outstanding, and the
-- stream was given exactly the texts queued since the session began, in order.
pub queue_drains :
    (es : List Event) (s : Session)
    → Steps fresh es s
    → NoFailure es
    → s.closing ≡ false
    → (t : Session) × Drained es (length s.msg_queue) t
queue_drains es s = drains_from s.msg_queue es s refl
