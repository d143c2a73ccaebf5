-- ===== src/Session/Queue.antt =====
-- src/ws_session.hpp: the writes and the queue of a session over any events.
use occase.Base.{
  ◌≡◌, refl, ap, ◌∙◌, sym, ◌⊎◌, inl, inr, Bool, true, false, ◌||◌, List, [], ◌∷◌, ◌++◌, map, Str,
  is_empty, append_assoc, append-nil, arith, Bool-cases,
}
use mathlib.Core.List.{map-append}
use occase.Session.{
  MsgEntry, Session, fresh, EvRes, enqueue, on_write, on_pong, handle_ev, shutdown, set_pub_hash,
  undelivered,
}

-- What happens to a session. A write is completed only while one is outstanding.
pub data Event : Type 0 where
  sent : Str → Bool → Event
  written : Bool → Event
  pong : Event
  handled : EvRes → Event
  hashed : Str → Event

pub data Step (s : Session) : Event → Session → Type 0 where
  sends : (msg : Str) (persist : Bool) → Step s (sent msg persist) (enqueue msg persist s)
  writes : (failed : Bool) → s.writing ≡ true → Step s (written failed) (on_write failed s)
  pongs : Step s pong (on_pong s)
  handles : (r : EvRes) → Step s (handled r) (handle_ev r s)
  hashes : (hash : Str) → Step s (hashed hash) (set_pub_hash hash s)

-- The events of a run, the last one first.
pub data Steps (s : Session) : List Event → Session → Type 0 where
  here : Steps s [] s
  next :
      {es : List Event} {e : Event} {t u : Session} → Steps s es t → Step t e u → Steps s (e ∷ es) u

-- The entries that were queued by the events, in order.
abbrev pub queued : List Event → List MsgEntry
queued [] = []
queued (sent msg persist ∷ es) = queued es ++ record { msg = msg; persist = persist } ∷ []
queued (written failed ∷ es) = queued es
queued (pong ∷ es) = queued es
queued (handled r ∷ es) = queued es
queued (hashed hash ∷ es) = queued es

-- No write has failed.
abbrev pub NoFailure : List Event → Type 0
NoFailure [] = Unit {0}
NoFailure (written failed ∷ es) = (failed ≡ false) × NoFailure es
NoFailure (sent _ _ ∷ es) = NoFailure es
NoFailure (pong ∷ es) = NoFailure es
NoFailure (handled _ ∷ es) = NoFailure es
NoFailure (hashed _ ∷ es) = NoFailure es

abbrev pub texts : List MsgEntry → List Str
texts = map (λ m. m.msg)

-- What was given to the stream: the completed entries, and at most the front of the queue.
abbrev pub Written : List MsgEntry → Session → Type 0
Written done s =
    ((s.writes ≡ texts done) × (s.writing ≡ false))
    ⊎ ((m : MsgEntry) × (ms : List MsgEntry) × (s.msg_queue ≡ m ∷ ms)
        × (s.writes ≡ texts done ++ m.msg ∷ []))

-- `done` are the entries whose writes were completed.
pub record Inv (done : List MsgEntry) (es : List Event) (s : Session) : Type 0 where
  pub single : s.overlapped ≡ false
  pub complete : queued es ≡ done ++ s.msg_queue
  pub in_order : Written done s
  pub flowing : NoFailure es → s.closing ≡ false → is_empty s.msg_queue ≡ false → s.writing ≡ true

abbrev entry : Str → Bool → MsgEntry
entry msg persist = record { msg = msg; persist = persist }

enqueue_idle :
    (msg : Str) (persist : Bool) (s : Session)
    → s.msg_queue ≡ []
    → s.closing ≡ false
    → enqueue msg persist s ≡ record s {
      msg_queue = entry msg persist ∷ [];
      writes = s.writes ++ msg ∷ [];
      writing = true;
      overlapped = s.overlapped || s.writing;
    }
unfolding enqueue
enqueue_idle msg persist s e c = rw (e, c)

enqueue_closing :
    (msg : Str) (persist : Bool) (s : Session)
    → s.msg_queue ≡ []
    → s.closing ≡ true
    → enqueue msg persist s ≡ record s { msg_queue = entry msg persist ∷ [] }
unfolding enqueue
enqueue_closing msg persist s e c = rw (e, c)

enqueue_behind :
    (msg : Str) (persist : Bool) (s : Session) (m : MsgEntry) (ms : List MsgEntry)
    → s.msg_queue ≡ m ∷ ms
    → enqueue msg persist s ≡ record s { msg_queue = m ∷ ms ++ entry msg persist ∷ [] }
unfolding enqueue
enqueue_behind msg persist s m ms e = rw e

pub on_write_last :
    (s : Session) (m : MsgEntry)
    → s.msg_queue ≡ m ∷ []
    → on_write false s ≡ record s { msg_queue = []; writing = false }
unfolding on_write
on_write_last s m e = rw e

pub on_write_more :
    (s : Session) (m n : MsgEntry) (ms : List MsgEntry)
    → s.msg_queue ≡ m ∷ n ∷ ms
    → on_write false s ≡ record s {
      msg_queue = n ∷ ms;
      writes = s.writes ++ n.msg ∷ [];
      writing = true;
      overlapped = s.overlapped || false;
    }
unfolding on_write
on_write_more s m n ms e = rw e

texts_snoc :
    (done : List MsgEntry) (m : MsgEntry) → texts (done ++ m ∷ []) ≡ texts done ++ m.msg ∷ []
texts_snoc done m = map-append (λ (e : MsgEntry). e.msg) done (m ∷ [])

module _ (done : List MsgEntry) (es : List Event) (s : Session) (v : Inv done es s) where
  pub idle_write : s.msg_queue ≡ [] → (s.writes ≡ texts done) × (s.writing ≡ false)
  idle_write e = elim v.in_order [ inl w ↦ w | inr (m, ms, q, _) ↦ absurd (ground arith) ]

  complete_sent :
      (msg : Str) (persist : Bool)
      → queued es ++ entry msg persist ∷ [] ≡ done ++ (s.msg_queue ++ entry msg persist ∷ [])
  complete_sent msg persist = rw v.complete (append_assoc done s.msg_queue _)

  sends-Inv :
      (msg : Str) (persist : Bool) (q : List MsgEntry)
      → s.msg_queue ≡ q
      → Inv done (sent msg persist ∷ es) (enqueue msg persist s)
  sends-Inv msg persist [] e = elim (Bool-cases s.closing) [
    | inl c ↦ rw (enqueue_closing msg persist s e c) (record {
      single = v.single;
      complete = ground (arith, complete_sent msg persist);
      in_order = inl (idle_write e);
      flowing = λ _ o _. ground arith;
    })
    | inr c ↦ rw (enqueue_idle msg persist s e c) (record {
      single = ground (arith, v.single, (idle_write e).1);
      complete = ground (arith, complete_sent msg persist);
      in_order = inr (entry msg persist, [], refl, ap (λ w. w ++ msg ∷ []) (idle_write e).0);
      flowing = λ _ _ _. refl;
    })
  ]
  sends-Inv msg persist (m ∷ ms) e = rw (enqueue_behind msg persist s m ms e) (record {
    single = v.single;
    complete = ground (arith, complete_sent msg persist);
    in_order = behind v.in_order;
    flowing = λ n c _. v.flowing n c (rw e refl);
  })
    where
      behind :
          Written done s → Written done (record s { msg_queue = m ∷ ms ++ entry msg persist ∷ [] })
      behind (inl w) = inl w
      behind (inr (f, fs, q, w)) = inr (m, ms ++ entry msg persist ∷ [], refl, ground arith)

  -- The write of the front was completed.
  written-Inv :
      (m : MsgEntry) (ms : List MsgEntry)
      → s.msg_queue ≡ m ∷ ms
      → s.writes ≡ texts done ++ m.msg ∷ []
      → Inv (done ++ m ∷ []) (written false ∷ es) (on_write false s)
  written-Inv m [] q w = rw (on_write_last s m q) (record {
    single = v.single;
    complete = rw v.complete (rw q (sym (append-nil (done ++ m ∷ []))));
    in_order = inl (w ∙ sym (texts_snoc done m), refl);
    flowing = λ _ _ o. cc;
  })
  written-Inv m (n ∷ ms) q w = rw (on_write_more s m n ms q) (record {
    single = ground (arith, v.single);
    complete = rw v.complete (rw q (sym (append_assoc done (m ∷ []) (n ∷ ms))));
    in_order = inr (n, ms, refl, ap (λ l. l ++ n.msg ∷ []) (w ∙ sym (texts_snoc done m)));
    flowing = λ _ _ _. refl;
  })

  writes-Inv :
      (failed : Bool)
      → s.writing ≡ true
      → (done' : List MsgEntry) × Inv done' (written failed ∷ es) (on_write failed s)
  unfolding on_write
  writes-Inv true busy = (
    done,
    record {
      single = v.single;
      complete = v.complete;
      in_order = elim v.in_order [ inl w ↦ inl (w.0, refl) | inr w ↦ inr w ];
      flowing = λ n. absurd (ground arith);
    },
  )
  writes-Inv false busy = elim v.in_order [
    | inl w ↦ absurd (ground arith)
    | inr (m, ms, q, w) ↦ (done ++ m ∷ [], written-Inv m ms q w)
  ]

  -- A step that leaves the queue and the writes alone.
  quiet-Inv :
      (es' : List Event) (t : Session)
      → (queued es' ≡ queued es)
      → (NoFailure es' → NoFailure es)
      → ((t.msg_queue ≡ s.msg_queue)
          × (t.writes ≡ s.writes)
          × (t.writing ≡ s.writing)
          × (t.overlapped ≡ s.overlapped))
      → (t.closing ≡ false → s.closing ≡ false)
      → Inv done es' t
  quiet-Inv es' t same ok (q, w, b, o) c = record {
    single = o ∙ v.single;
    complete = rw (same, q) v.complete;
    in_order = rw (q, w, b) v.in_order;
    flowing = λ n cl e. rw b (v.flowing (ok n) (c cl) (rw q at e));
  }

  shutdown_quiet :
      ((shutdown s).msg_queue ≡ s.msg_queue)
      × ((shutdown s).writes ≡ s.writes)
      × ((shutdown s).writing ≡ s.writing)
      × ((shutdown s).overlapped ≡ s.overlapped)
  unfolding shutdown
  shutdown_quiet = ground arith

  handles-Inv : (r : EvRes) → Inv done (handled r ∷ es) (handle_ev r s)
  unfolding handle_ev
  handles-Inv r =
      quiet-Inv (handled r ∷ es) (handle_ev r s) refl (λ n. n) (ground arith) (ground arith)

  pongs-Inv : Inv done (pong ∷ es) (on_pong s)
  unfolding on_pong
  pongs-Inv = quiet-Inv (pong ∷ es) (on_pong s) refl (λ n. n) (ground arith) (ground arith)

  Step-Inv : {e : Event} {t : Session} → Step s e t → (done' : List MsgEntry) × Inv done' (e ∷ es) t
  unfolding set_pub_hash
  Step-Inv (sends msg persist) = (done, sends-Inv msg persist s.msg_queue refl)
  Step-Inv (writes failed busy) = writes-Inv failed busy
  Step-Inv pongs = (done, pongs-Inv)
  Step-Inv (handles r) = (done, handles-Inv r)
  Step-Inv (hashes hash) =
      (done, quiet-Inv (hashed hash ∷ es) _ refl (λ n. n) (refl, refl, refl, refl) (λ c. c))

fresh-Inv : Inv [] [] fresh
fresh-Inv = record {
  single = refl;
  complete = refl;
  in_order = inl (refl, refl);
  flowing = λ _ _ o. cc;
}

pub Steps-Inv :
    (es : List Event) (s : Session) → Steps fresh es s → (done : List MsgEntry) × Inv done es s
Steps-Inv es s here = ([], fresh-Inv)
Steps-Inv es s (next {es = es'} {t = t} r st) =
    let (done, v) = Steps-Inv es' t r in Step-Inv done es' t v st

undelivered-append :
    (xs ys : List MsgEntry) → undelivered (xs ++ ys) ≡ undelivered xs ++ undelivered ys
unfolding undelivered
undelivered-append [] ys = refl
undelivered-append (x ∷ xs) ys = elim (Bool-cases x.persist) [
  | inl e ↦ rw e (ap (◌∷◌ x.msg) (undelivered-append xs ys))
  | inr e ↦ rw e (undelivered-append xs ys)
]

-- The messages to be kept that were queued so far are those of the entries whose writes were
-- completed, followed by those of the queue, in order; and the completed entries were given to the
-- stream.
pub undelivered_complete :
    (es : List Event) (s : Session)
    → Steps fresh es s
    → (done : List MsgEntry) × (undelivered (queued es)
        ≡ undelivered done ++ undelivered s.msg_queue)
      × ((rest : List Str) × (s.writes ≡ texts done ++ rest))
undelivered_complete es s r =
    let (done, v) = Steps-Inv es s r in
    (
      done,
      rw v.complete (undelivered-append done s.msg_queue),
      elim v.in_order [
        | inl w ↦ ([], w.0 ∙ sym (append-nil (texts done)))
        | inr (m, ms, q, w) ↦ (m.msg ∷ [], w)
      ],
    )

-- An entry that is not to be kept is not returned.
pub undelivered_unkept :
    (q : List MsgEntry) (msg : Str) → undelivered (q ++ entry msg false ∷ []) ≡ undelivered q
unfolding undelivered
undelivered_unkept q msg = undelivered-append q (entry msg false ∷ []) ∙ append-nil (undelivered q)
