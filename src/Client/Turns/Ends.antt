-- ===== src/Client/Turns/Ends.antt =====
-- src/occase-db-tests.cpp (launch_replier, publisher): the talk of the two coroutines over any order of
-- their turns.
use occase.Base.{
  ℕ, suc, ◌≡◌, refl, sym, ap, ◌∙◌, ◌+◌, ◌*◌, true, List, [], ◌++◌, Str, is_empty, All, ◌⊎◌, inl,
  inr, arith, append-nil,
}
use occase.Platform.{Platform}
use occase.Exec.{Exec, Result, ok}
use occase.Config.{Core}
use occase.Session.{MsgEntry, Session}
use occase.Worker.State.{World}
use occase.Http.{Response}
use occase.Client.{UserCred, CredPubHelper, HttpRequest}
use occase.Client.Flows.{Bench, Wire}
use occase.Client.Relay.{Letter, Waits}
use occase.Client.Turns.{
  Carries, Replier, Publisher, sending, receiving, replier_step, publisher_step, replier_ready,
  publisher_ready, replier_left, publisher_left, left, drained, Talk, Turn, replier_turn,
  publisher_turn, Turns, start, later, IsFine,
}
use occase.Client.Turns.Steps.{Grown, bench}
use occase.Client.Turns.Checks.{Connected}
use occase.Client.Turns.Phases.{resting, At, Pair, someone_ready, replier-Moved, publisher-Moved}

value : {A : Type 0} → A → Result A → A
value d (ok a) = a
value d r = d

-- What ends in two ways ends the same.
same_end :
    {A S : Type 0} (At : A → S → Type 0) (x : Result A × S) (a b : A) (s t : S)
    → x ≡ (ok a, s)
    → x ≡ (ok b, t)
    → At a s
    → At b t
unfolding value
same_end At x a b s t e k h =
    let q : (ok a, s) ≡ (ok b, t) = sym e ∙ k in
    let v : a ≡ b = ap (λ y. value a y.0) q in
    let u : s ≡ t = ap (λ y. y.1) q in rw (sym v) (rw (sym u) h)

module _ {P : Platform} (cfg : Core) (exchange : HttpRequest → Exec (Bench P) Response)
    {W : Wire (Bench P)} (c : Carries cfg W) (r p n : ℕ) (cred : UserCred) (foo : CredPubHelper)
    (l1 : Letter P cfg cred.user_id foo.cred.user_id foo.pack.id)
    (l2 : Letter P cfg foo.cred.user_id cred.user_id foo.pack.id) (b0 : Bench P)
    (k : Connected b0.node r p cred.user_id foo.cred.user_id) where
  abbrev first : Talk P
  first = record { bench = b0; replier = sending n; publisher = receiving n }

  abbrev Place : Replier → Publisher → List MsgEntry → List MsgEntry → Type 0
  Place = At cfg exchange c b0.node r p cred foo k l1 l2 b0.output

  abbrev Queues : List MsgEntry → List MsgEntry → (ℕ → Session) → Type 0
  Queues = Pair cfg exchange c b0.node r p cred foo k l1 l2 b0.output

  abbrev ReplierTurn : Talk P → Replier → Bench P → Type 0
  ReplierTurn t a b = replier_step P exchange W r cred l1.text t.replier t.bench ≡ (ok a, b)

  abbrev PublisherTurn : Talk P → Publisher → Bench P → Type 0
  PublisherTurn t a b = publisher_step P exchange W p foo t.publisher t.bench ≡ (ok a, b)

  -- The talk after so many turns.
  record Inv (turns : ℕ) (t : Talk P) : Type 0 where
    pub heap : ℕ → Session
    pub qr : List MsgEntry
    pub qp : List MsgEntry
    pub same : t.bench.node ≡ record b0.node { heap = heap }
    pub phase : Place t.replier t.publisher qr qp
    pub both : Queues qr qp heap
    pub grown : Grown b0.output t.bench.output
    pub count : turns + left t ≡ 5 * n

  Next : ℕ → Talk P → Type 0
  Next turns t =
      ((replier_ready t.replier (drained t r) ≡ true)
        → (a : Replier) × (b : Bench P) × ReplierTurn t a b
          × Inv (suc turns) (record t { replier = a; bench = b }))
      × ((publisher_ready t.publisher (drained t p) ≡ true)
          → (a : Publisher) × (b : Bench P) × PublisherTurn t a b
            × Inv (suc turns) (record t { publisher = a; bench = b }))

  drained_r : (turns : ℕ) (t : Talk P) (i : Inv turns t) → drained t r ≡ is_empty i.qr
  drained_r turns t i = rw i.same (ap (λ q. is_empty q) i.both.at_r.queue)

  drained_p : (turns : ℕ) (t : Talk P) (i : Inv turns t) → drained t p ≡ is_empty i.qp
  drained_p turns t i = rw i.same (ap (λ q. is_empty q) i.both.at_p.queue)

  bench_of :
      (turns : ℕ) (t : Talk P) (i : Inv turns t) → t.bench ≡ bench b0.node i.heap t.bench.output
  bench_of turns t i = ap (λ (w : World P). record t.bench { node = w }) i.same

  Inv-Next : (turns : ℕ) (t : Talk P) → Inv turns t → Next turns t
  unfolding Next left
  Inv-Next turns t i = (
    λ ready.
        let m =
          replier-Moved cfg exchange c b0.node r p cred foo k l1 l2 b0.output i.heap t.bench.output
            i.grown i.phase i.both
            (sym (ap (replier_ready t.replier) (drained_r turns t i)) ∙ ready) in
        (
          m.place,
          bench b0.node m.done.heap m.done.output,
          ap (replier_step P exchange W r cred l1.text t.replier) (bench_of turns t i)
              ∙ m.done.ends,
          record {
            heap = m.done.heap;
            qr = m.qr;
            qp = m.qp;
            same = refl;
            phase = m.phase;
            both = m.done.both;
            grown = m.done.grown;
            count = omega (arith, i.count, m.fewer);
          },
        ),
    λ ready.
        let m =
          publisher-Moved cfg exchange c b0.node r p cred foo k l1 l2 b0.output i.heap
            t.bench.output i.grown i.phase i.both
            (sym (ap (publisher_ready t.publisher) (drained_p turns t i)) ∙ ready) in
        (
          m.place,
          bench b0.node m.done.heap m.done.output,
          ap (publisher_step P exchange W p foo t.publisher) (bench_of turns t i) ∙ m.done.ends,
          record {
            heap = m.done.heap;
            qr = m.qr;
            qp = m.qp;
            same = refl;
            phase = m.phase;
            both = m.done.both;
            grown = m.done.grown;
            count = omega (arith, i.count, m.fewer);
          },
        ),
  )

  Turn-Inv :
      (turns : ℕ) (t u : Talk P)
      → Inv turns t
      → Turn P exchange W r p cred foo l1.text t u
      → Inv (suc turns) u
  unfolding Next
  Turn-Inv turns t u i (replier_turn a b ready e) =
      let (a', b', e', next) = (Inv-Next turns t i).0 ready in
      same_end (λ x y. Inv (suc turns) (record t { replier = x; bench = y })) _ a' a b' b e' e next
  Turn-Inv turns t u i (publisher_turn a b ready e) =
      let (a', b', e', next) = (Inv-Next turns t i).1 ready in
      same_end (λ x y. Inv (suc turns) (record t { publisher = x; bench = y })) _ a' a b' b e' e
        next

  module _ (idle_r : Waits cred.user_id [] (b0.node.heap r))
      (idle_p : Waits foo.cred.user_id [] (b0.node.heap p)) where
    first-Inv : Inv 0 first
    unfolding left replier_left publisher_left
    first-Inv = record {
      heap = b0.node.heap;
      qr = [];
      qp = [];
      same = refl;
      phase = resting n;
      both = record { at_r = idle_r; at_p = idle_p };
      grown = ([], sym (append-nil b0.output), tt);
      count = omega arith;
    }

    Turns-Inv :
        (turns : ℕ) (t : Talk P)
        → Turns P exchange W r p cred foo l1.text first turns t
        → Inv turns t
    Turns-Inv turns t start = first-Inv
    Turns-Inv turns t (later {k = m} {u = u} ts st) = Turn-Inv m u t (Turns-Inv m u ts) st

    -- Two clients are logged in on a node, each on a session of its own that is alive and has no
    -- queue, and what is written to a stream is read at its other end; they talk: one sends a message
    -- and waits for the acknowledgement and the answer, the other waits for a message, answers it and
    -- waits for the acknowledgement, both n times; no user is the admin, and no text is refused or
    -- empty. Then after turns of the two in any order: no check of a client has failed, and
    -- nothing but the sessions of the node has changed; a coroutine for which there is a text, or
    -- which has to send, goes on without an exception; one of them can go on, unless both have ended
    -- their loops and no text is left for either; and the turns that were taken and those that are
    -- left are five for each round, so that the talk ends when the turns are taken.
    pub talk_ends :
        (turns : ℕ) (t : Talk P)
        → Turns P exchange W r p cred foo l1.text first turns t
        → ((lines : List Str) × (t.bench.output ≡ b0.output ++ lines) × All IsFine lines)
          × ((h : ℕ → Session) × (t.bench.node ≡ record b0.node { heap = h }))
          × ((replier_ready t.replier (drained t r) ≡ true)
              → (a : Replier) × (b : Bench P) × ReplierTurn t a b)
          × ((publisher_ready t.publisher (drained t p) ≡ true)
              → (a : Publisher) × (b : Bench P) × PublisherTurn t a b)
          × ((replier_ready t.replier (drained t r) ≡ true)
              ⊎ ((publisher_ready t.publisher (drained t p) ≡ true)
                  ⊎ ((t.replier ≡ sending 0)
                      × (t.publisher ≡ receiving 0)
                      × (drained t r ≡ true)
                      × (drained t p ≡ true))))
          × (turns + left t ≡ 5 * n)
    unfolding Next
    talk_ends turns t ts =
        let i = Turns-Inv turns t ts in
        let (replier, publisher) = Inv-Next turns t i in
        (
          i.grown,
          (i.heap, i.same),
          (λ e. let (a, b, step, _) = replier e in (a, b, step)),
          (λ e. let (a, b, step, _) = publisher e in (a, b, step)),
          rw (drained_r turns t i) (
              rw (drained_p turns t i) (elim (someone_ready i.phase) [
                | inl e ↦ inl e
                | inr (inl e) ↦ inr (inl e)
                | inr (inr (e, f, x, y)) ↦
                    inr (inr (e, f, ap (λ q. is_empty q) x, ap (λ q. is_empty q) y))
              ])),
          i.count,
        )
