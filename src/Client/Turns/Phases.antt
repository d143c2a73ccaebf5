-- ===== src/Client/Turns/Phases.antt =====
-- src/occase-db-tests.cpp (launch_replier, publisher): where the two coroutines can stand together.
use occase.Base.{
  ℕ, zero, suc, ◌≡◌, refl, true, false, List, [], ◌∷◌, ◌++◌, Str, is_empty, ◌⊎◌, inl, inr, arith,
}
use occase.Platform.{Platform}
use occase.Exec.{Exec, Result, continue, pure}
use occase.Config.{Core}
use occase.Session.{MsgEntry, Session}
use occase.Worker.State.{World}
use occase.Http.{Response}
use occase.Client.{UserCred, CredPubHelper, HttpRequest}
use occase.Client.Flows.{Bench, Wire}
use occase.Client.Relay.{Letter, entry}
use occase.Client.Turns.{
  Carries, Replier, Publisher, sending, awaiting_ack, awaiting_answer, receiving, acking,
  replier_step, publisher_step, replier_ready, publisher_ready, replier_left, publisher_left,
}
use occase.Client.Turns.Steps.{Grown, bench}
use occase.Client.Turns.Checks.{
  Both, Connected, Turned, replier_ack-Turned, app_msg-Turned, server_ack-Turned, write-Turned,
  receive_and_send-Turned,
}

-- The places of the coroutines and the queues of their sessions, with the acknowledgement of the
-- replier's message, that message, the acknowledgement of the answer, and the answer.
pub data Phase (a1 t1 a2 t2 : MsgEntry)
    : Replier → Publisher → List MsgEntry → List MsgEntry → Type 0 where
  resting : (n : ℕ) → Phase a1 t1 a2 t2 (sending n) (receiving n) [] []
  sent : (n : ℕ) → Phase a1 t1 a2 t2 (awaiting_ack n) (receiving (suc n)) (a1 ∷ []) (t1 ∷ [])
  acked : (n : ℕ) → Phase a1 t1 a2 t2 (awaiting_answer n) (receiving (suc n)) [] (t1 ∷ [])
  answered_early : (n : ℕ) → Phase a1 t1 a2 t2 (awaiting_ack n) (acking n) (a1 ∷ t2 ∷ []) (a2 ∷ [])
  answered : (n : ℕ) → Phase a1 t1 a2 t2 (awaiting_answer n) (acking n) (t2 ∷ []) (a2 ∷ [])
  ahead_early : (n : ℕ) → Phase a1 t1 a2 t2 (awaiting_ack n) (receiving n) (a1 ∷ t2 ∷ []) []
  ahead : (n : ℕ) → Phase a1 t1 a2 t2 (awaiting_answer n) (receiving n) (t2 ∷ []) []
  behind : (n : ℕ) → Phase a1 t1 a2 t2 (sending n) (acking n) [] (a2 ∷ [])
  behind_sent :
      (n : ℕ) → Phase a1 t1 a2 t2 (awaiting_ack n) (acking (suc n)) (a1 ∷ []) (a2 ∷ t1 ∷ [])
  behind_acked : (n : ℕ) → Phase a1 t1 a2 t2 (awaiting_answer n) (acking (suc n)) [] (a2 ∷ t1 ∷ [])

-- In every phase a coroutine can go on, unless both have ended.
pub someone_ready :
    {a1 t1 a2 t2 : MsgEntry} {a : Replier} {b : Publisher} {qr qp : List MsgEntry}
    → Phase a1 t1 a2 t2 a b qr qp
    → (replier_ready a (is_empty qr) ≡ true)
      ⊎ ((publisher_ready b (is_empty qp) ≡ true)
          ⊎ ((a ≡ sending 0) × (b ≡ receiving 0) × (qr ≡ []) × (qp ≡ [])))
unfolding replier_ready publisher_ready
someone_ready (resting zero) = inr (inr (refl, refl, refl, refl))
someone_ready (resting (suc n)) = inl refl
someone_ready (sent n) = inl refl
someone_ready (acked n) = inr (inl refl)
someone_ready (answered_early n) = inl refl
someone_ready (answered n) = inl refl
someone_ready (ahead_early n) = inl refl
someone_ready (ahead n) = inl refl
someone_ready (behind n) = inr (inl refl)
someone_ready (behind_sent n) = inl refl
someone_ready (behind_acked n) = inr (inl refl)

module _ {P : Platform} (cfg : Core) (exchange : HttpRequest → Exec (Bench P) Response)
    {W : Wire (Bench P)} (c : Carries cfg W) (w : World P) (r p : ℕ) (cred : UserCred)
    (foo : CredPubHelper) (k : Connected w r p cred.user_id foo.cred.user_id)
    (l1 : Letter P cfg cred.user_id foo.cred.user_id foo.pack.id)
    (l2 : Letter P cfg foo.cred.user_id cred.user_id foo.pack.id) (before : List Str) where
  abbrev pub At : Replier → Publisher → List MsgEntry → List MsgEntry → Type 0
  At = Phase (entry l1.ack false) (entry l1.passed true) (entry l2.ack false) (entry l2.passed true)

  abbrev Done : List MsgEntry → List MsgEntry → {A : Type 0} → Result A × Bench P → A → Type 0
  Done qr qp res a = Turned w r p cred.user_id foo.cred.user_id before qr qp res a

  abbrev pub Pair : List MsgEntry → List MsgEntry → (ℕ → Session) → Type 0
  Pair qr qp h = Both r p cred.user_id foo.cred.user_id qr qp h

  -- A turn of a coroutine at `a` that ends well at another place, with the turns that are left at a
  -- place, and the phase after it.
  pub record Moved {A : Type 0} (left : A → ℕ)
      (phase_at : A → List MsgEntry → List MsgEntry → Type 0) (res : Result A × Bench P) (a : A)
      : Type 0 where
    pub place : A
    pub qr : List MsgEntry
    pub qp : List MsgEntry
    pub phase : phase_at place qr qp
    pub done : Done qr qp res place
    pub fewer : left a ≡ suc (left place)

  moved :
      {A : Type 0} (left : A → ℕ) (phase_at : A → List MsgEntry → List MsgEntry → Type 0)
      (qr qp : List MsgEntry) (res : Result (Unit {0}) × Bench P) (a place : A)
      → phase_at place qr qp
      → Done qr qp res tt
      → left a ≡ suc (left place)
      → Moved left phase_at (continue res.0 res.1 (λ _. pure place)) a
  moved left phase_at qr qp res a place t d e = record {
    place = place;
    qr = qr;
    qp = qp;
    phase = t;
    done = record {
      heap = d.heap;
      output = d.output;
      ends = rw d.ends refl;
      both = d.both;
      grown = d.grown;
    };
    fewer = e;
  }

  module _ (h : ℕ → Session) (o : List Str) (g : Grown before o) where
    abbrev pub Replied : Replier → Publisher → Type 0
    Replied a b =
        Moved replier_left (λ place. At place b)
          (replier_step P exchange W r cred l1.text a (bench w h o)) a

    abbrev pub Published : Replier → Publisher → Type 0
    Published a b =
        Moved publisher_left (λ place. At a place)
          (publisher_step P exchange W p foo b (bench w h o)) b

    sends :
        {n : ℕ} {b : Publisher} {qr qp : List MsgEntry}
        → At (awaiting_ack n) b (qr ++ entry l1.ack false ∷ []) (qp ++ entry l1.passed true ∷ [])
        → Pair qr qp h
        → Replied (sending (suc n)) b
    unfolding replier_step replier_left
    sends t x =
        moved replier_left _ _ _ _ _ _ t
          (write-Turned cfg exchange c w r p cred foo k l1 l2 before _ _ h o x g) (omega arith)

    reads_ack :
        {n : ℕ} {b : Publisher} {q qp : List MsgEntry}
        → At (awaiting_answer n) b q qp
        → Pair (entry l1.ack false ∷ q) qp h
        → Replied (awaiting_ack n) b
    unfolding replier_step replier_left
    reads_ack t x =
        moved replier_left _ _ _ _ _ _ t
          (replier_ack-Turned cfg exchange c w r p cred foo k l1 l2 before _ _ h o x g)
          (omega arith)

    reads_answer :
        {n : ℕ} {b : Publisher} {q qp : List MsgEntry}
        → At (sending n) b q qp
        → Pair (entry l2.passed true ∷ q) qp h
        → Replied (awaiting_answer n) b
    unfolding replier_step replier_left
    reads_answer t x =
        moved replier_left _ _ _ _ _ _ t
          (app_msg-Turned cfg exchange c w r p cred foo k l1 l2 before _ _ h o x g) (omega arith)

    answers :
        {n : ℕ} {a : Replier} {qr q : List MsgEntry}
        → At a (acking n) (qr ++ entry l2.passed true ∷ []) (q ++ entry l2.ack false ∷ [])
        → Pair qr (entry l1.passed true ∷ q) h
        → Published a (receiving (suc n))
    unfolding publisher_step publisher_left
    answers t x =
        moved publisher_left _ _ _ _ _ _ t
          (receive_and_send-Turned cfg exchange c w r p cred foo k l1 l2 before _ _ h o x g)
          (omega arith)

    reads_server_ack :
        {n : ℕ} {a : Replier} {qr q : List MsgEntry}
        → At a (receiving n) qr q
        → Pair qr (entry l2.ack false ∷ q) h
        → Published a (acking n)
    unfolding publisher_step publisher_left
    reads_server_ack t x =
        moved publisher_left _ _ _ _ _ _ t
          (server_ack-Turned cfg exchange c w r p cred foo k l1 l2 before _ _ h o x g) (omega arith)

    pub replier-Moved :
        {a : Replier} {b : Publisher} {qr qp : List MsgEntry}
        → At a b qr qp
        → Pair qr qp h
        → replier_ready a (is_empty qr) ≡ true
        → Replied a b
    unfolding replier_ready
    replier-Moved (resting zero) x e = absurd (ground arith)
    replier-Moved (resting (suc n)) x e = sends (sent n) x
    replier-Moved (sent n) x e = reads_ack (acked n) x
    replier-Moved (acked n) x e = absurd (ground arith)
    replier-Moved (answered_early n) x e = reads_ack (answered n) x
    replier-Moved (answered n) x e = reads_answer (behind n) x
    replier-Moved (ahead_early n) x e = reads_ack (ahead n) x
    replier-Moved (ahead n) x e = reads_answer (resting n) x
    replier-Moved (behind zero) x e = absurd (ground arith)
    replier-Moved (behind (suc n)) x e = sends (behind_sent n) x
    replier-Moved (behind_sent n) x e = reads_ack (behind_acked n) x
    replier-Moved (behind_acked n) x e = absurd (ground arith)

    pub publisher-Moved :
        {a : Replier} {b : Publisher} {qr qp : List MsgEntry}
        → At a b qr qp
        → Pair qr qp h
        → publisher_ready b (is_empty qp) ≡ true
        → Published a b
    unfolding publisher_ready
    publisher-Moved (resting zero) x e = absurd (ground arith)
    publisher-Moved (resting (suc n)) x e = absurd (ground arith)
    publisher-Moved (sent n) x e = answers (answered_early n) x
    publisher-Moved (acked n) x e = answers (answered n) x
    publisher-Moved (answered_early n) x e = reads_server_ack (ahead_early n) x
    publisher-Moved (answered n) x e = reads_server_ack (ahead n) x
    publisher-Moved (ahead_early zero) x e = absurd (ground arith)
    publisher-Moved (ahead_early (suc n)) x e = absurd (ground arith)
    publisher-Moved (ahead zero) x e = absurd (ground arith)
    publisher-Moved (ahead (suc n)) x e = absurd (ground arith)
    publisher-Moved (behind n) x e = reads_server_ack (resting n) x
    publisher-Moved (behind_sent n) x e = reads_server_ack (sent n) x
    publisher-Moved (behind_acked n) x e = reads_server_ack (acked n) x
