-- ===== src/Notifier/Push/Exchange.antt =====
-- src/ntf_session.cpp: what one session of the notifier sends and prints.
use occase.Base.{
  ℕ, zero, suc, ◌-◌, ◌≤◌, ◌≡◌, refl, ap, sym, append-nil, pos, Bool, Bool-cases, inl, inr, true,
  false, ◌&&◌, not, List, [], ◌∷◌, ◌++◌, Option, none, some, ℤ, Str, length, arith, if◌then◌else◌,
}
use occase.Notifier.{NtfConfig}
use occase.Notifier.Push.{
  Phase, created, ended, Request, Push, Completion, connecting, handshaking, writing, reading,
  shutting, new_push, close, write_request, on_connect, on_handshake, on_write, on_read,
  on_shutdown, complete, serve, make_request, run,
}

-- The first operations, as many as the number says, complete without an error.
abbrev pub succeed : ℕ → List Completion → Bool
succeed zero cs = true
succeed (suc n) [] = false
succeed (suc n) (c ∷ cs) = not c.failed && succeed n cs

-- The answer of a read, which comes after as many operations that complete without an error.
abbrev pub answer_after : ℕ → List Completion → List Str
answer_after n [] = []
answer_after zero (c ∷ cs) = if c.failed then [] else c.answer ∷ []
answer_after (suc n) (c ∷ cs) = if c.failed then [] else answer_after n cs

ended_stays : (cs : List Completion) (s : Push) → s.phase ≡ ended → serve cs s ≡ s
unfolding serve complete
ended_stays [] s e = refl
ended_stays (c ∷ cs) s e = rw (ap (λ p. complete p c s) e) (ended_stays cs s e)

module _ (r : Option Request) (time : Option ℤ) (w : List Request) (a : List Str) where
  -- A session at an operation.
  abbrev at_phase : Phase → Push
  at_phase p = record { phase = p; req = r; timeout = time; written = w; printed = a }

  closed : (cs : List Completion) → serve cs (at_phase ended) ≡ at_phase ended
  closed cs = ended_stays cs _ refl

-- The handlers that may still run.
abbrev pub left : Phase → ℕ
left created = 6
left connecting = 5
left handshaking = 4
left writing = 3
left reading = 2
left shutting = 1
left ended = 0

-- What was written and printed, and the handlers that are left of `n`.
abbrev pub Exchanged : ℕ → List Completion → List Request → List Str → Push → Type 0
Exchanged n cs w a t = (t.written ≡ w) × (t.printed ≡ a) × (left t.phase ≤ n - length cs)

module _ (r : Option Request) (w : List Request) (a : List Str) where
  abbrev state : Option ℤ → Phase → Push
  state time p = record { phase = p; req = r; timeout = time; written = w; printed = a }

  from_shutting :
      (time : Option ℤ) (cs : List Completion) → Exchanged 1 cs w a (serve cs (state time shutting))
  unfolding serve complete on_shutdown close
  from_shutting time [] = (refl, refl, omega arith)
  from_shutting time (c ∷ cs) = rw (closed r time w a cs) (refl, refl, omega arith)

module _ (r : Option Request) (w : List Request) (a : List Str) where
  from_reading :
      (time : Option ℤ) (cs : List Completion)
      → Exchanged 2 cs w (a ++ answer_after 0 cs) (serve cs (state r w a time reading))
  unfolding serve complete on_read close
  from_reading time [] = (refl, sym (append-nil a), omega arith)
  from_reading time (c ∷ cs) = elim (Bool-cases c.failed) [
    | inl f ↦ rw (f, closed r time w a cs) (refl, sym (append-nil a), omega arith)
    | inr f ↦
        let (x, y, z) = from_shutting r w (a ++ c.answer ∷ []) (some (pos 30)) cs in
        rw f (x, y, omega (arith, z))
  ]

  from_writing :
      (time : Option ℤ) (cs : List Completion)
      → Exchanged 3 cs w (a ++ answer_after 1 cs) (serve cs (state r w a time writing))
  unfolding serve complete on_write close
  from_writing time [] = (refl, sym (append-nil a), omega arith)
  from_writing time (c ∷ cs) = elim (Bool-cases c.failed) [
    | inl f ↦ rw (f, closed r time w a cs) (refl, sym (append-nil a), omega arith)
    | inr f ↦ let (x, y, z) = from_reading time cs in rw f (x, y, omega (arith, z))
  ]

module _ (r : Request) where
  from_handshaking :
      (time : Option ℤ) (cs : List Completion)
      → Exchanged 4 cs
          (if succeed 1 cs then r ∷ [] else [])
          (answer_after 2 cs)
          (serve cs (state (some r) [] [] time handshaking))
  unfolding serve complete on_handshake write_request close
  from_handshaking time [] = (refl, refl, omega arith)
  from_handshaking time (c ∷ cs) = elim (Bool-cases c.failed) [
    | inl f ↦ rw (f, closed (some r) time [] [] cs) (refl, refl, omega arith)
    | inr f ↦
        let (x, y, z) = from_writing (some r) (r ∷ []) [] (some (pos 30)) cs in
        rw f (x, y, omega (arith, z))
  ]

  from_connecting :
      (time : Option ℤ) (cs : List Completion)
      → Exchanged 5 cs
          (if succeed 2 cs then r ∷ [] else [])
          (answer_after 3 cs)
          (serve cs (state (some r) [] [] time connecting))
  unfolding serve complete on_connect close
  from_connecting time [] = (refl, refl, omega arith)
  from_connecting time (c ∷ cs) = elim (Bool-cases c.failed) [
    | inl f ↦ rw (f, closed (some r) time [] [] cs) (refl, refl, omega arith)
    | inr f ↦ let (x, y, z) = from_handshaking time cs in rw f (x, y, omega (arith, z))
  ]

-- A notification is given to the service exactly when the name of the host could be set and the
-- connection and the handshake succeeded, once, with the configured host, target and key and the
-- length of its body; the body of the answer is printed exactly when the write and the read
-- succeeded too, whatever its status; and each operation that completes leaves fewer handlers that
-- may still run, five at most from the beginning.
pub push_exchange :
    (user_agent : Str) (cfg : NtfConfig) (named : Bool) (body : Str) (cs : List Completion)
    → Exchanged 5 cs
        (if named && succeed 2 cs then make_request user_agent cfg body ∷ [] else [])
        (if named then answer_after 3 cs else [])
        (serve cs (run user_agent cfg named body new_push))
unfolding run close
push_exchange user_agent cfg true body cs =
    from_connecting (make_request user_agent cfg body) none cs
push_exchange user_agent cfg false body cs =
    rw (closed none none [] [] cs) (refl, refl, omega arith)
