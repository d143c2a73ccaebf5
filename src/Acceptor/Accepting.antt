-- ===== src/Acceptor/Accepting.antt =====
-- src/acceptor_mgr.cpp: the accepts of a node over any events.
use occase.Base.{ℕ, ◌+◌, ◌<◌, ◌≡◌, ◌≢◌, refl, true, false, List, [], ◌∷◌, arith}
use occase.Acceptor.{
  Acceptor, Binding, bind_fails, listen_fails, listens, Accepted, operation_aborted, error, peer,
  closed_acceptor, do_accept, on_accept, run, shutdown,
}

-- `run` is called on a closed acceptor only, and an accept ends only while it is outstanding; it is
-- aborted only after a cancel.
pub data Event : Type 0 where
  runs : Binding → Event
  ends : Accepted → Event
  shuts : Event

pub data Step (a : Acceptor) : Event → Acceptor → Type 0 where
  opening : (b : Binding) → a.is_open ≡ false → Step a (runs b) (run b a).1
  accepting :
      (r : Accepted) → r ≢ operation_aborted → a.waiting ≢ 0 → Step a (ends r) (on_accept r a)
  aborting :
      a.cancelled ≡ true
      → a.waiting ≢ 0
      → Step a (ends operation_aborted) (on_accept operation_aborted a)
  shutting : Step a shuts (shutdown a)

-- The events, the last one first.
pub data Steps (a : Acceptor) : List Event → Acceptor → Type 0 where
  here : Steps a [] a
  next :
      {es : List Event} {e : Event} {b c : Acceptor}
      → Steps a es b
      → Step b e c
      → Steps a (e ∷ es) c

abbrev one : Event → ℕ
one (runs bind_fails) = 0
one (runs listen_fails) = 0
one (runs listens) = 1
one (ends r) = 0
one shuts = 0

-- How often the acceptor began to listen, and how many peers came.
abbrev pub listened : List Event → ℕ
listened [] = 0
listened (e ∷ es) = one e + listened es

abbrev is_peer : Event → ℕ
is_peer (ends peer) = 1
is_peer (ends operation_aborted) = 0
is_peer (ends error) = 0
is_peer (runs b) = 0
is_peer shuts = 0

abbrev pub peers : List Event → ℕ
peers [] = 0
peers (e ∷ es) = is_peer e + peers es

abbrev is_abort : Event → ℕ
is_abort (ends operation_aborted) = 1
is_abort (ends error) = 0
is_abort (ends peer) = 0
is_abort (runs b) = 0
is_abort shuts = 0

abbrev pub aborts : List Event → ℕ
aborts [] = 0
aborts (e ∷ es) = is_abort e + aborts es

pub record Accepting (es : List Event) (a : Acceptor) : Type 0 where
  pub balance : a.waiting + aborts es ≡ listened es
  pub once : listened es < 2
  pub unopened : a.is_open ≡ false → listened es ≡ 0
  pub counted : a.detected ≡ peers es
  pub uncancelled : a.cancelled ≡ false → aborts es ≡ 0

Step-Accepting :
    (es : List Event) (a b : Acceptor) (e : Event)
    → Step a e b
    → Accepting es a
    → Accepting (e ∷ es) b
unfolding run on_accept do_accept shutdown
Step-Accepting es a b _ (opening bind_fails e) h = ground arith
Step-Accepting es a b _ (opening listen_fails e) h = ground arith
Step-Accepting es a b _ (opening listens e) h = ground arith
Step-Accepting es a b _ (accepting operation_aborted n w) h = absurd (n refl)
Step-Accepting es a b _ (accepting error n w) h = ground arith
Step-Accepting es a b _ (accepting peer n w) h = ground arith
Step-Accepting es a b _ (aborting c w) h = ground arith
Step-Accepting es a b _ shutting h = ground arith

-- After any events of an acceptor that began closed: at most one accept is outstanding; there is one
-- from the time it listens on until an accept is aborted, and so as long as no shutdown was asked for;
-- and each peer that came was handed on.
pub Steps-Accepting : (es : List Event) (a : Acceptor) → Steps closed_acceptor es a → Accepting es a
Steps-Accepting es a here = record {
  balance = refl;
  once = omega arith;
  unopened = λ e. refl;
  counted = refl;
  uncancelled = λ e. refl;
}
Steps-Accepting es c (next {es = fs} {e = e} {b = b} r s) =
    Step-Accepting fs b c e s (Steps-Accepting fs b r)
