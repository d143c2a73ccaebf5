-- ===== src/Worker/Counting/Open.antt =====
-- src/worker.cpp and src/ws_session.hpp: the number of sessions against the sessions that are open.
use occase.Base.{
  ℕ, suc, ◌≡◌, refl, ap, ◌∙◌, false, List, [], ◌∷◌, ◌++◌, none, ℤ, pos, inc, dec, length,
  length-append, arith,
}
use occase.Platform.{Platform}
use occase.Exec.{Result, ok, thrown, aborted, continue}
use occase.Config.{Core}
use occase.Worker.State.{World}
use occase.Worker.Counting.{tally, count, step-count}
use occase.Worker.Events.{Event, started, read, step, run, init}

-- The sessions that are open before and after events: one is opened by a handshake that succeeds, and
-- one that is open is ended by an error of its read.
pub data Opened : List ℕ → List Event → List ℕ → Type 0 where
  nothing : {o : List ℕ} → Opened o [] o
  opens :
      {o o' : List ℕ} {es : List Event} (p : ℕ)
      → Opened (p ∷ o) es o'
      → Opened o (started p false ∷ es) o'
  ends :
      {o o' : List ℕ} {es : List Event} (l r : List ℕ) (p : ℕ)
      → o ≡ l ++ p ∷ r
      → Opened (l ++ r) es o'
      → Opened o (read p none ∷ es) o'
  stays :
      {o o' : List ℕ} {es : List Event} (e : Event)
      → ((n : ℤ) → tally e n ≡ n)
      → Opened o es o'
      → Opened o (e ∷ es) o'

one_less : (l r : List ℕ) (p : ℕ) → dec (pos (length (l ++ p ∷ r))) ≡ pos (length (l ++ r))
one_less l r p =
    let e : length (l ++ p ∷ r) ≡ suc (length (l ++ r)) =
      omega (arith, length-append l (p ∷ r), length-append l r) in
    rw e refl

module _ {P : Platform} (cfg : Core) where
  -- The events that were handled before the process ended, if it did.
  pub Handled : List ℕ → List Event → Result (Unit {0}) × World P → Type 0
  Handled o es x =
      (handled : List Event) × (rest : List Event) × (o' : List ℕ) × (es ≡ handled ++ rest)
      × Opened o handled o'
      × (count x.1 ≡ pos (length o'))
      × (x.0 ≡ ok tt → rest ≡ [])

  after_step :
      (e : Event) (es : List Event) (o o1 : List ℕ)
      → ((ds : List Event) (o2 : List ℕ) → Opened o1 ds o2 → Opened o (e ∷ ds) o2)
      → (x : Result (Unit {0}) × World P) → count x.1 ≡ pos (length o1)
      → ((v : World P) → count v ≡ pos (length o1) → Handled o1 es (run P cfg es v))
      → Handled o (e ∷ es) (continue x.0 x.1 (λ _. run P cfg es))
  unfolding Handled
  after_step e es o o1 extend (ok tt, v) c next =
      let (handled, rest, o', split, opened, number, all) = next v c in
      (e ∷ handled, rest, o', ap (◌∷◌ e) split, extend handled o' opened, number, all)
  after_step e es o o1 extend (thrown, v) c next =
      (e ∷ [], es, o1, refl, extend [] o1 nothing, c, (λ k. absurd (ground arith)))
  after_step e es o o1 extend (aborted, v) c next =
      (e ∷ [], es, o1, refl, extend [] o1 nothing, c, (λ k. absurd (ground arith)))

  run-Handled :
      (es : List Event) (o o' : List ℕ) (w : World P)
      → Opened o es o'
      → count w ≡ pos (length o)
      → Handled o es (run P cfg es w)
  unfolding Handled run tally
  run-Handled [] o o' w nothing c = ([], [], o, refl, nothing, c, (λ _. refl))
  run-Handled (_ ∷ es) o o' w (opens p t) c =
      after_step (started p false) es o (p ∷ o) (λ ds o2. opens p) (step P cfg (started p false) w)
        (step-count cfg w (started p false) ∙ ap inc c) (λ v k. run-Handled es (p ∷ o) o' v t k)
  run-Handled (_ ∷ es) o o' w (ends l r p q t) c =
      after_step (read p none) es o (l ++ r) (λ ds o2. ends l r p q) (step P cfg (read p none) w)
        (step-count cfg w (read p none)
          ∙ ap dec c
          ∙ ap (λ (x : List ℕ). dec (pos (length x))) q
          ∙ one_less l r p)
        (λ v k. run-Handled es (l ++ r) o' v t k)
  run-Handled (_ ∷ es) o o' w (stays e n t) c =
      after_step e es o o (λ ds o2. stays e n) (step P cfg e w)
        (step-count cfg w e ∙ n (count w) ∙ c) (λ v k. run-Handled es o o' v t k)

-- From the start of a worker, over any events in which a session is ended by an error of its read only
-- while it is open: the number of sessions that the worker keeps is that of the sessions that are open
-- after the events that were handled, which are all of them unless the process has ended before.
pub run-Open :
    (P : Platform) (cfg : Core) (now : ℤ) (gen : P.Gen) (es : List Event) (o' : List ℕ)
    → Opened [] es o'
    → let (r, w) = run P cfg es (init P cfg now gen) in
      (handled : List Event) × (rest : List Event) × (o : List ℕ) × (es ≡ handled ++ rest)
      × Opened [] handled o
      × (w.number_of_sessions ≡ pos (length o))
      × (r ≡ ok tt → rest ≡ [])
unfolding init Handled
run-Open P cfg now gen es o' t = run-Handled cfg es [] o' _ t refl
