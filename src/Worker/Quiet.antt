-- ===== src/Worker/Quiet.antt =====
-- src/worker.cpp: code that leaves sessions_ and the hashes of all sessions as they are.
use occase.Base.{
  ℕ, ◌≡◌, refl, ◌∙◌, ap, Bool, true, false, List, [], ◌∷◌, Option, none, some, Str, arith,
  if◌then◌else◌, maybe,
}
use occase.Platform.{Platform}
use occase.Exec.{
  Exec, Result, ok, thrown, aborted, pure, modify, gets, or_throw, assert, catching, noexcept,
  continue, caught, ended, ◌>>=◌, ◌>>◌,
}
use occase.Session.{Session, enqueue, send}
use occase.Worker.State.{
  World, Command, send_redis, with_posts, open_acceptor, run_acceptor, with_acceptor, with_session,
  send_to, store_chat_msg,
}
use occase.Channel.{Channel}
use occase.Acceptor.{Acceptor, Binding}
use occase.Config.{Core}

-- The users, their sessions and the number of sessions are the same in both states.
pub record SameUsers {P : Platform} (v w : World P) : Type 0 where
  pub sessions : w.sessions ≡ v.sessions
  pub hashes : (p : ℕ) → (w.heap p).pub_hash ≡ (v.heap p).pub_hash
  pub count : w.number_of_sessions ≡ v.number_of_sessions

pub record Quiet {P : Platform} {A : Type 0} (m : Exec (World P) A) : Type 0 where
  pub at : (w : World P) → SameUsers w (m w).1

module _ {P : Platform} where
  pub SameUsers-refl : (w : World P) → SameUsers w w
  SameUsers-refl w = record { sessions = refl; hashes = λ p. refl; count = refl }

  pub SameUsers-trans : {u v w : World P} → SameUsers u v → SameUsers v w → SameUsers u w
  SameUsers-trans h k = record {
    sessions = k.sessions ∙ h.sessions;
    hashes = λ p. k.hashes p ∙ h.hashes p;
    count = k.count ∙ h.count;
  }

module _ {P : Platform} {A : Type 0} where
  pub Quiet-pure : (a : A) → Quiet {P = P} (pure a)
  Quiet-pure a = record { at = SameUsers-refl }

  pub Quiet-or_throw : (o : Option A) → Quiet {P = P} (or_throw o)
  Quiet-or_throw none = record { at = SameUsers-refl }
  Quiet-or_throw (some a) = record { at = SameUsers-refl }

  pub Quiet-gets : (f : World P → A) → Quiet (gets f)
  Quiet-gets f = record { at = SameUsers-refl }

  pub Quiet-if :
      (b : Bool) (m n : Exec (World P) A) → Quiet m → Quiet n → Quiet (if b then m else n)
  Quiet-if true m n h k = h
  Quiet-if false m n h k = k

  pub Quiet-maybe :
      {C : Type 0} (o : Option C) (m : Exec (World P) A) (f : C → Exec (World P) A)
      → Quiet m
      → ((c : C) → Quiet (f c))
      → Quiet (maybe o m f)
  Quiet-maybe none m f h k = h
  Quiet-maybe (some c) m f h k = k c

  pub Quiet-catching : (a : A) (m : Exec (World P) A) → Quiet m → Quiet (catching a m)
  Quiet-catching a m h = record { at = λ w. after (m w) (h.at w) }
    where
      after :
          {w : World P} (r : Result A × World P)
          → SameUsers w r.1
          → SameUsers w (caught r.0 r.1 a).1
      after (ok b, v) k = k
      after (thrown, v) k = k
      after (aborted, v) k = k

  pub Quiet-noexcept : (m : Exec (World P) A) → Quiet m → Quiet (noexcept m)
  Quiet-noexcept m h = record { at = λ w. after (m w) (h.at w) }
    where
      after :
          {w : World P} (r : Result A × World P) → SameUsers w r.1 → SameUsers w (ended r.0 r.1).1
      after (ok b, v) k = k
      after (thrown, v) k = k
      after (aborted, v) k = k

pub Quiet-assert : {P : Platform} (b : Bool) → Quiet {P = P} (assert b)
Quiet-assert true = record { at = SameUsers-refl }
Quiet-assert false = record { at = SameUsers-refl }

module _ {P : Platform} {A B : Type 0} where
  Quiet-continue :
      (u : World P) (r : Result A) (v : World P) (f : A → Exec (World P) B)
      → SameUsers u v
      → ((a : A) → Quiet (f a))
      → SameUsers u (continue r v f).1
  Quiet-continue u (ok a) v f h k = SameUsers-trans h ((k a).at v)
  Quiet-continue u thrown v f h k = h
  Quiet-continue u aborted v f h k = h

  pub Quiet-bind :
      (m : Exec (World P) A) (f : A → Exec (World P) B)
      → Quiet m
      → ((a : A) → Quiet (f a))
      → Quiet (m >>= f)
  Quiet-bind m f h k = record { at = λ w. Quiet-continue w (m w).0 (m w).1 f (h.at w) k }

  pub Quiet-seq : (m : Exec (World P) A) (n : Exec (World P) B) → Quiet m → Quiet n → Quiet (m >> n)
  Quiet-seq m n h k = Quiet-bind m (λ _. n) h (λ _. k)

module _ {P : Platform} where
  pub Quiet-send_redis : (cs : List Command) → Quiet {P = P} (modify (send_redis cs))
  unfolding send_redis
  Quiet-send_redis cs = record {
    at = λ w. record { sessions = refl; hashes = λ p. refl; count = refl };
  }

  pub Quiet-with_session :
      (p : ℕ) (f : Session → Session)
      → ((s : Session) → (f s).pub_hash ≡ s.pub_hash)
      → Quiet {P = P} (modify (with_session p f))
  unfolding with_session
  Quiet-with_session p f h = record {
    at = λ w. record { sessions = refl; hashes = λ q. ground (arith, h (w.heap p)); count = refl };
  }

pub pub_hash-enqueue :
    (msg : Str) (persist : Bool) (s : Session) → (enqueue msg persist s).pub_hash ≡ s.pub_hash
unfolding enqueue
pub_hash-enqueue msg persist s = ground arith

pub pub_hash-send :
    (msg : Str) (persist : Bool) (s : Session) → (send msg persist s).1.pub_hash ≡ s.pub_hash
unfolding send
pub_hash-send [] persist s = refl
pub_hash-send (c ∷ msg) persist s = pub_hash-enqueue (c ∷ msg) persist s

module _ {P : Platform} where
  pub Quiet-send_to : (p : ℕ) (msg : Str) (persist : Bool) → Quiet {P = P} (send_to p msg persist)
  unfolding send_to
  Quiet-send_to p msg persist = record {
    at = λ w. record {
      sessions = refl;
      hashes = λ q. ground (arith, pub_hash-send msg persist (w.heap p));
      count = refl;
    };
  }

  pub Quiet-store_chat_msg :
      (cfg : Core) (msgs : List Str) (to : Str)
      → Quiet {P = P} (modify (store_chat_msg cfg msgs to))
  unfolding store_chat_msg
  Quiet-store_chat_msg cfg [] to = record { at = SameUsers-refl }
  Quiet-store_chat_msg cfg (m ∷ ms) to = record {
    at = λ w. record { sessions = refl; hashes = λ p. refl; count = refl };
  }

  -- A change of other parts of the state.
  pub Quiet-modify :
      (f : World P → World P)
      → ((w : World P) → (f w).sessions ≡ w.sessions)
      → ((w : World P) → (f w).heap ≡ w.heap)
      → ((w : World P) → (f w).number_of_sessions ≡ w.number_of_sessions)
      → Quiet (modify f)
  Quiet-modify f h k n = record {
    at = λ w. record {
      sessions = h w;
      hashes = λ p. ap (λ (g : ℕ → Session). (g p).pub_hash) (k w);
      count = n w;
    };
  }

module _ {P : Platform} where
  pub Quiet-with_posts : (f : Channel → Channel) → Quiet {P = P} (modify (with_posts f))
  unfolding with_posts
  Quiet-with_posts f = Quiet-modify _ (λ w. refl) (λ w. refl) (λ w. refl)

  pub Quiet-with_acceptor : (f : Acceptor → Acceptor) → Quiet {P = P} (modify (with_acceptor f))
  unfolding with_acceptor
  Quiet-with_acceptor f = Quiet-modify _ (λ w. refl) (λ w. refl) (λ w. refl)

  Quiet-run_acceptor : (b : Binding) → Quiet {P = P} (run_acceptor b)
  unfolding run_acceptor
  Quiet-run_acceptor b = record {
    at = λ w. record { sessions = refl; hashes = λ p. refl; count = refl };
  }

  pub Quiet-open_acceptor : (b : Binding) → Quiet {P = P} (open_acceptor b)
  unfolding open_acceptor
  Quiet-open_acceptor b =
      Quiet-bind _ _ (Quiet-gets _) (λ o. Quiet-if o _ _ (Quiet-pure tt) (Quiet-run_acceptor b))

pub ruleset quiet_rules = (
  Quiet-pure, Quiet-or_throw, Quiet-gets, Quiet-if, Quiet-maybe, Quiet-catching, Quiet-noexcept,
  Quiet-assert, Quiet-bind, Quiet-seq, Quiet-send_redis, Quiet-send_to, Quiet-store_chat_msg,
  Quiet-with_posts, Quiet-open_acceptor, Quiet-with_acceptor,
)
