-- ===== src/Client/Turns/Loops.antt =====
-- src/occase-db-tests.cpp (launch_replier, publisher): the turns of a coroutine, taken one after
-- another, against its loop.
use occase.Base.{ℕ, zero, suc, ◌≡◌, refl, sym, ◌∙◌, ◌*◌, Str, arith}
use occase.Platform.{Platform}
use occase.Exec.{Exec, Result, ok, thrown, aborted, pure, continue, ◌>>=◌, ◌>>◌}
use occase.Http.{Response}
use occase.Client.{UserCred, CredPubHelper, HttpRequest}
use occase.Client.Flows.{Wire}
use occase.Client.Sockets.{
  replier_ack, app_msg, send_and_ack, replier_loop, receive_and_send, server_ack, publisher_loop,
}
use occase.Client.Turns.{Replier, sending, receiving, replier_step, publisher_step}

continue_cong :
    {S A B : Type 0} (r : Result A) (s : S) (f g : A → Exec S B)
    → ((a : A) (t : S) → f a t ≡ g a t)
    → continue r s f ≡ continue r s g
continue_cong (ok a) s f g h = h a s
continue_cong thrown s f g h = refl
continue_cong aborted s f g h = refl

bind_assoc :
    {S A B C : Type 0} (m : Exec S A) (f : A → Exec S B) (g : B → Exec S C) (s : S)
    → (m >>= f >>= g) s ≡ (m >>= λ a. f a >>= g) s
bind_assoc {S = S} {A = A} m f g s = at (m s).0 (m s).1
  where
    at :
        (r : Result A) (t : S)
        → continue (continue r t f).0 (continue r t f).1 g ≡ continue r t (λ a. f a >>= g)
    at (ok a) t = refl
    at thrown t = refl
    at aborted t = refl

-- So many turns.
unfoldable pub turns_of : {S A : Type 0} → (A → Exec S A) → ℕ → A → Exec S A
turns_of step zero a = pure a
turns_of step (suc k) a = step a >>= turns_of step k

-- A part, and then the turns from the place after it.
part :
    {S A B : Type 0} (m : Exec S (Unit {0})) (a : A) (f : A → Exec S B) (g : Exec S B) (s : S)
    → ((t : S) → f a t ≡ g t)
    → ((m >> pure a) >>= f) s ≡ (m >> g) s
part m a f g s h =
    bind_assoc m (λ _. pure a) f s ∙ continue_cong (m s).0 (m s).1 (λ _. f a) (λ _. g) (λ _ t. h t)

module _ (P : Platform) {S : Type 0} (exchange : HttpRequest → Exec S Response) (W : Wire S) where
  -- The turns of the replier, without those of others between them, are its loop.
  replier_turns :
      (ws : ℕ) (cred : UserCred) (text : Str) (n : ℕ) (s : S)
      → turns_of (replier_step P exchange W ws cred text) (3 * n) (sending n) s
        ≡ (replier_loop P exchange W n ws cred text >> pure (sending 0)) s
  unfolding turns_of replier_step replier_loop send_and_ack
  replier_turns ws cred text zero s = refl
  replier_turns ws cred text (suc n) s =
      let rest = replier_loop P exchange W n ws cred text in
      let step = replier_step P exchange W ws cred text in
      let three : 3 * suc n ≡ suc (suc (suc (3 * n))) = omega arith in
      let write = W.write ws text in
      let ack = replier_ack P exchange W ws cred in
      let app = app_msg P exchange W ws cred in
      let end : Exec S Replier = rest >> pure (sending 0) in
      rw three (
        part write _ (turns_of step (suc (suc (3 * n))))
          (ack >> ((app >> rest) >> pure (sending 0))) s
          (λ t. part ack _ (turns_of step (suc (3 * n))) ((app >> rest) >> pure (sending 0)) t (λ u.
            part app _ (turns_of step (3 * n)) end u (replier_turns ws cred text n)
            ∙ sym (bind_assoc app (λ _. rest) (λ _. pure (sending 0)) u)))
        ∙ sym (bind_assoc write (λ _. ack) (λ _. (app >> rest) >> pure (sending 0)) s)
        ∙ sym (bind_assoc (write >> ack) (λ _. app >> rest) (λ _. pure (sending 0)) s))

  -- The same for the publisher.
  publisher_turns :
      (ws : ℕ) (foo : CredPubHelper) (n : ℕ) (s : S)
      → turns_of (publisher_step P exchange W ws foo) (2 * n) (receiving n) s
        ≡ (publisher_loop P exchange W n ws foo >> pure (receiving 0)) s
  unfolding turns_of publisher_step publisher_loop
  publisher_turns ws foo zero s = refl
  publisher_turns ws foo (suc n) s =
      let rest = publisher_loop P exchange W n ws foo in
      let step = publisher_step P exchange W ws foo in
      let two : 2 * suc n ≡ suc (suc (2 * n)) = omega arith in
      let receive = receive_and_send P exchange W ws foo in
      let ack = server_ack P exchange W ws foo in
      rw two (
        part receive _ (turns_of step (suc (2 * n))) ((ack >> rest) >> pure (receiving 0)) s (λ t.
          part ack _ (turns_of step (2 * n)) (rest >> pure (receiving 0)) t
            (publisher_turns ws foo n)
          ∙ sym (bind_assoc ack (λ _. rest) (λ _. pure (receiving 0)) t))
        ∙ sym (bind_assoc receive (λ _. ack >> rest) (λ _. pure (receiving 0)) s))

  -- The turns of the two coroutines with which the executor runs them, taken without those of the
  -- other between them, are their loops: three turns for each round of the replier and two for each
  -- round of the publisher give what the loop gives, in any state, exceptions included.
  pub turns_make_loops :
      (r p : ℕ) (cred : UserCred) (text : Str) (foo : CredPubHelper) (n : ℕ) (s : S)
      → (turns_of (replier_step P exchange W r cred text) (3 * n) (sending n) s
          ≡ (replier_loop P exchange W n r cred text >> pure (sending 0)) s)
        × (turns_of (publisher_step P exchange W p foo) (2 * n) (receiving n) s
            ≡ (publisher_loop P exchange W n p foo >> pure (receiving 0)) s)
  turns_make_loops r p cred text foo n s =
      (replier_turns r cred text n s, publisher_turns p foo n s)
