-- ===== src/Worker/Relay.antt =====
-- src/worker.cpp: the state after a chat message from one session of a node to another.
use occase.Base.{ℕ, ◌≡◌, ◌≢◌, refl, ap, sym, ◌∙◌, true, false, some, ℤ, Str, codes, str_eq, []}
use occase.Platform.{Platform, string_at}
use occase.Exec.{ok}
use occase.Assoc.{lookup}
use occase.Config.{Core}
use occase.Session.{Session, enqueue, chat_msg_ok}
use occase.Worker.State.{World, with_session}
use occase.Worker.Api.{chat_admin_id_key}
use occase.Worker.App.{
  int_of, receiver, readdress, forward_chat, acknowledge, chat_ack, on_app_chat_msg,
}
use occase.Worker.Chat.{receiver_kept}
use occase.Worker.Offline.{send_to_full, other_session}

module _ {P : Platform} (cfg : Core) where
  -- The receiver's session is given the message, and the sender's the acknowledgement.
  unfoldable pub passed_state : ℕ → ℕ → Str → Str → World P → World P
  passed_state s p text ack w =
      with_session s (enqueue ack false) (with_session p (enqueue text true) w)

  pub chat_passed :
      (w : World P) (j : P.Json) (s p : ℕ) (to post_id text ack : Str) (id : ℤ)
      → string_at P j (codes "to") ≡ some to
      → str_eq to chat_admin_id_key ≡ false
      → lookup to w.sessions ≡ some p
      → w.alive p ≡ true
      → s ≢ p
      → let hash = (w.heap s).pub_hash in
        let signed = P.set j (codes "from") (P.of_string hash) in
        P.dump signed ≡ some text
        → string_at P signed (codes "post_id") ≡ some post_id
        → int_of P cfg (P.at signed (codes "id")) ≡ some id
        → P.dump (chat_ack P cfg to hash post_id id) ≡ some ack
        → text ≢ []
        → ack ≢ []
        → on_app_chat_msg P cfg j s w ≡ (ok chat_msg_ok, passed_state s p text ack w)
  unfolding on_app_chat_msg readdress receiver forward_chat acknowledge passed_state
  chat_passed w j s p to post_id text ack id t a l v k d q i e m n =
      let u : World P = with_session p (enqueue text true) w in
      let own : u.heap s ≡ w.heap s = other_session (enqueue text true) w p s (λ c. k (sym c)) in
      let written =
        ap (λ (x : Session). P.dump (chat_ack P cfg to x.pub_hash post_id id)) own ∙ e in
      rw (receiver_kept P j (w.heap s).pub_hash) (
        rw t (
          rw a (
            rw l (
              rw v (
                rw d (
                  rw (send_to_full cfg p text true w m)
                    (rw q (rw i (rw written (rw (send_to_full cfg s ack false u n) refl))))))))))
