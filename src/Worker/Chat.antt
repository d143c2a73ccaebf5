-- ===== src/Worker/Chat.antt =====
-- src/worker.cpp: a chat message from one session of a node to another.
use occase.Base.{
  ℕ, ◌≡◌, ◌≢◌, refl, ◌∙◌, ap, sym, true, false, [], ◌∷◌, ◌++◌, some, ℤ, Str, arith, codes, str_eq,
  Bool-cases, inl, inr,
}
use occase.Platform.{Platform, string_at}
use occase.Exec.{ok}
use occase.Assoc.{lookup}
use occase.Config.{Core}
use occase.Session.{Session}
use occase.Worker.State.{World, send_to}
use occase.Worker.Api.{chat_admin_id_key}
use occase.Worker.App.{
  int_of, receiver, readdress, forward_chat, acknowledge, chat_ack, on_app_chat_msg,
}
use occase.Session.{chat_msg_ok}
use occase.Worker.Delivery.{kept, Given-send_to}

-- The message as it is sent on: the sender is the one that is logged in.
unfoldable pub signed : (P : Platform) → Core → P.Json → Str → Str → P.Json
signed P cfg j hash to = readdress P cfg (P.set j (codes "from") (P.of_string hash)) to

signed_from :
    (P : Platform) (cfg : Core) (j : P.Json) (hash to : Str)
    → string_at P (signed P cfg j hash to) (codes "from") ≡ some hash
unfolding signed readdress
signed_from P cfg j hash to = elim (Bool-cases (str_eq to chat_admin_id_key)) [
  | inl e ↦ rw e (simp (P.at-set, P.get_string-of_string))
  | inr e ↦ rw e (simp (P.at-set, P.get_string-of_string))
]

pub receiver_kept :
    (P : Platform) (j : P.Json) (hash : Str)
    → string_at P (P.set j (codes "from") (P.of_string hash)) (codes "to")
      ≡ string_at P j (codes "to")
receiver_kept P j hash = simp (P.at-set)

module _ {P : Platform} (cfg : Core) where
  forwarded :
      (w : World P) (j : P.Json) (to text : Str) (p : ℕ)
      → lookup to w.sessions ≡ some p
      → w.alive p ≡ true
      → P.dump j ≡ some text
      → text ≢ []
      → forward_chat P cfg j to w ≡ (ok tt, (send_to p text true w).1)
  unfolding forward_chat
  forwarded w j to text p l a d n =
      rw l (rw a (rw d (ap (λ r. (r, (send_to p text true w).1)) (Given-send_to cfg p text w n).0)))

  sent_elsewhere :
      (w : World P) (s : ℕ) (ack : Str)
      → ack ≢ []
      → ((send_to s ack false w).0 ≡ ok tt)
        × ((q : ℕ) → q ≢ s → (send_to s ack false w).1.heap q ≡ w.heap q)
        × ((send_to s ack false w).1.redis ≡ w.redis)
  unfolding send_to
  sent_elsewhere w s [] n = absurd (n refl)
  sent_elsewhere w s (c ∷ ack) n = (refl, (λ q k. ground arith), refl)

  acknowledged :
      (w : World P) (j : P.Json) (to post_id ack : Str) (id : ℤ) (s : ℕ)
      → string_at P j (codes "post_id") ≡ some post_id
      → int_of P cfg (P.at j (codes "id")) ≡ some id
      → P.dump (chat_ack P cfg to (w.heap s).pub_hash post_id id) ≡ some ack
      → ack ≢ []
      → acknowledge P cfg j to s w ≡ (ok chat_msg_ok, (send_to s ack false w).1)
  unfolding acknowledge
  acknowledged w j to post_id ack id s i k d n =
      rw i (rw k (rw d (rw (sent_elsewhere w s ack n).0 refl)))

  -- A chat message of one session to a user with another live session on this node, where the fields
  -- are there and the texts can be written: it is accepted, the text stands last in the receiver's
  -- queue, to be kept, nothing is sent to the database, and whatever sender the client had named, the
  -- text names the user that the sending session is logged in as.
  pub chat_delivered :
      (w : World P) (j : P.Json) (s p : ℕ) (to post_id text ack : Str) (id : ℤ)
      → string_at P j (codes "to") ≡ some to
      → lookup (receiver P cfg to) w.sessions ≡ some p
      → w.alive p ≡ true
      → s ≢ p
      → P.dump (signed P cfg j (w.heap s).pub_hash to) ≡ some text
      → text ≢ []
      → string_at P (signed P cfg j (w.heap s).pub_hash to) (codes "post_id") ≡ some post_id
      → int_of P cfg (P.at (signed P cfg j (w.heap s).pub_hash to) (codes "id")) ≡ some id
      → P.dump (chat_ack P cfg to (w.heap s).pub_hash post_id id) ≡ some ack
      → ack ≢ []
      → let (r, v) = on_app_chat_msg P cfg j s w in
        (r ≡ ok chat_msg_ok)
        × ((v.heap p).msg_queue ≡ (w.heap p).msg_queue ++ kept text ∷ [])
        × (v.redis ≡ w.redis)
        × ((m : P.Json) × (P.parse text ≡ some m)
            × (string_at P m (codes "from") ≡ some (w.heap s).pub_hash))
  unfolding on_app_chat_msg
  chat_delivered w j s p to post_id text ack id t l a k d n i q e m =
      let hash : Str = (w.heap s).pub_hash in
      let u = (send_to p text true w).1 in
      let given = (Given-send_to cfg p text w n).1 in
      let own : u.heap s ≡ w.heap s = given.others s k in
      let accepted =
        acknowledged u (signed P cfg j hash to) to post_id ack id s i q
          (ap (λ (x : Session). P.dump (chat_ack P cfg to x.pub_hash post_id id)) own ∙ e) m in
      let (done, others, redis) = sent_elsewhere u s ack m in
      unfold signed in
      (rw (receiver_kept P j hash) (
        rw t (
          rw (forwarded w (signed P cfg j hash to) (receiver P cfg to) text p l a d n) (
            rw accepted (
              refl,
              ap (λ (x : Session). x.msg_queue) (others p (λ c. k (sym c))) ∙ given.queued,
              redis ∙ given.redis,
              (signed P cfg j hash to, P.parse-dump _ text d, signed_from P cfg j hash to),
            )))))
