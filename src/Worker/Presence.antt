-- ===== src/Worker/Presence.antt =====
-- src/worker.cpp: a presence message from a session of one node to a session of another.
use occase.Base.{
  ℕ, ◌≡◌, ◌≢◌, refl, ap, ◌∙◌, false, true, [], ◌∷◌, ◌++◌, none, some, Str, codes, str_eq,
  starts_with-append, drop-length-append,
}
use occase.Platform.{Platform, string_at}
use occase.Exec.{ok}
use occase.Assoc.{lookup}
use occase.Config.{Core}
use occase.Session.{Session, enqueue, presence_ok, undelivered}
use occase.Session.Queue.{undelivered_unkept}
use occase.Worker.State.{World, publish, send_redis, with_session}
use occase.Worker.Api.{chat_admin_id_key}
use occase.Worker.App.{readdress, receiver, forward_presence, on_app_presence}
use occase.Worker.Chat.{receiver_kept}
use occase.Worker.Db.{on_push, on_db_presence}
use occase.Worker.Offline.{send_to_full, queued_last, own_session}

module _ {P : Platform} (cfg : Core) where
  -- A presence message of a session to a user who has no session on its node and is not the admin, but
  -- a live one on another node; its text is neither refused nor empty, nor the name of a database
  -- event. The first node publishes the text, with the sender that is logged in, on the channel of the
  -- user; a node that is given it queues it for the user's session; and there it is not kept: what this
  -- session would return to the database is as before.
  pub presence_reaches_node :
      (w v : World P) (j : P.Json) (s p : ℕ) (to text : Str)
      → string_at P j (codes "to") ≡ some to
      → str_eq to chat_admin_id_key ≡ false
      → lookup to w.sessions ≡ none
      → P.dump (P.set j (codes "from") (P.of_string (w.heap s).pub_hash)) ≡ some text
      → text ≢ []
      → str_eq text (codes "rpush") ≡ false
      → lookup to v.sessions ≡ some p
      → v.alive p ≡ true
      → let channel = cfg.redis.presence_channel_prefix ++ to in
        let u = with_session p (enqueue text false) v in
        (on_app_presence P cfg j s w ≡ (ok presence_ok, send_redis (publish channel text ∷ []) w))
        × (on_push P cfg (codes "message" ∷ channel ∷ text ∷ []) v ≡ (ok tt, u))
        × ((u.heap p).msg_queue
            ≡ (v.heap p).msg_queue ++ record { msg = text; persist = false } ∷ [])
        × (undelivered (u.heap p).msg_queue ≡ undelivered (v.heap p).msg_queue)
  unfolding on_app_presence forward_presence readdress receiver on_push on_db_presence
  presence_reaches_node w v j s p to text t a l d n r m x =
      let queue =
        ap (λ (h : Session). h.msg_queue) (own_session (enqueue text false) v p)
        ∙ queued_last text false (v.heap p) in
      (
        rw (receiver_kept P j (w.heap s).pub_hash) (rw t (rw a (rw l (rw d refl)))),
        rw (r, starts_with-append cfg.redis.presence_channel_prefix to)
            (rw (drop-length-append cfg.redis.presence_channel_prefix to)
              (rw m (rw x (rw (send_to_full cfg p text false v n) refl)))),
        queue,
        ap undelivered queue ∙ undelivered_unkept (v.heap p).msg_queue text,
      )
