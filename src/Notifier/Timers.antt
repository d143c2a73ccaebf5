-- ===== src/Notifier/Timers.antt =====
-- src/notifier.cpp: messages, deleted keys and the timers of the users.
use occase.Base.{
  ◌≡◌, ◌≢◌, refl, ◌∙◌, ap, inl, inr, true, List, [], ◌∷◌, ◌++◌, none, some, Str, ℤ, codes, str_eq,
  str_eq_iff, str_eq_refl, arith, if◌then◌else◌, maybe, Option-cases,
}
use occase.Platform.{Platform, string_at}
use occase.Exec.{ok}
use occase.Assoc.{lookup, assign, lookup-assign}
use occase.Notifier.{
  Notifier, UserEntry, Config, has_token, arm, later, cut, make_ntf_body, notify, on_timeout,
  on_ntf_del, on_push, on_ntf_publish, on_ntf_message, with_tokens, is_pmessage, is_message, back,
  is_fcm_valid, redis_del_ntf, expire, due, fire_timer, int_leb, Event, push, time, fire, step, run,
}

-- The event of a deleted key.
pub deleted : Str → List Str
deleted key = codes "pmessage" ∷ redis_del_ntf ∷ redis_del_ntf ∷ key ∷ []

-- The events of a chat message, a deleted key, and a timer that is due.
pub story : Config → Str → Str → ℤ → Str → List Event
story cfg payload key now user =
    push (codes "message" ∷ cfg.redis_notify_channel ∷ payload ∷ [])
    ∷ push (deleted key)
    ∷ time now
    ∷ fire user
    ∷ []

module _ {P : Platform} (cfg : Config) where
  abbrev set_clock : ℤ → Notifier P → Notifier P
  set_clock now n = record n { clock = now }

  push_message :
      (n : Notifier P) (payload to : Str) (j : P.Json) (e : UserEntry P)
      → P.parse payload ≡ some j
      → string_at P j (codes "cmd") ≡ some (codes "message")
      → string_at P j (codes "to") ≡ some to
      → is_fcm_valid cfg.ntf ≡ true
      → lookup to n.tokens ≡ some e
      → has_token e ≡ true
      → on_push P cfg (codes "message" ∷ cfg.redis_notify_channel ∷ payload ∷ []) n
        ≡ (ok tt, arm P cfg to j e n)
  unfolding on_push on_ntf_publish on_ntf_message is_pmessage is_message back
  push_message n payload to j e p c t f l h =
      rw (str_eq_refl cfg.redis_notify_channel) (rw p (rw c (rw t (rw f (rw l (rw h refl))))))

  push_deleted :
      (n : Notifier P) (key : Str) → on_push P cfg (deleted key) n ≡ (ok tt, on_ntf_del P cfg key n)
  unfolding on_push is_pmessage back deleted
  push_deleted n key = refl

  lookup-arm :
      (to k : Str) (j : P.Json) (e : UserEntry P) (n : Notifier P)
      → lookup k (arm P cfg to j e n).tokens ≡ (
          if str_eq to k
          then some (record e { msg = j; pending = some (later n.clock cfg.wait_interval) })
          else lookup k n.tokens)
  unfolding arm with_tokens
  lookup-arm to k j e n = lookup-assign to k _ n.tokens

  lookup-on_ntf_del :
      (key k : Str) (n : Notifier P)
      → lookup k (on_ntf_del P cfg key n).tokens ≡ (
          if str_eq key k
          then maybe (lookup k n.tokens) none (λ e. some (record e { pending = none }))
          else lookup k n.tokens)
  unfolding on_ntf_del with_tokens
  lookup-on_ntf_del key k n = elim (Option-cases (lookup key n.tokens)) [
    | inl e ↦ rw e (ground (arith, str_eq_iff key k))
    | inr (w, e) ↦ rw e (
        ground
          (arith, str_eq_iff key k, lookup-assign key k (record w { pending = none }) n.tokens))
  ]

  sent-on_ntf_del : (key : Str) (n : Notifier P) → (on_ntf_del P cfg key n).sent ≡ n.sent
  unfolding on_ntf_del with_tokens
  sent-on_ntf_del key n = elim (Option-cases (lookup key n.tokens)) [
    | inl e ↦ rw e refl
    | inr (w, e) ↦ rw e refl
  ]

  fire_due :
      (n : Notifier P) (user : Str) (e : UserEntry P) (body nick msg ntf : Str)
      → lookup user n.tokens ≡ some e
      → due P cfg e.pending n.clock ≡ true
      → string_at P e.msg (codes "body") ≡ some body
      → string_at P e.msg (codes "nick") ≡ some nick
      → cut body cfg.max_msg_size ≡ some msg
      → make_ntf_body P nick msg e.token ≡ some ntf
      → ((fire_timer P cfg user n).0 ≡ ok tt)
        × ((fire_timer P cfg user n).1.sent ≡ n.sent ++ (user, ntf) ∷ [])
  unfolding fire_timer expire on_timeout notify with_tokens
  fire_due n user e body nick msg ntf l d b k c m =
      let found : lookup user (assign user (record e { pending = none }) n.tokens)
          ≡ some (record e { pending = none }) =
        ground (
          arith,
          lookup-assign user user (record e { pending = none }) n.tokens,
          str_eq_iff user user,
        ) in
      rw l (rw d (rw found (rw b (rw c (rw k (rw m (refl, refl)))))))

  fire_idle :
      (n : Notifier P) (user : Str) (e : UserEntry P)
      → lookup user n.tokens ≡ some e
      → e.pending ≡ none
      → fire_timer P cfg user n ≡ (ok tt, n)
  unfolding fire_timer due
  fire_idle n user e l d = rw l (rw d refl)

  lookup-other_del :
      (n : Notifier P) (to key : Str) (j : P.Json) (e : UserEntry P)
      → key ≢ to
      → lookup to (on_ntf_del P cfg key (arm P cfg to j e n)).tokens
        ≡ some (record e { msg = j; pending = some (later n.clock cfg.wait_interval) })
  lookup-other_del n to key j e k = ground (
    arith,
    lookup-on_ntf_del key to (arm P cfg to j e n),
    lookup-arm to to j e n,
    str_eq_iff key to,
    str_eq_iff to to,
  )

  lookup-own_del :
      (n : Notifier P) (to : Str) (j : P.Json) (e : UserEntry P)
      → lookup to (on_ntf_del P cfg to (arm P cfg to j e n)).tokens
        ≡ some (record e { msg = j; pending = none })
  lookup-own_del n to j e =
      rw (lookup-on_ntf_del to to (arm P cfg to j e n))
        (rw (lookup-arm to to j e n) (rw (str_eq_refl to) refl))

  sent-arm :
      (to : Str) (j : P.Json) (e : UserEntry P) (n : Notifier P)
      → (arm P cfg to j e n).sent ≡ n.sent
  unfolding arm with_tokens
  sent-arm to j e n = refl

  -- A chat message with a body and a nick to a user with a token, where the service is configured and
  -- the notification can be made: if another key than the user id was deleted when the time of the
  -- user's timer is reached, one notification is sent, made from the nick, the message cut to the
  -- greatest size, and the token.
  pub notified :
      (n : Notifier P) (payload to key : Str) (j : P.Json) (e : UserEntry P) (now : ℤ)
      (body nick msg ntf : Str)
      → P.parse payload ≡ some j
      → string_at P j (codes "cmd") ≡ some (codes "message")
      → string_at P j (codes "to") ≡ some to
      → is_fcm_valid cfg.ntf ≡ true
      → lookup to n.tokens ≡ some e
      → has_token e ≡ true
      → key ≢ to
      → int_leb (later n.clock cfg.wait_interval) now ≡ true
      → string_at P j (codes "body") ≡ some body
      → string_at P j (codes "nick") ≡ some nick
      → cut body cfg.max_msg_size ≡ some msg
      → make_ntf_body P nick msg e.token ≡ some ntf
      → let (r, m) = run P cfg (story cfg payload key now to) n in
        (r ≡ ok tt) × (m.sent ≡ n.sent ++ (to, ntf) ∷ [])
  unfolding run step story due
  notified n payload to key j e now body nick msg ntf p c t f l h k w b i u m =
      let armed = arm P cfg to j e n in
      let v = set_clock now (on_ntf_del P cfg key armed) in
      let found : lookup to v.tokens
          ≡ some (record e { msg = j; pending = some (later n.clock cfg.wait_interval) }) =
        lookup-other_del n to key j e k in
      let (done, sent) = fire_due v to _ body nick msg ntf found w b i u m in
      rw (push_message n payload to j e p c t f l h) (
        rw (push_deleted armed key) (
          rw done (
            refl,
            sent ∙ ap (λ q. q ++ (to, ntf) ∷ []) (sent-on_ntf_del key armed ∙ sent-arm to j e n),
          )))

  -- A chat message to a user with a token, where the service is configured, and then the user id
  -- deleted as a key before the user's timer is looked at: no notification is sent.
  pub cancelled :
      (n : Notifier P) (payload to : Str) (j : P.Json) (e : UserEntry P) (now : ℤ)
      → P.parse payload ≡ some j
      → string_at P j (codes "cmd") ≡ some (codes "message")
      → string_at P j (codes "to") ≡ some to
      → is_fcm_valid cfg.ntf ≡ true
      → lookup to n.tokens ≡ some e
      → has_token e ≡ true
      → let (r, m) = run P cfg (story cfg payload to now to) n in (r ≡ ok tt) × (m.sent ≡ n.sent)
  unfolding run step story
  cancelled n payload to j e now p c t f l h =
      let armed = arm P cfg to j e n in
      let v = set_clock now (on_ntf_del P cfg to armed) in
      rw (push_message n payload to j e p c t f l h) (
        rw (push_deleted armed to) (
          rw (fire_idle v to _ (lookup-own_del n to j e) refl)
            (refl, sent-on_ntf_del to armed ∙ sent-arm to j e n)))
