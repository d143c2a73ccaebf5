-- ===== src/Notifier/Armed.antt =====
-- src/notifier.cpp: the pending timers over any events.
use occase.Base.{
  ◌≡◌, ◌≢◌, refl, ◌∙◌, ap, inl, inr, Bool, true, false, not, List, [], ◌∷◌, ◌++◌, Option, none,
  some, Str, ℤ, codes, str_eq, is_empty, arith, if◌then◌else◌, Bool-cases, Option-cases,
}
use occase.Platform.{Platform, string_at}
use occase.Exec.{Exec, Result, ok, thrown, aborted, pure, modify, or_throw, continue, caught, ◌>>=◌}
use occase.Assoc.{lookup, assign, erase, insert, lookup-assign, lookup-erase}
use occase.Notifier.{
  Notifier, UserEntry, Config, has_token, arm, cut, make_ntf_body, notify, on_timeout, on_ntf_del,
  on_push, on_ntf_publish, on_token, reset_token, fresh_entry, on_ntf_message, with_tokens,
  is_fcm_valid, expire, due, fire_timer, on_hgetall, Event, push, hgetall, time, fire, step, run,
  start, is_pmessage, is_message, redis_del_ntf, back,
}

-- A pending timer is that of a user with a token, and there is one, or a notification was sent, only
-- where the service is configured.
pub record Armed {P : Platform} (cfg : Config) (n : Notifier P) : Type 0 where
  pub entry :
      (user : Str) (e : UserEntry P) (t : ℤ)
      → lookup user n.tokens ≡ some e
      → e.pending ≡ some t
      → (has_token e ≡ true) × (is_fcm_valid cfg.ntf ≡ true)
  pub quiet : is_fcm_valid cfg.ntf ≡ false → n.sent ≡ []

true_of_not : (b : Bool) → not b ≡ false → b ≡ true
true_of_not true h = refl
true_of_not false h = cc

none-some : (t : ℤ) → none ≢ some t
none-some t h = cc

due_pending :
    (P : Platform) (cfg : Config) (o : Option ℤ) (now : ℤ)
    → due P cfg o now ≡ true
    → (t : ℤ) × (o ≡ some t)
unfolding due
due_pending P cfg none now h = cc
due_pending P cfg (some t) now h = (t, refl)

module _ {P : Platform} (cfg : Config) where
  Armed-assign :
      (user : Str) (e : UserEntry P) (n : Notifier P)
      → Armed cfg n
      → ((t : ℤ) → e.pending ≡ some t → (has_token e ≡ true) × (is_fcm_valid cfg.ntf ≡ true))
      → Armed cfg (with_tokens P (assign user e) n)
  unfolding with_tokens
  Armed-assign user e n a h = record {
    entry = λ k f t l p. elim (Bool-cases (str_eq user k)) [
      | inl s ↦
          let is_e : e ≡ f = ground (arith, lookup-assign user k e n.tokens) in
          rw (← is_e) (h t (ap (λ (x : UserEntry P). x.pending) is_e ∙ p))
      | inr s ↦ a.entry k f t (ground (arith, lookup-assign user k e n.tokens)) p
    ];
    quiet = a.quiet;
  }

  Armed-erase :
      (user : Str) (n : Notifier P) → Armed cfg n → Armed cfg (with_tokens P (erase user) n)
  unfolding with_tokens
  Armed-erase user n a = record {
    entry = λ k f t l p. a.entry k f t (ground (arith, lookup-erase user k n.tokens)) p;
    quiet = a.quiet;
  }

  Armed-caught :
      {A : Type 0} (r : Result A × Notifier P) (b : A)
      → Armed cfg r.1
      → Armed cfg (caught r.0 r.1 b).1
  Armed-caught (ok a, n) b h = h
  Armed-caught (thrown, n) b h = h
  Armed-caught (aborted, n) b h = h

  Armed-throw :
      {A B : Type 0} (o : Option A) (f : A → Exec (Notifier P) B) (n : Notifier P)
      → Armed cfg n
      → ((a : A) → Armed cfg (f a n).1)
      → Armed cfg ((or_throw o >>= f) n).1
  Armed-throw none f n a h = a
  Armed-throw (some x) f n a h = h x

  Armed-if :
      (b : Bool) (m k : Exec (Notifier P) (Unit {0})) (n : Notifier P)
      → (b ≡ true → Armed cfg (m n).1)
      → (b ≡ false → Armed cfg (k n).1)
      → Armed cfg ((if b then m else k) n).1
  Armed-if true m k n h i = h refl
  Armed-if false m k n h i = i refl

  message-Armed :
      (j : P.Json) (n : Notifier P) → Armed cfg n → Armed cfg (on_ntf_message P cfg j n).1
  unfolding on_ntf_message arm has_token
  message-Armed j n a = Armed-throw (string_at P j (codes "to")) _ n a (λ to.
      Armed-if (not (is_fcm_valid cfg.ntf)) _ _ n (λ e. a)
        (λ valid. elim (Option-cases (lookup to n.tokens)) [
          | inl e ↦ rw e a
          | inr (w, e) ↦ rw e (
              Armed-if (not (has_token w)) (pure tt) (modify (arm P cfg to j w)) n (λ q. a)
                (λ token.
                  Armed-assign to _ n a (λ t q. (true_of_not _ token, true_of_not _ valid))))
        ]))

  token-Armed : (j : P.Json) (n : Notifier P) → Armed cfg n → Armed cfg (on_token P cfg j n).1
  unfolding on_token reset_token fresh_entry has_token
  token-Armed j n a = Armed-throw (string_at P j (codes "user_id")) _ n a (λ user.
      Armed-throw (string_at P j (codes "token")) _ n a (λ token.
        Armed-if (is_empty token) _ _ n (λ e. Armed-erase user n a)
          (λ full. elim (Option-cases (lookup user n.tokens)) [
            | inl e ↦
                rw e (Armed-assign user (fresh_entry P token) n a (λ t p. absurd (none-some t p)))
            | inr (w, e) ↦ rw e (
                Armed-assign user (record w { token = token }) n a
                  (λ t p. (ap not full, (a.entry user w t e p).1)))
          ])))

  publish-Armed :
      (payload : Str) (n : Notifier P) → Armed cfg n → Armed cfg (on_ntf_publish P cfg payload n).1
  unfolding on_ntf_publish
  publish-Armed payload n a = Armed-throw (P.parse payload) _ n a (λ j.
      Armed-throw (string_at P j (codes "cmd")) _ n a (λ cmd.
        Armed-if (str_eq cmd (codes "message")) _ _ n (λ e. message-Armed j n a)
          (λ e. Armed-if (str_eq cmd (codes "token")) _ _ n (λ q. token-Armed j n a) (λ q. a))))

  del-Armed : (key : Str) (n : Notifier P) → Armed cfg n → Armed cfg (on_ntf_del P cfg key n)
  unfolding on_ntf_del
  del-Armed key n a = elim (Option-cases (lookup key n.tokens)) [
    | inl e ↦ rw e a
    | inr (w, e) ↦
        rw e (Armed-assign key (record w { pending = none }) n a (λ t p. absurd (none-some t p)))
  ]

  push-Armed : (v : List Str) (n : Notifier P) → Armed cfg n → Armed cfg (on_push P cfg v n).1
  unfolding on_push
  push-Armed v n a = Armed-caught _ tt (
      Armed-if (is_pmessage v redis_del_ntf) _ _ n (λ e. del-Armed (back v) n a)
        (λ e.
          Armed-if (is_message v cfg.redis_notify_channel) _ _ n (λ q. publish-Armed (back v) n a)
            (λ q. a)))

  insert-Armed :
      (user token : Str) (n : Notifier P)
      → Armed cfg n
      → Armed cfg (with_tokens P (insert user (fresh_entry P token)) n)
  unfolding with_tokens insert fresh_entry
  insert-Armed user token n a = elim (Option-cases (lookup user n.tokens)) [
    | inl e ↦ rw e (Armed-assign user (fresh_entry P token) n a (λ t p. absurd (none-some t p)))
    | inr (w, e) ↦ rw e a
  ]

  hgetall-Armed : (v : List Str) (n : Notifier P) → Armed cfg n → Armed cfg (on_hgetall P cfg v n)
  unfolding on_hgetall
  hgetall-Armed [] n a = a
  hgetall-Armed (u ∷ []) n a = a
  hgetall-Armed (u ∷ t ∷ v) n a = hgetall-Armed v _ (insert-Armed u t n a)

  sent-Armed :
      (l : List (Str × Str)) (n : Notifier P)
      → is_fcm_valid cfg.ntf ≡ true
      → Armed cfg n
      → Armed cfg (record n { sent = l })
  sent-Armed l n h a = record { entry = a.entry; quiet = λ f. cc }

  notify-Armed :
      (user : Str) (e : UserEntry P) (n : Notifier P)
      → is_fcm_valid cfg.ntf ≡ true
      → Armed cfg n
      → Armed cfg (notify P cfg user e n).1
  unfolding notify
  notify-Armed user e n h a = Armed-throw (string_at P e.msg (codes "body")) _ n a (λ body.
      Armed-throw (cut body cfg.max_msg_size) _ n a (λ msg.
        Armed-throw (string_at P e.msg (codes "nick")) _ n a (λ nick.
          Armed-throw (make_ntf_body P nick msg e.token) _ n a
            (λ ntf. sent-Armed (n.sent ++ (user, ntf) ∷ []) n h a))))

  timeout-Armed :
      (user : Str) (n : Notifier P)
      → is_fcm_valid cfg.ntf ≡ true
      → Armed cfg n
      → Armed cfg (on_timeout P cfg false user n).1
  unfolding on_timeout
  timeout-Armed user n h a = elim (Option-cases (lookup user n.tokens)) [
    | inl e ↦ rw e a
    | inr (w, e) ↦ rw e (Armed-caught (notify P cfg user w n) tt (notify-Armed user w n h a))
  ]

  Armed-choice :
      (b : Bool) (x y : Result (Unit {0}) × Notifier P)
      → (b ≡ true → Armed cfg x.1)
      → Armed cfg y.1
      → Armed cfg (if b then x else y).1
  Armed-choice true x y h k = h refl
  Armed-choice false x y h k = k

  fire-Armed : (user : Str) (n : Notifier P) → Armed cfg n → Armed cfg (fire_timer P cfg user n).1
  unfolding fire_timer expire
  fire-Armed user n a = elim (Option-cases (lookup user n.tokens)) [
    | inl e ↦ rw e a
    | inr (w, e) ↦ rw e (
        Armed-choice (due P cfg w.pending n.clock) (expire P cfg user w n) (ok tt, n)
          (λ d.
            let (t, p) = due_pending P cfg w.pending n.clock d in
            timeout-Armed user _ (a.entry user w t e p).1
              (Armed-assign user (record w { pending = none }) n a (λ u q. absurd (none-some u q))))
          a)
  ]

  step-Armed : (e : Event) (n : Notifier P) → Armed cfg n → Armed cfg (step P cfg e n).1
  unfolding step
  step-Armed (push v) n a = push-Armed v n a
  step-Armed (hgetall v) n a = hgetall-Armed v n a
  step-Armed (time now) n a = record { entry = a.entry; quiet = a.quiet }
  step-Armed (fire user) n a = fire-Armed user n a

  continue-Armed :
      (r : Result (Unit {0}) × Notifier P) (m : Exec (Notifier P) (Unit {0}))
      → Armed cfg r.1
      → ((n : Notifier P) → Armed cfg n → Armed cfg (m n).1)
      → Armed cfg (continue r.0 r.1 (λ _. m)).1
  continue-Armed (ok a, n) m h k = k n h
  continue-Armed (thrown, n) m h k = h
  continue-Armed (aborted, n) m h k = h

  run-Armed_from : (es : List Event) (n : Notifier P) → Armed cfg n → Armed cfg (run P cfg es n).1
  unfolding run
  run-Armed_from [] n a = a
  run-Armed_from (e ∷ es) n a =
      continue-Armed (step P cfg e n) (run P cfg es) (step-Armed e n a) (run-Armed_from es)

-- After any events of the notifier: an entry with a pending timer has a token, and the service is
-- configured; and where the service is not configured, nothing was sent.
pub run-Armed :
    (P : Platform) (cfg : Config) (now : ℤ) (es : List Event)
    → Armed cfg (run P cfg es (start P cfg now)).1
unfolding start
run-Armed P cfg now es =
    run-Armed_from cfg es _
      (record { entry = λ user e t l p. unfold lookup in cc; quiet = λ f. refl })
