-- ===== src/Worker/Sessions.antt =====
-- src/worker.cpp: sessions_ against the sessions themselves, on a login.
use occase.Base.{
  ℕ, ◌≡◌, ◌≢◌, refl, ◌∙◌, ap, sym, inl, inr, true, [], none, some, Str, arith, str_eq, str_eq_iff,
  ne_of_str_eq, if◌then◌else◌, Bool-cases, Option-cases,
}
use occase.Platform.{Platform}
use occase.Assoc.{lookup, assign, lookup-assign}
use occase.Session.{set_pub_hash, shutdown}
use occase.Worker.State.{World, with_session}
use occase.Worker.App.{assign_session, retire, register}
use occase.Worker.Quiet.{SameUsers}

-- An entry of sessions_ leads to a session that is logged in as the entry's user.
pub record Routed {P : Platform} (w : World P) : Type 0 where
  pub entry :
      (user : Str) (p : ℕ)
      → lookup user w.sessions ≡ some p
      → (user ≢ []) × ((w.heap p).pub_hash ≡ user)

module _ {P : Platform} where
  pub SameUsers-Routed : {v w : World P} → SameUsers v w → Routed v → Routed w
  SameUsers-Routed h r = record {
    entry = λ user p e.
        let (a, b) = r.entry user p (ap (lookup user) (sym h.sessions) ∙ e) in (a, h.hashes p ∙ b);
  }

  -- A session that is not logged in has no entry.
  unlisted :
      (w : World P) (s : ℕ)
      → Routed w
      → (w.heap s).pub_hash ≡ []
      → (user : Str) → lookup user w.sessions ≢ some s
  unlisted w s r h user e = (r.entry user s e).0 (sym (r.entry user s e).1 ∙ h)

  -- What a login does to the table, for a session that is not logged in.
  unfoldable pub logged_in_state : Str → ℕ → World P → World P
  logged_in_state user s w = register user s (with_session s (set_pub_hash user) w)

  listed :
      (w v : World P) (user : Str) (s : ℕ)
      → Routed w
      → (w.heap s).pub_hash ≡ []
      → user ≢ []
      → v.sessions ≡ assign user s w.sessions
      → (v.heap s).pub_hash ≡ user
      → ((p : ℕ) → p ≢ s → (w.heap p).pub_hash ≢ user → (v.heap p).pub_hash ≡ (w.heap p).pub_hash)
      → Routed v
  listed w v user s r h n table self others = record {
    entry = λ k p e.
        let found : (if str_eq user k then some s else lookup k w.sessions) ≡ some p =
          sym (lookup-assign user k s w.sessions) ∙ ap (lookup k) (sym table) ∙ e in
        elim (Bool-cases (str_eq user k)) [
          | inl same ↦
              let is_s : s ≡ p = ground arith in
              let is_user : user ≡ k = (str_eq_iff user k).0 same in
              (λ q. n (is_user ∙ q), ap (λ x. (v.heap x).pub_hash) (sym is_s) ∙ self ∙ is_user)
          | inr other ↦
              let before : lookup k w.sessions ≡ some p = ground arith in
              let (a, b) = r.entry k p before in
              (
                a,
                others p (λ q. unlisted w s r h k (before ∙ ap some q))
                      (λ q. ne_of_str_eq user k other (sym q ∙ b))
                    ∙ b,
              )
        ];
  }

  retire_hash :
      (old : ℕ) (w : World P) (p : ℕ)
      → p ≢ old
      → ((retire old w).heap p).pub_hash ≡ (w.heap p).pub_hash
  unfolding retire with_session
  retire_hash old w p h = ground arith

  retire_sessions : (old : ℕ) (w : World P) → (retire old w).sessions ≡ w.sessions
  unfolding retire with_session
  retire_sessions old w = ground arith

  hashed_self :
      (user : Str) (s : ℕ) (w : World P)
      → ((with_session s (set_pub_hash user) w).heap s).pub_hash ≡ user
  unfolding with_session set_pub_hash
  hashed_self user s w = ground arith

  hashed_other :
      (user : Str) (s : ℕ) (w : World P) (p : ℕ)
      → p ≢ s
      → ((with_session s (set_pub_hash user) w).heap p).pub_hash ≡ (w.heap p).pub_hash
  unfolding with_session set_pub_hash
  hashed_other user s w p h = ground arith

  register_new :
      (user : Str) (s : ℕ) (v : World P)
      → lookup user v.sessions ≡ none
      → register user s v ≡ assign_session user s v
  unfolding register
  register_new user s v e = rw e

  register_old :
      (user : Str) (s old : ℕ) (v : World P)
      → lookup user v.sessions ≡ some old
      → register user s v ≡ assign_session user s (retire old v)
  unfolding register
  register_old user s old v e = rw e

  hashed_sessions :
      (user : Str) (s : ℕ) (w : World P)
      → (with_session s (set_pub_hash user) w).sessions ≡ w.sessions
  unfolding with_session
  hashed_sessions user s w = refl

  assigned :
      (user : Str) (s : ℕ) (v : World P)
      → ((assign_session user s v).sessions ≡ assign user s v.sessions)
        × ((p : ℕ) → ((assign_session user s v).heap p).pub_hash ≡ (v.heap p).pub_hash)
  unfolding assign_session
  assigned user s v = (refl, λ p. refl)

  -- A session that is not logged in logs in: the table still leads to sessions of the right users.
  pub register-Routed :
      (w : World P) (user : Str) (s : ℕ)
      → Routed w
      → (w.heap s).pub_hash ≡ []
      → user ≢ []
      → Routed (logged_in_state user s w)
  unfolding logged_in_state
  register-Routed w user s r h n =
      let v = with_session s (set_pub_hash user) w in
      let self = hashed_self user s w in
      let other = hashed_other user s w in
      let table = hashed_sessions user s w in
      elim (Option-cases (lookup user w.sessions)) [
        | inl e ↦ rw (register_new user s v (ap (lookup user) table ∙ e)) (
            listed w (assign_session user s v) user s r h n
              ((assigned user s v).0 ∙ ap (assign user s) table) ((assigned user s v).1 s ∙ self)
              (λ p q _. (assigned user s v).1 p ∙ other p q))
        | inr (old, e) ↦
            let not_old : s ≢ old = λ q. unlisted w s r h user (e ∙ ap some (sym q)) in
            let u = retire old v in
            rw (register_old user s old v (ap (lookup user) table ∙ e)) (
              listed w (assign_session user s u) user s r h n
                ((assigned user s u).0 ∙ ap (assign user s) (retire_sessions old v ∙ table))
                ((assigned user s u).1 s ∙ retire_hash old v s not_old ∙ self)
                (λ p q k.
                  (assigned user s u).1 p
                  ∙ retire_hash old v p
                      (λ c. k (ap (λ x. (w.heap x).pub_hash) c ∙ (r.entry user old e).1))
                  ∙ other p q))
      ]

  -- A session that is not logged in logs in as a user whose entry leads to an older session that can
  -- still be locked, in a node whose entries lead to sessions of their users: the entry leads to the
  -- new session, which is logged in as the user, and the older one is closing and logged out.
  pub takeover :
      (w : World P) (user : Str) (s old : ℕ)
      → Routed w
      → (w.heap s).pub_hash ≡ []
      → lookup user w.sessions ≡ some old
      → w.alive old ≡ true
      → let v = logged_in_state user s w in
        (lookup user v.sessions ≡ some s)
        × ((v.heap s).pub_hash ≡ user)
        × ((v.heap old).pub_hash ≡ [])
        × ((v.heap old).closing ≡ true)
  unfolding logged_in_state register assign_session retire with_session set_pub_hash shutdown
  takeover w user s old r h e live =
      let not_old : s ≢ old = λ q. unlisted w s r h user (e ∙ ap some (sym q)) in
      ground (arith, lookup-assign user user s w.sessions, str_eq_iff user user)
