-- ===== src/Notifier/Tokens.antt =====
-- src/notifier.cpp: the table of tokens, read from the database and changed by its messages.
use occase.Base.{
  ◌≡◌, refl, ◌∙◌, inl, inr, List, [], ◌∷◌, Option, none, some, Str, codes, str_eq, str_eq_iff,
  str_eq_refl, is_empty, arith, if◌then◌else◌, maybe, Option-cases,
}
use occase.Platform.{Platform, string_at}
use occase.Exec.{ok}
use occase.Assoc.{lookup, insert, lookup-assign, lookup-erase}
use occase.Notifier.{
  Notifier, Config, fresh_entry, on_hgetall, on_push, on_ntf_publish, on_token, reset_token,
  with_tokens, is_pmessage, is_message, back,
}

pub lookup-insert :
    {V : Type 0} (k j : Str) (v : V) (m : List (Str × V))
    → lookup j (insert k v m) ≡ maybe (lookup j m) (if str_eq k j then some v else none) some
unfolding insert
lookup-insert k j v m = elim (Option-cases (lookup k m)) [
  | inl e ↦ rw e (ground (arith, lookup-assign k j v m, str_eq_iff k j))
  | inr (w, e) ↦ rw e (ground (arith, str_eq_iff k j))
]

some_or : {V : Type 0} (o : Option V) → o ≡ maybe o none some
some_or none = refl
some_or (some v) = refl

-- The token of the first pair of a reply that is for the user.
unfoldable pub listed : Str → List Str → Option Str
listed k (user_id ∷ token ∷ v) = if str_eq user_id k then some token else listed k v
listed k _ = none

module _ {P : Platform} (cfg : Config) where
  -- After the reply with the stored tokens: a user with an entry keeps it, another one has a new
  -- entry with the token of the first pair for it, and no entry where there is no such pair.
  pub lookup-on_hgetall :
      (k : Str) (v : List Str) (n : Notifier P)
      → lookup k (on_hgetall P cfg v n).tokens
        ≡ maybe (lookup k n.tokens) (maybe (listed k v) none (λ t. some (fresh_entry P t))) some
  unfolding on_hgetall listed with_tokens
  lookup-on_hgetall k [] n = some_or (lookup k n.tokens)
  lookup-on_hgetall k (u ∷ []) n = some_or (lookup k n.tokens)
  lookup-on_hgetall k (u ∷ t ∷ v) n =
      lookup-on_hgetall k v (with_tokens P (insert u (fresh_entry P t)) n)
      ∙ ground (arith, lookup-insert u k (fresh_entry P t) n.tokens)

  reset_lookup :
      (k user_id token : Str) (n : Notifier P)
      → lookup k (reset_token P cfg user_id token n).tokens ≡ (
          if str_eq user_id k
          then some (
              maybe
                (lookup user_id n.tokens)
                (fresh_entry P token)
                (λ e. record e { token = token }))
          else lookup k n.tokens)
  unfolding reset_token with_tokens
  reset_lookup k user_id token n = elim (Option-cases (lookup user_id n.tokens)) [
    | inl e ↦ rw e (lookup-assign user_id k _ n.tokens)
    | inr (w, e) ↦ rw e (lookup-assign user_id k _ n.tokens)
  ]

  -- A token message of the notify channel: an empty token takes the user's entry out, another one is
  -- the token of the user's entry, which is new where there was none and else keeps its message and
  -- its timer; the entries of the other users are as before.
  pub token_updates :
      (n : Notifier P) (payload : Str) (j : P.Json) (user_id token k : Str)
      → P.parse payload ≡ some j
      → string_at P j (codes "cmd") ≡ some (codes "token")
      → string_at P j (codes "user_id") ≡ some user_id
      → string_at P j (codes "token") ≡ some token
      → let (r, m) = on_push P cfg (codes "message" ∷ cfg.redis_notify_channel ∷ payload ∷ []) n in
        (r ≡ ok tt)
        × (lookup k m.tokens ≡ (
            if str_eq user_id k
            then (if is_empty token
                then none
                else some (
                    maybe
                      (lookup user_id n.tokens)
                      (fresh_entry P token)
                      (λ e. record e { token = token })))
            else lookup k n.tokens))
  unfolding on_push on_ntf_publish on_token is_pmessage is_message back with_tokens
  token_updates n payload j user_id [] k p c u t =
      rw (str_eq_refl cfg.redis_notify_channel)
        (rw p (rw c (rw u (rw t (refl, lookup-erase user_id k n.tokens)))))
  token_updates n payload j user_id (x ∷ xs) k p c u t =
      rw (str_eq_refl cfg.redis_notify_channel)
        (rw p (rw c (rw u (rw t (refl, reset_lookup k user_id (x ∷ xs) n)))))
