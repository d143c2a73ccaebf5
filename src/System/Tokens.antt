-- ===== src/System/Tokens.antt =====
-- src/worker.cpp (on_app_login) and src/notifier.cpp: the token of a login, on its way to the notifier.
use occase.Base.{
  ◌≡◌, refl, ◌∙◌, false, [], ◌∷◌, none, some, Str, codes, is_empty, maybe, str_eq_refl,
}
use occase.Platform.{Platform, string_at, object}
use occase.Exec.{ok}
use occase.Assoc.{lookup}
use occase.Config.{Core}
use occase.Worker.State.{World, publish, hset, send_redis}
use occase.Worker.App.{token_json, token_step, publish_token}
use occase.Notifier.{Notifier, Config, fresh_entry, on_push, on_hgetall}
use occase.Notifier.Tokens.{token_updates, lookup-on_hgetall, listed}

token_fields :
    (P : Platform) (cfg : Core) (user_id token : Str)
    → let j = token_json P cfg user_id token in
      (string_at P j (codes "cmd") ≡ some (codes "token"))
      × (string_at P j (codes "user_id") ≡ some user_id)
      × (string_at P j (codes "token") ≡ some token)
unfolding token_json object
token_fields P cfg user_id token = (
  simp (P.at-set, P.get_string-of_string),
  simp (P.at-set, P.get_string-of_string),
  simp (P.at-set, P.get_string-of_string),
)

-- The token in a login, a text that is not empty, of a node whose notify channel is the notifier's:
-- the node publishes a text on that channel and stores the pair of user and token. A notifier that is
-- given the text has an entry of the user with this token, which keeps its message and its timer if
-- it was there; and one that has no entry of the user and is given the stored pair when it starts has
-- a new entry with this token.
pub login_token_known :
    {P : Platform} (cfg : Core) (ncfg : Config) (w : World P) (n m : Notifier P) (field : P.Json)
    (user_id token msg : Str)
    → ncfg.redis_notify_channel ≡ cfg.redis.notify_channel
    → P.json_empty field ≡ false
    → P.get_string field ≡ some token
    → is_empty token ≡ false
    → P.dump (token_json P cfg user_id token) ≡ some msg
    → lookup user_id m.tokens ≡ none
    → (token_step P cfg user_id (some field) w ≡ (
      ok tt,
      send_redis
          (publish ncfg.redis_notify_channel msg
            ∷ hset cfg.redis.tokens_key ((user_id, token) ∷ [])
            ∷ [])
          w,
    ))
      × (let (r, v) = on_push P ncfg (codes "message" ∷ ncfg.redis_notify_channel ∷ msg ∷ []) n in
          (r ≡ ok tt)
          × (lookup user_id v.tokens
              ≡ some (
                  maybe
                    (lookup user_id n.tokens)
                    (fresh_entry P token)
                    (λ e. record e { token = token }))))
      × (lookup user_id (on_hgetall P ncfg (user_id ∷ token ∷ []) m).tokens
          ≡ some (fresh_entry P token))
unfolding token_step publish_token listed
login_token_known {P} cfg ncfg w n m field user_id token msg c e t f d l =
    let (cmd, user, tok) = token_fields P cfg user_id token in
    let (r, known) =
      token_updates ncfg n msg (token_json P cfg user_id token) user_id token user_id
        (P.parse-dump _ msg d) cmd user tok in
    (
      rw e (rw t (rw d (rw c refl))),
      (r, known ∙ rw (str_eq_refl user_id) (rw f refl)),
      lookup-on_hgetall ncfg user_id (user_id ∷ token ∷ []) m
          ∙ rw l (rw (str_eq_refl user_id) refl),
    )
