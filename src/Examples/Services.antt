-- ===== src/Examples/Services.antt =====
-- The notifier and the HTTP interface on concrete states.
use occase.Base.{◌≡◌, refl, true, false, List, [], ◌∷◌, some, pos, Str, codes, maybe}
use occase.Examples.Toy.{toy, Tree, chars, write}
use occase.Examples.Nodes.{cfg, online}
use occase.Platform.{object, string_at}
use occase.Exec.{ok}
use occase.Assoc.{lookup}
use occase.Notifier.{
  Event, push, time, fire, start, Notifier, UserEntry, Config, fresh_entry, on_push, run,
  make_ntf_body, cut, is_fcm_valid, has_token, later, int_leb,
}
use occase.Notifier.Tokens.{token_updates}
use occase.Notifier.Armed.{Armed, run-Armed}
use occase.Notifier.Timers.{story, notified}
use occase.Http.{Request, post, no_response, success, matches, set_not_fount_header, post_handler}
use occase.Http.Errors.{malformed_body}

abbrev pub notify_cfg : Config
notify_cfg = record {
  redis_notify_channel = codes "notify";
  redis_tokens_key = codes "fcm_tokens";
  ntf = record {
    fcm_port = codes "443";
    fcm_host = codes "fcm";
    fcm_target = codes "/fcm/send";
    fcm_server_token = codes "key=x";
    version = pos 11;
  };
  max_msg_size = pos 2;
  wait_interval = pos 5;
}

abbrev pub known : UserEntry toy
known = fresh_entry toy (codes "tok")

abbrev pub waiting : Notifier toy
waiting = record { clock = pos 100; tokens = (codes "al", known) ∷ []; sent = [] }

pub al_known : lookup (codes "al") waiting.tokens ≡ some known
unfolding lookup
al_known = refl

pub al_token : has_token known ≡ true
unfolding has_token fresh_entry
al_token = refl

pub fcm_valid : is_fcm_valid notify_cfg.ntf ≡ true
unfolding is_fcm_valid
fcm_valid = refl

abbrev chat : Tree
chat = object toy (
    (codes "cmd", chars (codes "message"))
    ∷ (codes "to", chars (codes "al"))
    ∷ (codes "body", chars (codes "hello"))
    ∷ (codes "nick", chars (codes "bob"))
    ∷ [])

chat_fields :
    (toy.parse (write chat) ≡ some chat)
    × (string_at toy chat (codes "cmd") ≡ some (codes "message"))
    × (string_at toy chat (codes "to") ≡ some (codes "al"))
    × (string_at toy chat (codes "body") ≡ some (codes "hello"))
    × (string_at toy chat (codes "nick") ≡ some (codes "bob"))
unfolding object
chat_fields = (refl, refl, refl, refl, refl)

abbrev pub notification : Str
notification = maybe (make_ntf_body toy (codes "bob") (codes "he") (codes "tok")) [] (λ s. s)

pub notification_made : make_ntf_body toy (codes "bob") (codes "he") known.token ≡ some notification
unfolding make_ntf_body fresh_entry
notification_made = refl

pub body_cut : cut (codes "hello") notify_cfg.max_msg_size ≡ some (codes "he")
unfolding cut
body_cut = refl

pub in_time : int_leb (later waiting.clock notify_cfg.wait_interval) (pos 105) ≡ true
unfolding later
in_time = refl

notified_example :
    let (r, m) =
      run toy notify_cfg
        (story notify_cfg (write chat) (codes "msg:al") (pos 105) (codes "al"))
        waiting in
    (r ≡ ok tt) × (m.sent ≡ (codes "al", notification) ∷ [])
notified_example =
    notified notify_cfg waiting (write chat) (codes "al") (codes "msg:al") chat known (pos 105)
      (codes "hello") (codes "bob") (codes "he") notification chat_fields.0 chat_fields.1
      chat_fields.2 fcm_valid al_known al_token (λ e. cc) in_time chat_fields.3 chat_fields.4
      body_cut notification_made

abbrev new_token : Tree
new_token = object toy (
    (codes "cmd", chars (codes "token"))
    ∷ (codes "user_id", chars (codes "al"))
    ∷ (codes "token", chars (codes "new"))
    ∷ [])

new_token_fields :
    (toy.parse (write new_token) ≡ some new_token)
    × (string_at toy new_token (codes "cmd") ≡ some (codes "token"))
    × (string_at toy new_token (codes "user_id") ≡ some (codes "al"))
    × (string_at toy new_token (codes "token") ≡ some (codes "new"))
unfolding object
new_token_fields = (refl, refl, refl, refl)

token_updates_example :
    let (r, m) =
      on_push toy notify_cfg (codes "message" ∷ codes "notify" ∷ write new_token ∷ []) waiting in
    (r ≡ ok tt)
    × (lookup (codes "al") m.tokens
        ≡ some (
            maybe
              (lookup (codes "al") waiting.tokens)
              (fresh_entry toy (codes "new"))
              (λ e. record e { token = codes "new" })))
token_updates_example =
    token_updates notify_cfg waiting (write new_token) new_token (codes "al") (codes "new")
      (codes "al") new_token_fields.0 new_token_fields.1 new_token_fields.2 new_token_fields.3

abbrev happenings : List Event
happenings =
    push (codes "message" ∷ codes "notify" ∷ write new_token ∷ [])
    ∷ push (codes "message" ∷ codes "notify" ∷ write chat ∷ [])
    ∷ time (pos 105)
    ∷ fire (codes "al")
    ∷ []

run-Armed_example :
    Armed notify_cfg (run toy notify_cfg happenings (start toy notify_cfg (pos 100))).1
run-Armed_example = run-Armed toy notify_cfg (pos 100) happenings

abbrev broken : Request
broken = record { method = post; target = codes "/posts/delete"; body = 9 ∷ [] }

other_target :
    (matches broken.target (codes "/posts/upload-credit") ≡ false)
    × (matches broken.target (codes "/get-user-id") ≡ false)
unfolding matches
other_target = (refl, refl)

malformed_body_example : post_handler toy cfg (pos 0) broken no_response online ≡ (
  ok (set_not_fount_header (record no_response { status = success; server = cfg.server_name })),
  online,
)
malformed_body_example =
    malformed_body cfg (pos 0) broken no_response online refl refl other_target.0 other_target.1
