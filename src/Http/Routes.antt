-- ===== src/Http/Routes.antt =====
-- src/http_session_impl.hpp: the answers to the requests for an identity and for a publication.
use occase.Base.{◌≡◌, refl, ◌++◌, some, ℤ, Str, codes}
use occase.Platform.{Platform}
use occase.Exec.{ok}
use occase.Config.{Core}
use occase.Crypto.{make, make_key}
use occase.Worker.State.{World}
use occase.Worker.Api
use occase.Http.{
  Response, post, crlf, process_request, handle, post_handler, get_user_id_handler,
  post_publish_handler, do_write, matches, answer, json_type, no_response, success,
}

module _ (P : Platform) (cfg : Core) (ret : ℤ) where
  -- The answer with a JSON text.
  unfoldable pub sent : Str → Response
  sent body =
      do_write P cfg ret
        (answer json_type body (record no_response { status = success; server = cfg.server_name }))

  -- A POST for an identity draws a user and a key, and the answer holds their text.
  pub get_user_id_reply :
      (w : World P) (user key body text : Str) (g1 g2 : P.Gen)
      → make P cfg.pwd_size w.gen ≡ (user, g1)
      → make_key P g1 ≡ (key, g2)
      → P.dump (Api.user_id_json P cfg user key) ≡ some text
      → (r : Response) × (r.status ≡ success)
        × (r.body ≡ text ++ crlf)
        × (process_request P cfg ret
              (record { method = post; target = codes "/get-user-id"; body = body })
              w
            ≡ (ok r, record w { gen = g2 }))
  unfolding sent process_request handle post_handler get_user_id_handler do_write matches answer
      Api.on_get_user_id Api.draw_string
  get_user_id_reply w user key body text g1 g2 m k d =
      (sent (text ++ crlf), refl, refl, rw m (rw k (rw d refl)))

  pub publish_reply :
      (w v : World P) (j : P.Json) (body ack : Str)
      → P.parse body ≡ some j
      → Api.on_publish_impl P cfg j w ≡ (ok ack, v)
      → (r : Response) × (r.status ≡ success)
        × (r.body ≡ ack ++ crlf)
        × (process_request P cfg ret
              (record { method = post; target = codes "/posts/publish"; body = body })
              w
            ≡ (ok r, v))
  unfolding sent process_request handle post_handler post_publish_handler do_write matches answer
  publish_reply w v j body ack p e = (sent (ack ++ crlf), refl, refl, rw p (rw e refl))
