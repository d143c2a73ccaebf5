-- ===== src/Http/Errors.antt =====
-- src/http_session_impl.hpp: requests that fail.
use occase.Base.{◌≡◌, refl, Bool, true, false, none, ℤ, codes, is_empty, if◌then◌else◌}
use occase.Platform.{Platform}
use occase.Exec.{Exec, Result, ok}
use occase.Config.{Core}
use occase.Worker.State.{World}
use occase.Worker.Api
use occase.Http.{
  Request, Response, success, matches, set_not_fount_header, search_key, post_search_handler,
  post_delete_handler, post_publish_handler, post_visualization_handler, post_handler,
}

if_both :
    {S A : Type 0} (b : Bool) (m n : Exec S A) (w : S) (z : Result A × S)
    → m w ≡ z
    → n w ≡ z
    → (if b then m else n) w ≡ z
if_both true m n w z h k = h
if_both false m n w z h k = k

module _ {P : Platform} (cfg : Core) (ret : ℤ) where
  search_fails :
      (only_count : Bool) (req : Request) (r : Response) (w : World P)
      → P.parse req.body ≡ none
      → is_empty req.body ≡ false
      → post_search_handler P cfg ret only_count req r w ≡ (ok (set_not_fount_header r), w)
  unfolding post_search_handler search_key
  search_fails only_count req r w p e = rw e (rw p refl)

  -- A POST request with a body that is not JSON and not empty, whatever its target but those of the
  -- two handlers that do not read the body: the answer is the one for a file that is not found, and
  -- the node is as before.
  pub malformed_body :
      (req : Request) (r : Response) (w : World P)
      → P.parse req.body ≡ none
      → is_empty req.body ≡ false
      → matches req.target (codes "/posts/upload-credit") ≡ false
      → matches req.target (codes "/get-user-id") ≡ false
      → post_handler P cfg ret req r w
        ≡ (ok (set_not_fount_header (record r { status = success; server = cfg.server_name })), w)
  unfolding post_handler post_delete_handler post_publish_handler post_visualization_handler
      Api.on_visualization
  malformed_body req r w p e u g =
      let reply : Response = record r { status = success; server = cfg.server_name } in
      rw u (
        rw g (
          if_both (matches req.target (codes "/posts/count")) _ _ w _
            (search_fails true req reply w p e)
            (if_both (matches req.target (codes "/posts/visualization")) _ _ w _ (rw p refl) (
              if_both (matches req.target (codes "/posts/search")) _ _ w _
                (search_fails false req reply w p e)
                (if_both (matches req.target (codes "/posts/delete")) _ _ w _ (rw p refl) (
                  if_both (matches req.target (codes "/posts/publish")) _ _ w _ (rw p refl)
                    refl))))))
