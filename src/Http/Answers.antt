-- ===== src/Http/Answers.antt =====
-- src/http_session_impl.hpp: whether a request is answered.
use occase.Base.{
  ◌≡◌, ◌≢◌, refl, Bool, true, false, Option, none, some, ℤ, Str, length, if◌then◌else◌,
}
use occase.Platform.{Platform}
use occase.Exec.{
  Exec, Result, ok, thrown, aborted, pure, modify, gets, or_throw, continue, caught, catching,
  ◌>>=◌, ◌>>◌,
}
use occase.Config.{Core}
use occase.Worker.State.{World}
use occase.Worker.Api
use occase.Http.{
  Method, get, post, other, Request, Response, no_response, process_request, handle, get_handler,
  post_handler, stats_handler, post_search_handler, search_key, post_upload_credit_handler,
  post_delete_handler, post_publish_handler, get_user_id_handler, post_visualization_handler,
  do_write, take_credit,
}

-- Code that does not end the process, and code that also does not throw.
pub record Safe {S A : Type 0} (m : Exec S A) : Type 0 where
  pub at : (s : S) → (m s).0 ≢ aborted

pub record Total {S A : Type 0} (m : Exec S A) : Type 0 where
  pub at : (s : S) → (a : A) × ((m s).0 ≡ ok a)

module _ {S A : Type 0} where
  Safe-pure : (a : A) → Safe {S = S} (pure a)
  Safe-pure a = record { at = λ s e. cc }

  Safe-or_throw : (o : Option A) → Safe {S = S} (or_throw o)
  Safe-or_throw none = record { at = λ s e. cc }
  Safe-or_throw (some a) = record { at = λ s e. cc }

  Safe-gets : (f : S → A) → Safe (gets f)
  Safe-gets f = record { at = λ s e. cc }

  Safe-if : (b : Bool) (m n : Exec S A) → Safe m → Safe n → Safe (if b then m else n)
  Safe-if true m n h k = h
  Safe-if false m n h k = k

  Total-pure : (a : A) → Total {S = S} (pure a)
  Total-pure a = record { at = λ s. (a, refl) }

  Total-gets : (f : S → A) → Total (gets f)
  Total-gets f = record { at = λ s. (f s, refl) }

  Total-if : (b : Bool) (m n : Exec S A) → Total m → Total n → Total (if b then m else n)
  Total-if true m n h k = h
  Total-if false m n h k = k

  Total-catching : (a : A) (m : Exec S A) → Safe m → Total (catching a m)
  Total-catching a m h = record { at = λ s. after (m s) (h.at s) }
    where
      after : (r : Result A × S) → r.0 ≢ aborted → (b : A) × ((caught r.0 r.1 a).0 ≡ ok b)
      after (ok b, s) k = (b, refl)
      after (thrown, s) k = (a, refl)
      after (aborted, s) k = absurd (k refl)

pub Safe-modify : {S : Type 0} (f : S → S) → Safe (modify f)
Safe-modify f = record { at = λ s e. cc }

module _ {S A B : Type 0} where
  Safe-bind : (m : Exec S A) (f : A → Exec S B) → Safe m → ((a : A) → Safe (f a)) → Safe (m >>= f)
  Safe-bind m f h k = record { at = λ s. after (m s) (h.at s) }
    where
      after : (r : Result A × S) → r.0 ≢ aborted → (continue r.0 r.1 f).0 ≢ aborted
      after (ok a, s) n = (k a).at s
      after (thrown, s) n = λ e. cc
      after (aborted, s) n = absurd (n refl)

  Safe-seq : (m : Exec S A) (n : Exec S B) → Safe m → Safe n → Safe (m >> n)
  Safe-seq m n h k = Safe-bind m (λ a. n) h (λ a. k)

ruleset safe_rules =
    (Safe-pure, Safe-or_throw, Safe-gets, Safe-if, Safe-modify, Safe-bind, Safe-seq)

module _ (P : Platform) (cfg : Core) (ret : ℤ) where
  Safe-draw_string : (f : P.Gen → Str × P.Gen) → Safe (Api.draw_string P cfg f)
  unfolding Api.draw_string
  Safe-draw_string f = record { at = λ s e. cc }

  Safe-take_credit : Safe (take_credit P cfg ret)
  unfolding take_credit
  Safe-take_credit = record { at = λ s e. cc }

  Safe-delete_post : (user key id : Str) → Safe (Api.delete_post P cfg user key id)
  unfolding Api.delete_post Api.delete_found
  Safe-delete_post user key id = search safe_rules depth 16

  Safe-on_publish_impl : (j : P.Json) → Safe (Api.on_publish_impl P cfg j)
  unfolding Api.on_publish_impl Api.publish_post
  Safe-on_publish_impl j = search (safe_rules, Safe-draw_string) depth 24

  Safe-on_get_user_id : Safe (Api.on_get_user_id P cfg)
  unfolding Api.on_get_user_id
  Safe-on_get_user_id = search (safe_rules, Safe-draw_string) depth 16

  Safe-on_visualization : (msg : Str) → Safe (Api.on_visualization P cfg msg)
  unfolding Api.on_visualization
  Safe-on_visualization msg = search safe_rules depth 16

  Safe-search_key : (body : Str) → Safe (search_key P cfg ret body)
  unfolding search_key
  Safe-search_key body = search safe_rules depth 16

  ruleset total_rules = (
    safe_rules, Total-pure, Total-gets, Total-if, Total-catching, Safe-take_credit,
    Safe-delete_post, Safe-on_publish_impl, Safe-on_get_user_id, Safe-on_visualization,
    Safe-search_key,
  )

  Total-post_search_handler :
      (b : Bool) (req : Request) (r : Response) → Total (post_search_handler P cfg ret b req r)
  unfolding post_search_handler
  Total-post_search_handler b req r = search total_rules depth 24

  Total-post_upload_credit_handler : (r : Response) → Total (post_upload_credit_handler P cfg ret r)
  unfolding post_upload_credit_handler
  Total-post_upload_credit_handler r = search total_rules depth 16

  Total-post_delete_handler :
      (req : Request) (r : Response) → Total (post_delete_handler P cfg ret req r)
  unfolding post_delete_handler
  Total-post_delete_handler req r = search total_rules depth 24

  Total-post_publish_handler :
      (req : Request) (r : Response) → Total (post_publish_handler P cfg ret req r)
  unfolding post_publish_handler
  Total-post_publish_handler req r = search total_rules depth 16

  Total-get_user_id_handler : (r : Response) → Total (get_user_id_handler P cfg ret r)
  unfolding get_user_id_handler
  Total-get_user_id_handler r = search total_rules depth 16

  Total-post_visualization_handler :
      (req : Request) (r : Response) → Total (post_visualization_handler P cfg ret req r)
  unfolding post_visualization_handler
  Total-post_visualization_handler req r = search total_rules depth 16

  ruleset handler_rules = (
    Total-post_search_handler, Total-post_upload_credit_handler, Total-post_delete_handler,
    Total-post_publish_handler, Total-get_user_id_handler, Total-post_visualization_handler,
  )

  Total-post_handler : (req : Request) (r : Response) → Total (post_handler P cfg ret req r)
  unfolding post_handler
  Total-post_handler req r = search (Total-if, Total-pure, handler_rules) depth 24

  Total-get_handler : (req : Request) (r : Response) → Total (get_handler P cfg ret req r)
  unfolding get_handler stats_handler
  Total-get_handler req r = search (Total-if, Total-pure, Total-gets) depth 16

  Total-handle : (m : Method) (req : Request) (r : Response) → Total (handle P cfg ret m req r)
  unfolding handle
  Total-handle get req r = Total-get_handler req r
  Total-handle post req r = Total-post_handler req r
  Total-handle (other name) req r = Total-pure _

  finished :
      (x : Result Response × World P) (a : Response)
      → x.0 ≡ ok a
      → continue x.0 x.1 (λ r. pure (do_write P cfg ret r)) ≡ (ok (do_write P cfg ret a), x.1)
  finished x a e = rw e refl

-- Every request is answered: the handling of a request neither throws nor ends the process, and the
-- answer has the length of its body and the configured origin.
pub process_request_answers :
    (P : Platform) (cfg : Core) (ret : ℤ) (req : Request) (w : World P)
    → (r : Response) × (v : World P) × (process_request P cfg ret req w ≡ (ok r, v))
      × (r.content_length ≡ length r.body)
      × (r.allow_origin ≡ cfg.http_allow_origin)
unfolding process_request do_write
process_request_answers P cfg ret req w =
    let (r, e) = (Total-handle P cfg ret req.method req no_response).at w in
    let x = handle P cfg ret req.method req no_response w in
    (do_write P cfg ret r, x.1, finished P cfg ret x r e, refl, refl)
