-- ===== src/Http/Search.antt =====
-- src/http_session_impl.hpp: the answers to searches, against the posts of the node.
use occase.Base.{
  ◌≡◌, refl, ◌↔◌, false, [], ◌∷◌, ◌++◌, map, some, ℤ, add_ℕ, Str, codes, is_empty, length,
}
use mathlib.Core.List.{Memᴰ}
use occase.Platform.{Platform, object}
use occase.Exec.{ok}
use occase.Config.{Core}
use occase.Post.{Post}
use occase.Post.Json.{to_json, from_json}
use occase.Channel.Query.{select, select_iff, query-select, count-query, Extends}
use occase.Worker.State.{World}
use occase.Worker.Api
use occase.Http.Routes.{sent}
use occase.Http.{
  Response, post, crlf, int_to_string, process_request, handle, post_handler, post_search_handler,
  search_key, do_write, matches, answer,
}

module _ (P : Platform) (cfg : Core) (ret : ℤ) where
  -- A POST for a search and one for a count, whose body holds a post to search for, where the answer
  -- can be written: the first is answered with the posts of the node whose location and product
  -- continue the wanted ones, all of them and in the order of the node; the second with their number
  -- added to the value that the counting variable starts with; and the node is as before.
  pub search_answers :
      (w : World P) (body text : Str) (j field : P.Json) (q : Post)
      → is_empty body ≡ false
      → P.parse body ≡ some j
      → P.at j (codes "post") ≡ some field
      → from_json P field ≡ some q
      → P.dump
          (object P ((codes "posts", P.of_list (map (to_json P) (select q w.posts.posts))) ∷ []))
        ≡ some text
      → ((r : Response) × (r.body ≡ text ++ crlf)
          × (process_request P cfg ret
                (record { method = post; target = codes "/posts/search"; body = body })
                w
              ≡ (ok r, w)))
        × ((r : Response) × (r.body
              ≡ int_to_string (add_ℕ ret (length (select q w.posts.posts))) ++ crlf)
            × (process_request P cfg ret
                  (record { method = post; target = codes "/posts/count"; body = body })
                  w
                ≡ (ok r, w)))
        × ((p : Post)
            → Memᴰ p (select q w.posts.posts) ↔ (
                Memᴰ p w.posts.posts × Extends p.location q.location × Extends p.product q.product))
  unfolding sent process_request handle post_handler post_search_handler search_key do_write matches
      answer Api.search_posts Api.count_posts
  search_answers w body text j field q e p a f d = (
    (
      sent P cfg ret (text ++ crlf),
      refl,
      rw e (rw p (rw a (rw f (rw (query-select w.posts q cfg.max_posts_on_search) (rw d refl))))),
    ),
    (
      sent P cfg ret (int_to_string (add_ℕ ret (length (select q w.posts.posts))) ++ crlf),
      refl,
      rw e (
          rw p (
            rw a (
              rw f (
                rw
                  (
                    count-query ret cfg.max_posts_on_search w.posts q,
                    query-select w.posts q cfg.max_posts_on_search,
                  )
                  refl)))),
    ),
    λ x. select_iff x q w.posts.posts,
  )
