-- ===== src/Worker/Loading.antt =====
-- src/worker.cpp: the loading of the stored posts by a node that is connected to the database.
use occase.Base.{◌≡◌, refl, List, [], ◌∷◌, ◌++◌, map, none, some, Str}
use mathlib.Core.List.{Perm, perm_middle}
use mathlib.Core.List.Perm
use occase.Platform.{Platform}
use occase.Exec.{ok}
use occase.Config.{Core}
use occase.Post.{Post, strip_query}
use occase.Post.Json.{IsRepresentable}
use occase.Channel.{remove_expired_posts}
use occase.Channel.Order.{IsSorted, insert_Perm, add_post-insert, add_post-IsSorted}
use occase.Worker.State.{World, hgetall, send_redis, with_posts}
use occase.Worker.Api.{publish_json}
use occase.Worker.Db.{on_db_channel_post, on_hvals, post_each}
use occase.Worker.Publishing.{received, receive}

-- The texts that nodes stored for posts, and texts that are not JSON.
pub data Stored (P : Platform) (cfg : Core) : List Str → List Post → Type 0 where
  end : Stored P cfg [] []
  written :
      {m : Str} {ms : List Str} {p : Post} {ps : List Post}
      → IsRepresentable p
      → P.dump (publish_json P cfg p) ≡ some m
      → Stored P cfg ms ps
      → Stored P cfg (m ∷ ms) (p ∷ ps)
  unreadable :
      {m : Str} {ms : List Str} {ps : List Post}
      → P.parse m ≡ none
      → Stored P cfg ms ps
      → Stored P cfg (m ∷ ms) ps

abbrev pub without_queries : Post → Post
without_queries p = record p { images = map strip_query p.images }

module _ {P : Platform} (cfg : Core) where
  pub skipped :
      (m : Str) (w : World P) → P.parse m ≡ none → on_db_channel_post P cfg m w ≡ (ok tt, w)
  unfolding on_db_channel_post
  skipped m w e = rw e refl

  -- The posts of a node after the loading: those that it had and those stored.
  pub record Loaded (ps : List Post) (w v : World P) : Type 0 where
    pub all : Perm v.posts.posts (map without_queries ps ++ w.posts.posts)
    pub sorted : IsSorted w.posts → IsSorted v.posts
    pub rest : v ≡ record w { posts = v.posts }

  Loaded-none : (w : World P) → Loaded [] w w
  Loaded-none w = record { all = Perm.rfl; sorted = λ h. h; rest = refl }

  Loaded-one :
      (p : Post) (ps : List Post) (w v : World P)
      → Loaded ps (received cfg p w) v
      → Loaded (p ∷ ps) w v
  unfolding received with_posts remove_expired_posts
  Loaded-one p ps w v h = record {
    all = Perm.trans h.all (
        Perm.trans
          (Perm.append_left (map without_queries ps)
            (rw add_post-insert (insert_Perm (without_queries p) w.posts.posts)))
          (perm_middle (map without_queries ps) w.posts.posts));
    sorted = λ s. h.sorted (add_post-IsSorted w.posts (without_queries p) s);
    rest = h.rest;
  }

  pub post_each-Loaded :
      (ms : List Str) (ps : List Post) (w : World P)
      → Stored P cfg ms ps
      → (v : World P) × (post_each P cfg ms w ≡ (ok tt, v)) × Loaded ps w v
  unfolding post_each
  post_each-Loaded [] ps w end = (w, refl, Loaded-none w)
  post_each-Loaded (m ∷ ms) (p ∷ ps) w (written r e s) =
      let (v, run, h) = post_each-Loaded ms ps (received cfg p w) s in
      (v, rw (receive cfg p m w r e) run, Loaded-one p ps w v h)
  post_each-Loaded (m ∷ ms) ps w (unreadable e s) =
      let (v, run, h) = post_each-Loaded ms ps w s in (v, rw (skipped m w e) run, h)

  -- When a node loads the posts stored in the database, among which texts that are not JSON may
  -- stand: the handler returns, and the posts of the node are then, up to their order, those that it
  -- had and those stored, with the queries of their images removed, each as often as it was stored;
  -- if they were in the order of their ids, they still are; nothing else of the node changes, and it
  -- asks for the visualizations.
  pub hvals_loads :
      (ms : List Str) (ps : List Post) (w : World P)
      → Stored P cfg ms ps
      → (v : World P) × (on_hvals P cfg ms w
          ≡ (ok tt, send_redis (hgetall cfg.redis.post_visualizations_key ∷ []) v))
        × Loaded ps w v
  unfolding on_hvals
  hvals_loads ms ps w s = let (v, run, h) = post_each-Loaded ms ps w s in (v, rw run refl, h)
