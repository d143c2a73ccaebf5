-- ===== src/Worker/Replicas.antt =====
-- src/worker.cpp: two nodes with the same publications, one of which was running when they were made
-- and one that loads them from the database.
use occase.Base.{
  ◌≡◌, refl, ap, ◌∙◌, false, List, [], ◌∷◌, map, Str, ℤ, codes, str_eq, All, append-nil,
  starts_with, str_eq_refl,
}
use mathlib.Core.List.{Perm}
use mathlib.Core.List.Perm
use occase.Platform.{Platform}
use occase.Exec.{Exec, ok, pure, ◌>>◌}
use occase.Config.{Core}
use occase.Post.{Post}
use occase.Channel.{query}
use occase.Channel.Order.{IsSorted}
use occase.Channel.Unique.{Identified, Identified-perm, sorted_unique}
use occase.Worker.State.{World, hgetall, send_redis}
use occase.Worker.Db.{on_db_channel_post, on_hvals, on_push, post_each}
use occase.Worker.Publishing.{received, receive}
use occase.Worker.Loading.{
  Stored, end, written, unreadable, without_queries, Loaded, skipped, post_each-Loaded, hvals_loads,
}

module _ {P : Platform} (cfg : Core) where
  -- The node is told of each publication on the channel of posts.
  pub announce_each : List Str → Exec (World P) (Unit {0})
  announce_each [] = pure tt
  announce_each (m ∷ ms) = do
    on_push P cfg (codes "message" ∷ cfg.redis.posts_channel_key ∷ m ∷ [])
    announce_each ms

  announced :
      (m : Str) (v w : World P)
      → str_eq m (codes "rpush") ≡ false
      → starts_with cfg.redis.posts_channel_key cfg.redis.presence_channel_prefix ≡ false
      → on_db_channel_post P cfg m w ≡ (ok tt, v)
      → on_push P cfg (codes "message" ∷ cfg.redis.posts_channel_key ∷ m ∷ []) w ≡ (ok tt, v)
  unfolding on_push
  announced m v w n s e = rw (n, s, str_eq_refl cfg.redis.posts_channel_key) (rw e refl)

  announce_each-post_each :
      (ms : List Str) (ps : List Post) (w : World P)
      → Stored P cfg ms ps
      → All (λ m. str_eq m (codes "rpush") ≡ false) ms
      → starts_with cfg.redis.posts_channel_key cfg.redis.presence_channel_prefix ≡ false
      → announce_each ms w ≡ post_each P cfg ms w
  unfolding announce_each post_each
  announce_each-post_each [] ps w end n s = refl
  announce_each-post_each (m ∷ ms) (p ∷ ps) w (written r e t) n s =
      let step = receive cfg p m w r e in
      rw (announced m _ w n.0 s step)
        (rw step (announce_each-post_each ms ps (received cfg p w) t n.1 s))
  announce_each-post_each (m ∷ ms) ps w (unreadable e t) n s =
      let step = skipped cfg m w e in
      rw (announced m _ w n.0 s step) (rw step (announce_each-post_each ms ps w t n.1 s))

  from_empty :
      (ps : List Post) (w v : World P)
      → w.posts.posts ≡ []
      → Loaded cfg ps w v
      → Perm v.posts.posts (map without_queries ps) × IsSorted v.posts
  from_empty ps w v e h = (rw (e, append-nil (map without_queries ps)) at h.all, h.sorted (rw e tt))

  -- One node is told of publications, one after another; another node starts later and loads the same
  -- publications as the database keeps them, in whatever order; both had no posts; posts with the
  -- same id are the same, no publication is the text "rpush", and the channel of posts does not begin
  -- like those of presence. Then both return, hold the very same posts in the same order, and answer
  -- every query alike; nothing else of the first node changes, and of the second only what is
  -- asked of the database.
  pub nodes_agree :
      (ms ms' : List Str) (ps ps' : List Post) (w w' : World P)
      → Stored P cfg ms ps
      → Stored P cfg ms' ps'
      → Perm ps ps'
      → All (λ m. str_eq m (codes "rpush") ≡ false) ms
      → starts_with cfg.redis.posts_channel_key cfg.redis.presence_channel_prefix ≡ false
      → w.posts.posts ≡ []
      → w'.posts.posts ≡ []
      → Identified (map without_queries ps)
      → (v : World P) × (v' : World P) × (announce_each ms w ≡ (ok tt, v))
        × (on_hvals P cfg ms' w'
            ≡ (ok tt, send_redis (hgetall cfg.redis.post_visualizations_key ∷ []) v'))
        × (v.posts ≡ v'.posts)
        × ((q : Post) (max : ℤ) → query v.posts q max ≡ query v'.posts q max)
        × (v ≡ record w { posts = v.posts })
        × (v' ≡ record w' { posts = v'.posts })
  nodes_agree ms ms' ps ps' w w' s s' same n k e e' i =
      let (v, run, h) = post_each-Loaded cfg ms ps w s in
      let (v', load, h') = hvals_loads cfg ms' ps' w' s' in
      let (all, sorted) = from_empty ps w v e h in
      let (all', sorted') = from_empty ps' w' v' e' h' in
      let posts : v.posts.posts ≡ v'.posts.posts =
        sorted_unique v.posts.posts v'.posts.posts sorted sorted'
          (Perm.trans all (Perm.trans (Perm.map without_queries same) (Perm.symm all')))
          (Identified-perm all i) in
      let channels : v.posts ≡ v'.posts = ap (λ l. record { posts = l }) posts in
      (
        v,
        v',
        announce_each-post_each ms ps w s n k ∙ run,
        load,
        channels,
        (λ q max. ap (λ c. query c q max) channels),
        h.rest,
        h'.rest,
      )
