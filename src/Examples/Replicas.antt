-- ===== src/Examples/Replicas.antt =====
-- Two nodes with the same publications in two orders, and the open sessions of a node.
use occase.Base.{
  ℕ, ◌≡◌, refl, false, [], ◌∷◌, ◌++◌, List, some, ℤ, pos, length, codes, Str, str_eq, arith,
}
use mathlib.Core.List.Perm
use occase.Examples.Toy.{toy, write}
use occase.Examples.Nodes.{cfg, idle, events, login}
use occase.Worker.Events.{Event, read, pong, run, init}
use occase.Worker.Counting.{tally}
use occase.Worker.Counting.Open.{Opened, opens, ends, stays, nothing, run-Open}
use occase.Exec.{ok}
use occase.Platform.{object}
use occase.Post.{Post, empty_post}
use occase.Post.Json.{IsRepresentable}
use occase.Channel.{query}
use occase.Channel.Unique.{Distinct-Identified}
use occase.Worker.State.{World, hgetall, send_redis}
use occase.Worker.Api.{publish_json}
use occase.Worker.Db.{on_hvals}
use occase.Worker.Loading.{written, end}
use occase.Worker.Replicas.{announce_each, nodes_agree}

abbrev named : Str → Post
named id = record empty_post { id = id }

named-IsRepresentable : (id : Str) → IsRepresentable (named id)
named-IsRepresentable id = record {
  date = omega arith;
  visualizations = omega arith;
  location = tt;
  product = tt;
  ex_details = tt;
  in_details = tt;
  range_values = tt;
}

abbrev published : Post
published = named (codes "a")

abbrev other : Post
other = named (codes "b")

abbrev text_of : Post → Str
text_of p = write (publish_json toy cfg p)

not_rpush :
    (str_eq (text_of published) (codes "rpush") ≡ false)
    × (str_eq (text_of other) (codes "rpush") ≡ false)
    × Unit {0}
unfolding publish_json object
not_rpush = (refl, refl, tt)

nodes_agree_example :
    (v : World toy) × (v' : World toy) × (announce_each cfg
        (text_of published ∷ text_of other ∷ [])
        idle
      ≡ (ok tt, v))
    × (on_hvals toy cfg (text_of other ∷ text_of published ∷ []) idle
        ≡ (ok tt, send_redis (hgetall (codes "post_visualizations") ∷ []) v'))
    × (v.posts ≡ v'.posts)
    × ((q : Post) (max : ℤ) → query v.posts q max ≡ query v'.posts q max)
    × (v ≡ record idle { posts = v.posts })
    × (v' ≡ record idle { posts = v'.posts })
nodes_agree_example =
    nodes_agree cfg (text_of published ∷ text_of other ∷ [])
      (text_of other ∷ text_of published ∷ []) (published ∷ other ∷ []) (other ∷ published ∷ [])
      idle idle
      (written (named-IsRepresentable (codes "a")) refl
        (written (named-IsRepresentable (codes "b")) refl end))
      (written (named-IsRepresentable (codes "b")) refl
        (written (named-IsRepresentable (codes "a")) refl end))
      (Perm.swap other published []) (not_rpush.0, (not_rpush.1, tt)) refl refl refl
      (Distinct-Identified _ ((refl, tt), (tt, tt)))

-- Session 4 is the only one that is open after the events.
events-Opened : Opened [] events (4 ∷ [])
unfolding tally
events-Opened = opens 3 (
    stays (read 3 (some login)) (λ n. refl)
      (opens 4 (
        stays (read 4 (some login)) (λ n. refl)
          (stays (pong 3) (λ n. refl) (ends (4 ∷ []) [] 3 refl nothing)))))

run-Open_example :
    let (r, w) = run toy cfg events (init toy cfg (pos 5) 0) in
    (handled : List Event) × (rest : List Event) × (o : List ℕ) × (events ≡ handled ++ rest)
    × Opened [] handled o
    × (w.number_of_sessions ≡ pos (length o))
    × (r ≡ ok tt → rest ≡ [])
run-Open_example = run-Open toy cfg (pos 5) 0 events (4 ∷ []) events-Opened
