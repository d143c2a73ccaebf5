-- ===== src/Examples/Board.antt =====
-- The channel, the post, the digests and the session on concrete states.
use occase.Base.{
  ◌==◌, if◌then◌else◌, ◌≡◌, ◌≢◌, refl, true, false, List, [], ◌∷◌, ◌++◌, map, none, some, pos, Str,
  codes, str_ltb, All, arith, length,
}
use occase.Examples.Toy.{toy}
use occase.Post.{Post, empty_post, strip_query}
use occase.Post.Json.{to_json, from_json, IsRepresentable, from_json-to_json}
use occase.Channel.{Channel, add_post, remove_post, get}
use occase.Channel.Order.{IsSorted, add_post_position}
use occase.Channel.Removal.{Removed, remove_post-Removed}
use occase.Channel.Lookup.{find_id, get-find_id}
use occase.Channel.Run
use occase.Crypto.{hash_to_string, make, rounds, sep}
use occase.Crypto.Hex.{from_hex, from_hex-hash_to_string}
use occase.Crypto.Random.{IsPwdChar, make_chars}
use occase.Session.{Session, fresh, enqueue, on_write, set_pub_hash}
use occase.Examples.Nodes.{online}
use occase.Worker.State.{World}
use occase.Session.Queue

abbrev offer : Str → Post
offer id = record empty_post {
  id = id;
  from = codes "f";
  location = pos 1 ∷ pos 2 ∷ [];
  product = pos 3 ∷ [];
  images = codes "i?x" ∷ [];
}

abbrev board : Channel
board = record { posts = offer (codes "a") ∷ offer (codes "c") ∷ [] }

board-IsSorted : IsSorted board
board-IsSorted = ((refl, tt), (tt, tt))

add_post_position_example :
    (l r : List Post) × (board.posts ≡ l ++ r)
    × ((add_post board (offer (codes "b"))).posts ≡ l ++ offer (codes "b") ∷ r)
    × All (λ (q : Post). str_ltb (codes "b") q.id ≡ false) l
    × All (λ (q : Post). str_ltb (codes "b") q.id ≡ true) r
add_post_position_example = add_post_position board (offer (codes "b")) board-IsSorted

abbrev calls : List Run.Call
calls =
    Run.adds (offer (codes "b"))
    ∷ Run.visualizes (codes "a")
    ∷ Run.removes (codes "c") (codes "f") false
    ∷ []

run-IsSorted_example : IsSorted (Run.run board calls)
run-IsSorted_example = Run.run-IsSorted board calls board-IsSorted

remove_post-Removed_example :
    Removed board
      (codes "a")
      (codes "other")
      false
      (remove_post board (codes "a") (codes "other") false)
remove_post-Removed_example = remove_post-Removed board (codes "a") (codes "other") false

find_a : find_id (codes "a") board.posts ≡ some (offer (codes "a"))
unfolding find_id
find_a = refl

find_b : find_id (codes "b") board.posts ≡ none
unfolding find_id
find_b = refl

get-find_id_example : get board (codes "a") ≡ offer (codes "a")
get-find_id_example = get-find_id board (codes "a") (offer (codes "a")) board-IsSorted find_a

offer-IsRepresentable : IsRepresentable (offer (codes "a"))
offer-IsRepresentable = record {
  date = omega arith;
  visualizations = omega arith;
  location = (omega arith, (omega arith, tt));
  product = (omega arith, tt);
  ex_details = tt;
  in_details = tt;
  range_values = tt;
}

from_json-to_json_example :
    from_json toy (to_json toy (offer (codes "a")))
    ≡ some (record (offer (codes "a")) { images = map strip_query (codes "i?x" ∷ []) })
from_json-to_json_example = from_json-to_json toy (offer (codes "a")) offer-IsRepresentable

from_hex-hash_to_string_example : from_hex (hash_to_string (171 ∷ 5 ∷ [])) ≡ 171 ∷ 5 ∷ []
from_hex-hash_to_string_example =
    from_hex-hash_to_string (171 ∷ 5 ∷ []) (omega arith, (omega arith, tt))

make_chars_example :
    (length (make toy (pos 3) 34).0 ≡ rounds (pos 3))
    × All IsPwdChar (make toy (pos 3) 34).0
    × All (λ c. (c ≢ sep) × (c ≢ 0)) (make toy (pos 3) 34).0
make_chars_example = make_chars toy (pos 3) 34

-- Two messages are queued, and the first one is written.
abbrev events : List Queue.Event
events = Queue.written false ∷ Queue.sent (codes "two") true ∷ Queue.sent (codes "one") true ∷ []

abbrev after : Session
after = on_write false (enqueue (codes "two") true (enqueue (codes "one") true fresh))

-- The session is one of "bo", who has an entry, and ends with its second message.
abbrev bo : Session
bo = set_pub_hash (codes "bo") after

abbrev leaving : World toy
leaving = record online {
  sessions = (codes "bo", 3) ∷ [];
  heap = λ p. if p == 3 then bo else fresh;
}
