-- ===== src/Channel/Tests.antt =====
-- src/occase-db-tests.cpp (channel_tests): the unit tests of the channel, as the list of the outcomes
-- of their checks.
use occase.Base.{
  ◌≡◌, refl, Bool, true, false, ◌&&◌, List, [], ◌∷◌, ◌==◌, ℤ, pos, int_eq, Str, codes, length,
}
use occase.Post.{Post, empty_post}
use occase.Channel.{
  Channel, add_post, query, load_visualizations, upper_bound, rotate, for_each, filter, is_child_of,
  agreement, load,
}

abbrev ints_eq : List ℤ → List ℤ → Bool
ints_eq [] [] = true
ints_eq [] (y ∷ ys) = false
ints_eq (x ∷ xs) [] = false
ints_eq (x ∷ xs) (y ∷ ys) = int_eq x y && ints_eq xs ys

-- `r.front()` of a result that is not empty.
abbrev front : List Post → Post
front [] = empty_post
front (p ∷ ps) = p

abbrev empty_channel : Channel
empty_channel = record { posts = [] }

-- "query location and product"
pub query_test : List Bool
query_test =
    let p1 : Post = record empty_post {
      location = pos 1 ∷ pos 2 ∷ pos 3 ∷ [];
      product = pos 1 ∷ pos 2 ∷ pos 3 ∷ [];
    } in
    let p2 : Post = record empty_post {
      location = pos 1 ∷ pos 3 ∷ pos 3 ∷ [];
      product = pos 1 ∷ pos 3 ∷ pos 3 ∷ [];
    } in
    let chn = add_post (add_post empty_channel p1) p2 in
    let r = query chn p1 (pos 300) in (length r == 1) ∷ ints_eq (front r).location p1.location ∷ []

-- A post of the second test.
abbrev numbered : Str → ℤ → Post
numbered id place = record empty_post { id = id; location = place ∷ [] }

-- "Visualizations"
pub visualizations_test : List Bool
visualizations_test =
    let p1 = numbered (codes "1") (pos 1) in
    let p2 = numbered (codes "2") (pos 2) in
    let p3 = numbered (codes "3") (pos 3) in
    let v = (codes "1", pos 10) ∷ (codes "3", pos 10) ∷ [] in
    let chn = add_post (add_post (add_post empty_channel p1) p2) p3 in
    let loaded = load_visualizations chn v in
    let r1 = query loaded p1 (pos 300) in
    let r2 = query loaded p2 (pos 300) in
    let r3 = query loaded p3 (pos 300) in
    (length r1 == 1)
    ∷ int_eq (front r1).visualizations (pos 10)
    ∷ (length r2 == 1)
    ∷ int_eq (front r2).visualizations (pos 0)
    ∷ (length r3 == 1)
    ∷ int_eq (front r3).visualizations (pos 0)
    ∷ []

query_test_passes : query_test ≡ true ∷ true ∷ []
unfolding query_test add_post upper_bound rotate query for_each filter is_child_of agreement
query_test_passes = refl

-- The third post keeps 0 although there is a count for it.
visualizations_test_passes : visualizations_test ≡ true ∷ true ∷ true ∷ true ∷ true ∷ true ∷ []
unfolding visualizations_test add_post upper_bound rotate query for_each filter is_child_of
    agreement load_visualizations load
visualizations_test_passes = refl
