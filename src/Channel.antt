-- ===== src/Channel.antt =====
-- src/channel.hpp, src/channel.cpp: the posts of a node, sorted by id. An iterator into the vector
-- is its index; the algorithms of <algorithm> are those of a partitioned range.
pub mod Tests
pub mod Order
pub mod Unique
pub mod Lookup
pub mod Removal
pub mod Query
pub mod Visualizations
pub mod Run
use occase.Base.{
  ℕ, suc, Bool, true, false, not, ◌||◌, List, [], ◌∷◌, ◌++◌, ℤ, inc, int_eq, Str, str_eq, str_ltb,
  length, take, drop, ltb, ◌==◌, if◌then◌else◌,
}
use occase.Post.{Post, empty_post}

pub record Channel : Type 0 where
  pub posts : List Post

-- `std::lower_bound` and `std::upper_bound` under `comp_post_id_less`.
lower_bound : Str → List Post → ℕ
lower_bound id [] = 0
lower_bound id (p ∷ ps) = if str_ltb p.id id then suc (lower_bound id ps) else 0

upper_bound : Str → List Post → ℕ
upper_bound id [] = 0
upper_bound id (p ∷ ps) = if str_ltb id p.id then 0 else suc (upper_bound id ps)

-- `std::rotate(begin + first, begin + middle, end)`
rotate {ℓ} : {A : Type ℓ} → ℕ → ℕ → List A → List A
rotate first middle xs = take first xs ++ drop middle xs ++ drop first (take middle xs)

-- `*point`, or `{}` at the end.
abbrev post_at : List Post → Post
post_at [] = empty_post
post_at (p ∷ ps) = p

pub get : Channel → Str → Post
get c id = post_at (drop (lower_bound id c.posts) c.posts)

pub add_post : Channel → Post → Channel
unfolding rotate
add_post c p = record {
  posts = rotate (upper_bound p.id c.posts) (length c.posts) (c.posts ++ p ∷ []);
}

-- The body returns an empty vector, whatever the posts are.
unfoldable pub remove_expired_posts : Channel → ℤ → ℤ → List Post × Channel
remove_expired_posts c now exp = ([], c)

visualize : Str → List Post → List Post
visualize post_id [] = []
visualize post_id (p ∷ ps) =
    if str_eq p.id post_id
    then record p { visualizations = inc p.visualizations } ∷ ps
    else p ∷ visualize post_id ps

pub on_visualization : Channel → Str → Channel
unfolding visualize
on_visualization c post_id = record { posts = visualize post_id c.posts }

-- The first post with the id, and the posts without it.
find_post : Str → List Post → List Post × List Post
find_post id [] = ([], [])
find_post id (p ∷ ps) =
    let (before, found) = find_post id ps in
    if str_eq p.id id then ([], p ∷ ps) else (p ∷ before, found)

erase_at : List Post → List Post → Str → Bool → Bool × List Post
erase_at before [] from ignore_owner = (false, before)
erase_at before (p ∷ after) from ignore_owner =
    if str_eq p.from from || ignore_owner
    then (true, before ++ after)
    else (false, before ++ p ∷ after)

pub remove_post : Channel → Str → Str → Bool → Bool × Channel
unfolding find_post erase_at
remove_post c id from ignore_owner =
    let (before, found) = find_post id c.posts in
    let (done, posts) = erase_at before found from ignore_owner in (done, record { posts = posts })

-- The loop of `is_child_of`: the final value of `i`.
agreement : List ℤ → List ℤ → ℕ
agreement code [] = 0
agreement [] (w ∷ wanted) = 0
agreement (c ∷ code) (w ∷ wanted) = if int_eq w c then suc (agreement code wanted) else 0

pub is_child_of : List ℤ → List ℤ → Bool
unfolding agreement
is_child_of code wanted =
    if ltb (length code) (length wanted) then false else agreement code wanted == length wanted

-- The receiver is a step on the state that its closure captures.
pub filter {ℓ} : {S : Type ℓ} → Post → Post → (Post → S → S) → S → S
filter p q recv s =
    if not (is_child_of p.location q.location)
    then s
    else if not (is_child_of p.product q.product)
    then s
    else recv p s

-- `std::for_each`, over the state that the closure captures.
for_each {ℓ κ} : {A : Type ℓ} {S : Type κ} → (A → S → S) → List A → S → S
for_each f [] s = s
for_each f (x ∷ xs) s = for_each f xs (f x s)

pub query : Channel → Post → ℤ → List Post
unfolding for_each filter
query c q max = for_each (λ p. filter p q (λ r ret. ret ++ r ∷ [])) c.posts []

-- `int ret;` has no initializer: its indeterminate value is the argument `ret`.
pub count : ℤ → Channel → Post → ℤ
unfolding for_each filter
count ret c q = for_each (λ p. filter p q (λ r n. inc n)) c.posts ret

load : List (Str × ℤ) → List Post → List Post
load [] ps = ps
load (v ∷ vs) [] = []
load ((id, n) ∷ vs) (p ∷ ps) =
    let hit = load vs ps in
    let miss = load vs (p ∷ ps) in
    if str_eq id p.id then record p { visualizations = n } ∷ hit else miss

pub load_visualizations : Channel → List (Str × ℤ) → Channel
unfolding load
load_visualizations c v = record { posts = load v c.posts }
