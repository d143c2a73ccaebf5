-- ===== src/Channel/Removal.antt =====
-- src/channel.cpp, `channel::remove_post` and `channel::remove_expired_posts`.
use occase.Base.{
  Bool, true, false, ◌≡◌, refl, ap, ◌⊎◌, inl, inr, List, [], ◌∷◌, ◌++◌, Str, str_eq, All,
  Bool-cases, eq_of_str_eq, ne_of_str_eq, ◌≢◌,
}
use occase.Post.{Post}
use occase.Channel.{Channel, find_post, erase_at, remove_post}

-- What `find_if` finds: nothing, or the first post with the id.
abbrev Found : Str → List Post → List Post × List Post → Type 0
Found id ps (before, []) = (ps ≡ before) × All (λ (q : Post). str_eq q.id id ≡ false) ps
Found id ps (before, p ∷ after) =
    (ps ≡ before ++ p ∷ after) × (p.id ≡ id) × All (λ (q : Post). str_eq q.id id ≡ false) before

Found-cons :
    (id : Str) (p : Post) (ps : List Post) (r : List Post × List Post)
    → str_eq p.id id ≡ false
    → Found id ps r
    → Found id (p ∷ ps) (p ∷ r.0, r.1)
Found-cons id p ps (before, []) e h = (ap (◌∷◌ p) h.0, (e, h.1))
Found-cons id p ps (before, q ∷ after) e h = (ap (◌∷◌ p) h.0, h.1, (e, h.2))

find_post-Found : (id : Str) (ps : List Post) → Found id ps (find_post id ps)
unfolding find_post
find_post-Found id [] = (refl, tt)
find_post-Found id (p ∷ ps) = elim (Bool-cases (str_eq p.id id)) [
  | inl e ↦ rw e (refl, eq_of_str_eq p.id id e, tt)
  | inr e ↦ rw e (Found-cons id p ps (find_post id ps) e (find_post-Found id ps))
]

-- The outcome of a removal.
pub data Removed (c : Channel) (id from : Str) (ignore_owner : Bool) : Bool × Channel → Type 0 where
  missing :
      All (λ (q : Post). str_eq q.id id ≡ false) c.posts → Removed c id from ignore_owner (false, c)
  refused :
      (before after : List Post) (p : Post)
      → c.posts ≡ before ++ p ∷ after
      → p.id ≡ id
      → All (λ (q : Post). str_eq q.id id ≡ false) before
      → p.from ≢ from
      → ignore_owner ≡ false
      → Removed c id from ignore_owner (false, c)
  erased :
      (before after : List Post) (p : Post)
      → c.posts ≡ before ++ p ∷ after
      → p.id ≡ id
      → All (λ (q : Post). str_eq q.id id ≡ false) before
      → (p.from ≡ from) ⊎ (ignore_owner ≡ true)
      → Removed c id from ignore_owner (true, record { posts = before ++ after })

abbrev finish : Bool × List Post → Bool × Channel
finish (done, posts) = (done, record { posts = posts })

erase_at-Removed :
    (c : Channel) (id from : Str) (ignore_owner : Bool) (r : List Post × List Post)
    → Found id c.posts r
    → Removed c id from ignore_owner (finish (erase_at r.0 r.1 from ignore_owner))
unfolding erase_at
erase_at-Removed c id from ignore_owner (before, []) h = rw (← h.0) (missing h.1)
erase_at-Removed c id from true (before, p ∷ after) h = elim (Bool-cases (str_eq p.from from)) [
  | inl e ↦ rw e (erased before after p h.0 h.1 h.2 (inr refl))
  | inr e ↦ rw e (erased before after p h.0 h.1 h.2 (inr refl))
]
erase_at-Removed c id from false (before, p ∷ after) h = elim (Bool-cases (str_eq p.from from)) [
  | inl e ↦ rw e (erased before after p h.0 h.1 h.2 (inl (eq_of_str_eq p.from from e)))
  | inr e ↦ rw (e, ← h.0) (refused before after p h.0 h.1 h.2 (ne_of_str_eq p.from from e) refl)
]

-- `remove_post` takes out the first post with the id if the author is the given one or the owner is
-- ignored, and returns true; otherwise, with no such post or another author, it changes nothing and
-- returns false.
pub remove_post-Removed :
    (c : Channel) (id from : Str) (ignore_owner : Bool)
    → Removed c id from ignore_owner (remove_post c id from ignore_owner)
unfolding remove_post
remove_post-Removed c id from ignore_owner =
    erase_at-Removed c id from ignore_owner (find_post id c.posts) (find_post-Found id c.posts)
