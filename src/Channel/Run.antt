-- ===== src/Channel/Run.antt =====
-- src/channel.cpp: any sequence of calls that change the posts.
use occase.Base.{
  Bool, ◌≡◌, refl, ap, inl, inr, List, [], ◌∷◌, ◌++◌, Str, str_eq, All, ℤ, Bool-cases,
}
use mathlib.Core.Path.{subst}
use occase.Post.{Post}
use occase.Channel.{
  Channel, add_post, on_visualization, remove_post, remove_expired_posts, load_visualizations,
  visualize, load,
}
use occase.Channel.Order.{ids, Ascending, IsSorted, add_post-IsSorted}
use occase.Channel.Removal.{Removed, remove_post-Removed, missing, refused, erased}

pub data Call : Type 0 where
  adds : Post → Call
  visualizes : Str → Call
  removes : Str → Str → Bool → Call
  expires : ℤ → ℤ → Call
  loads : List (Str × ℤ) → Call

pub step : Channel → Call → Channel
step c (adds p) = add_post c p
step c (visualizes id) = on_visualization c id
step c (removes id from ignore_owner) = (remove_post c id from ignore_owner).1
step c (expires now exp) = (remove_expired_posts c now exp).1
step c (loads v) = load_visualizations c v

pub run : Channel → List Call → Channel
run c [] = c
run c (x ∷ xs) = run (step c x) xs

ids-visualize : (id : Str) (ps : List Post) → ids (visualize id ps) ≡ ids ps
unfolding visualize
ids-visualize id [] = refl
ids-visualize id (p ∷ ps) = elim (Bool-cases (str_eq p.id id)) [
  | inl e ↦ rw e
  | inr e ↦ rw e (ap (◌∷◌ p.id) (ids-visualize id ps))
]

ids-load : (v : List (Str × ℤ)) (ps : List Post) → ids (load v ps) ≡ ids ps
unfolding load
ids-load [] ps = refl
ids-load (v ∷ vs) [] = refl
ids-load ((id, n) ∷ vs) (p ∷ ps) = elim (Bool-cases (str_eq id p.id)) [
  | inl e ↦ rw e (ap (◌∷◌ p.id) (ids-load vs ps))
  | inr e ↦ rw e (ids-load vs (p ∷ ps))
]

All-erase :
    (P : Str → Type 0) (l r : List Post) (p : Post)
    → All P (ids (l ++ p ∷ r))
    → All P (ids (l ++ r))
All-erase P [] r p h = h.1
All-erase P (q ∷ l) r p h = (h.0, All-erase P l r p h.1)

Ascending-erase :
    (l r : List Post) (p : Post) → Ascending (ids (l ++ p ∷ r)) → Ascending (ids (l ++ r))
Ascending-erase [] r p h = h.1
Ascending-erase (q ∷ l) r p h = (All-erase _ l r p h.0, Ascending-erase l r p h.1)

Removed-IsSorted :
    (c : Channel) {id from : Str} {ignore_owner : Bool} {r : Bool × Channel}
    → Removed c id from ignore_owner r
    → IsSorted c
    → IsSorted r.1
Removed-IsSorted c (missing _) h = h
Removed-IsSorted c (refused _ _ _ _ _ _ _ _) h = h
Removed-IsSorted c (erased before after p e _ _ _) h =
    Ascending-erase before after p (subst (λ ps. Ascending (ids ps)) e h)

step-IsSorted : (c : Channel) (x : Call) → IsSorted c → IsSorted (step c x)
unfolding step on_visualization load_visualizations remove_expired_posts
step-IsSorted c (adds p) h = add_post-IsSorted c p h
step-IsSorted c (visualizes id) h = rw (ids-visualize id c.posts) h
step-IsSorted c (removes id from o) h = Removed-IsSorted c (remove_post-Removed c id from o) h
step-IsSorted c (expires now exp) h = h
step-IsSorted c (loads v) h = rw (ids-load v c.posts) h

-- Whatever calls are made on a sorted channel, in whatever order, its posts stay sorted by id.
pub run-IsSorted : (c : Channel) (xs : List Call) → IsSorted c → IsSorted (run c xs)
unfolding run
run-IsSorted c [] h = h
run-IsSorted c (x ∷ xs) h = run-IsSorted (step c x) xs (step-IsSorted c x h)
