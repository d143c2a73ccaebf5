-- ===== src/Channel/Lookup.antt =====
-- src/channel.cpp, `channel::get`: the binary search against a linear one.
use occase.Base.{
  true, false, ◌≡◌, refl, ap, ◌⊎◌, inl, inr, List, [], ◌∷◌, ◌++◌, Str, str_eq, str_ltb, All, arith,
  if◌then◌else◌, Bool-cases, eq_of_str_eq, ne_of_str_eq, str_eq_refl, ◌∙◌, sym, Option, none, some,
  str_ltb_irrefl, eq_of_not_ltb, drop, suc,
}
use mathlib.Core.Path.{subst}
use occase.Post.{Post, empty_post}
use occase.Channel.{Channel, get, lower_bound, post_at}
use occase.Channel.Order.{ids, Ascending, IsSorted}

-- The reference: the first post with exactly this id.
unfoldable pub find_id : Str → List Post → Option Post
find_id id [] = none
find_id id (p ∷ ps) = if str_eq p.id id then some p else find_id id ps

find_id_holds {ℓ} :
    (P : Str → Type ℓ) (id : Str) (ps : List Post) (p : Post)
    → All P (ids ps)
    → find_id id ps ≡ some p
    → P id × (p.id ≡ id)
unfolding find_id
find_id_holds P id [] p h e = cc
find_id_holds P id (q ∷ ps) p h e = elim (Bool-cases (str_eq q.id id)) [
  | inl s ↦
      let hit : q ≡ p = ground arith in
      (
        subst P (eq_of_str_eq q.id id s) h.0,
        ap (λ (r : Post). r.id) (sym hit) ∙ eq_of_str_eq q.id id s,
      )
  | inr s ↦ find_id_holds P id ps p h.1 (ground arith)
]

find_behind :
    (id : Str) (q : Post) (ps : List Post) (p : Post)
    → str_ltb q.id id ≡ true
    → find_id id (q ∷ ps) ≡ some p
    → find_id id ps ≡ some p
unfolding find_id
find_behind id q ps p less e = elim (Bool-cases (str_eq q.id id)) [
  | inl s ↦
      let loop : str_ltb id id ≡ true = rw (eq_of_str_eq q.id id s) at less in
      cc (str_ltb_irrefl id, loop)
  | inr s ↦ ground arith
]

find_here :
    (id : Str) (q : Post) (ps : List Post) (p : Post)
    → All (λ y. str_ltb y q.id ≡ false) (ids ps)
    → str_ltb q.id id ≡ false
    → find_id id (q ∷ ps) ≡ some p
    → q ≡ p
unfolding find_id
find_here id q ps p h stop e = elim (Bool-cases (str_eq q.id id)) [
  | inl s ↦ ground arith
  | inr s ↦
      let later : find_id id ps ≡ some p = ground arith in
      let low = (find_id_holds (λ y. str_ltb y q.id ≡ false) id ps p h later).0 in
      absurd (ne_of_str_eq q.id id s (eq_of_not_ltb q.id id stop low))
]

lower_bound-find :
    (id : Str) (ps : List Post) (p : Post)
    → Ascending (ids ps)
    → find_id id ps ≡ some p
    → post_at (drop (lower_bound id ps) ps) ≡ p
unfolding lower_bound find_id
lower_bound-find id [] p h e = cc
lower_bound-find id (q ∷ ps) p h e = elim (Bool-cases (str_ltb q.id id)) [
  | inl less ↦ rw less (lower_bound-find id ps p h.1 (find_behind id q ps p less e))
  | inr stop ↦ rw stop (find_here id q ps p h.0 stop e)
]

-- In a sorted channel `get` returns the first post that has the id, if there is one.
pub get-find_id :
    (c : Channel) (id : Str) (p : Post) → IsSorted c → find_id id c.posts ≡ some p → get c id ≡ p
unfolding get
get-find_id c id p h e = lower_bound-find id c.posts p h e

abbrev Beyond : Str → List Post → Post → Type 0
Beyond id ps p =
    ((p ≡ empty_post) × All (λ (q : Post). str_ltb q.id id ≡ true) ps)
    ⊎ ((l r : List Post) × (ps ≡ l ++ p ∷ r)
        × All (λ (q : Post). str_ltb q.id id ≡ true) l
        × (str_ltb id p.id ≡ true))

Beyond-cons :
    (id : Str) (q : Post) (ps : List Post) (p : Post)
    → str_ltb q.id id ≡ true
    → Beyond id ps p
    → Beyond id (q ∷ ps) p
Beyond-cons id q ps p less (inl h) = inl (h.0, (less, h.1))
Beyond-cons id q ps p less (inr (l, r, e, low, high)) =
    inr (q ∷ l, r, ap (◌∷◌ q) e, (less, low), high)

greater_of_missing :
    (id : Str) (q : Post) (ps : List Post)
    → str_ltb q.id id ≡ false
    → find_id id (q ∷ ps) ≡ none
    → str_ltb id q.id ≡ true
unfolding find_id
greater_of_missing id q ps stop e = elim (Bool-cases (str_ltb id q.id)) [
  | inl g ↦ g
  | inr g ↦
      let same = eq_of_not_ltb q.id id stop g in
      let hit : str_eq q.id id ≡ true = rw same (str_eq_refl id) in ground arith
]

lower_bound_less :
    (id : Str) (q : Post) (ps : List Post)
    → str_ltb q.id id ≡ true
    → lower_bound id (q ∷ ps) ≡ suc (lower_bound id ps)
unfolding lower_bound
lower_bound_less id q ps e = rw e

lower_bound_stop :
    (id : Str) (q : Post) (ps : List Post) → str_ltb q.id id ≡ false → lower_bound id (q ∷ ps) ≡ 0
unfolding lower_bound
lower_bound_stop id q ps e = rw e

find_id_tail :
    (id : Str) (q : Post) (ps : List Post) → find_id id (q ∷ ps) ≡ none → find_id id ps ≡ none
unfolding find_id
find_id_tail id q ps e = ground arith

lower_bound-Beyond :
    (id : Str) (ps : List Post)
    → find_id id ps ≡ none
    → Beyond id ps (post_at (drop (lower_bound id ps) ps))
lower_bound-Beyond id [] e = inl (unfold lower_bound in refl, tt)
lower_bound-Beyond id (q ∷ ps) e = elim (Bool-cases (str_ltb q.id id)) [
  | inl less ↦
      rw (lower_bound_less id q ps less)
        (Beyond-cons id q ps _ less (lower_bound-Beyond id ps (find_id_tail id q ps e)))
  | inr stop ↦
      rw (lower_bound_stop id q ps stop) (inr ([], ps, refl, tt, greater_of_missing id q ps stop e))
]

-- In a sorted channel with no post of the given id, `get` returns the empty post only if every id is
-- less than the given one; otherwise it returns a post of the channel with another, greater id,
-- before which all ids are less.
pub get_missing :
    (c : Channel) (id : Str)
    → IsSorted c
    → find_id id c.posts ≡ none
    → ((get c id ≡ empty_post) × All (λ (q : Post). str_ltb q.id id ≡ true) c.posts)
      ⊎ ((l r : List Post) × (c.posts ≡ l ++ get c id ∷ r)
          × All (λ (q : Post). str_ltb q.id id ≡ true) l
          × (str_ltb id (get c id).id ≡ true))
unfolding get
get_missing c id h e = lower_bound-Beyond id c.posts e
