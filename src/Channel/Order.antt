-- ===== src/Channel/Order.antt =====
-- src/channel.cpp: the order of the posts. `insert` is the reference for `add_post`.
use occase.Base.{
  true, false, ◌≡◌, refl, ap, ◌∙◌, inl, inr, List, [], ◌∷◌, ◌++◌, map, Str, str_ltb, take, drop,
  All, take-length-append, drop-length-append, All-map_imp, if◌then◌else◌, not_ltb_trans,
  not_ltb_of_ltb, Bool-cases,
}
use mathlib.Core.List.{Perm}
use mathlib.Core.List.Perm
use occase.Post.{Post}
use occase.Channel.{Channel, add_post, upper_bound}

abbrev pub ids : List Post → List Str
ids = map (λ p. p.id)

-- No id is less than one that stands before it.
abbrev pub Ascending : List Str → Type 0
Ascending [] = Unit {0}
Ascending (x ∷ xs) = All (λ y. str_ltb y x ≡ false) xs × Ascending xs

abbrev pub IsSorted : Channel → Type 0
IsSorted c = Ascending (ids c.posts)

pub insert : Post → List Post → List Post
insert p [] = p ∷ []
insert p (q ∷ qs) = if str_ltb p.id q.id then p ∷ q ∷ qs else q ∷ insert p qs

rotate-insert :
    (p : Post) (qs : List Post)
    → (take (upper_bound p.id qs) (qs ++ p ∷ []) ++ p ∷ []) ++ drop (upper_bound p.id qs) qs
      ≡ insert p qs
unfolding upper_bound insert
rotate-insert p [] = refl
rotate-insert p (q ∷ qs) = elim (Bool-cases (str_ltb p.id q.id)) [
  | inl e ↦ rw e
  | inr e ↦ rw e (ap (◌∷◌ q) (rotate-insert p qs))
]

pub insert_Perm : (p : Post) (qs : List Post) → Perm (insert p qs) (p ∷ qs)
unfolding insert
insert_Perm p [] = Perm.rfl
insert_Perm p (q ∷ qs) = elim (Bool-cases (str_ltb p.id q.id)) [
  | inl e ↦ rw e Perm.rfl
  | inr e ↦ rw e (Perm.trans (Perm.cons q (insert_Perm p qs)) (Perm.swap p q qs))
]

-- Appending, searching and rotating is one insertion.
pub add_post-insert : (c : Channel) (p : Post) → (add_post c p).posts ≡ insert p c.posts
unfolding add_post
add_post-insert c p =
    rw (drop-length-append c.posts (p ∷ []), take-length-append c.posts (p ∷ []))
      (rotate-insert p c.posts)

insert_bound :
    (x : Str) (p : Post) (qs : List Post)
    → str_ltb p.id x ≡ false
    → All (λ y. str_ltb y x ≡ false) (ids qs)
    → All (λ y. str_ltb y x ≡ false) (ids (insert p qs))
unfolding insert
insert_bound x p [] h k = (h, tt)
insert_bound x p (q ∷ qs) h k = elim (Bool-cases (str_ltb p.id q.id)) [
  | inl e ↦ rw e (h, k)
  | inr e ↦ rw e (k.0, insert_bound x p qs h k.1)
]

insert-Ascending : (p : Post) (qs : List Post) → Ascending (ids qs) → Ascending (ids (insert p qs))
unfolding insert
insert-Ascending p [] h = (tt, tt)
insert-Ascending p (q ∷ qs) h = elim (Bool-cases (str_ltb p.id q.id)) [
  | inl e ↦ rw e (
    (
      not_ltb_of_ltb p.id q.id e,
      All-map_imp _ _ (λ y k. not_ltb_trans p.id q.id y (not_ltb_of_ltb p.id q.id e) k) (ids qs)
          h.0,
    ),
    h,
  )
  | inr e ↦ rw e (insert_bound q.id p qs e h.0, insert-Ascending p qs h.1)
]

pub add_post-IsSorted : (c : Channel) (p : Post) → IsSorted c → IsSorted (add_post c p)
add_post-IsSorted c p h = rw add_post-insert (insert-Ascending p c.posts h)

ltb_of_ltb_not : (x y q : Str) → str_ltb x q ≡ true → str_ltb y q ≡ false → str_ltb x y ≡ true
ltb_of_ltb_not x y q h k = elim (Bool-cases (str_ltb x y)) [
  | inl e ↦ e
  | inr e ↦ cc (not_ltb_trans q y x k e)
]

greater :
    (x : Str) (q : Post) (qs : List Post)
    → str_ltb x q.id ≡ true
    → All (λ y. str_ltb y q.id ≡ false) (ids qs)
    → All (λ (p : Post). str_ltb x p.id ≡ true) qs
greater x q [] h k = tt
greater x q (p ∷ qs) h k = (ltb_of_ltb_not x p.id q.id h k.0, greater x q qs h k.1)

abbrev Position : Post → List Post → Type 0
Position p qs =
    (l r : List Post) × (qs ≡ l ++ r)
    × (insert p qs ≡ l ++ p ∷ r)
    × All (λ (q : Post). str_ltb p.id q.id ≡ false) l
    × All (λ (q : Post). str_ltb p.id q.id ≡ true) r

insert-Position : (p : Post) (qs : List Post) → Ascending (ids qs) → Position p qs
unfolding insert
insert-Position p [] h = ([], [], refl, refl, tt, tt)
insert-Position p (q ∷ qs) h = elim (Bool-cases (str_ltb p.id q.id)) [
  | inl e ↦ ([], q ∷ qs, refl, rw e, tt, (e, greater p.id q qs e h.0))
  | inr e ↦
      let (l, r, before, after, low, high) = insert-Position p qs h.1 in
      (q ∷ l, r, ap (◌∷◌ q) before, rw e (ap (◌∷◌ q) after), (e, low), high)
]

-- In a sorted channel a post is put behind those whose ids are not greater and before those whose
-- ids are greater, and the other posts keep their order.
pub add_post_position :
    (c : Channel) (p : Post)
    → IsSorted c
    → (l r : List Post) × (c.posts ≡ l ++ r)
      × ((add_post c p).posts ≡ l ++ p ∷ r)
      × All (λ (q : Post). str_ltb p.id q.id ≡ false) l
      × All (λ (q : Post). str_ltb p.id q.id ≡ true) r
add_post_position c p h =
    let (l, r, before, after, low, high) = insert-Position p c.posts h in
    (l, r, before, add_post-insert c p ∙ after, low, high)
