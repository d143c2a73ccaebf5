-- ===== src/Channel/Unique.antt =====
-- src/channel.cpp: two sorted channels with the same posts, whose ids tell them apart, are the same.
use occase.Base.{
  ◌≡◌, sym, ap, ◌∙◌, false, List, [], ◌∷◌, Str, str_ltb, str_ltb_irrefl, eq_of_not_ltb, All, str_eq,
  str_eq_refl,
}
use mathlib.Core.Bool.{Bool-set}
use mathlib.Core.Path.{ap₂}
use mathlib.Core.List.{
  Mem, Perm, forall_mem-cons, mem-cons_self, mem-cons_of_mem, not-mem-nil, mem-cons,
}
use mathlib.Core.Logic.Or
use mathlib.Core.List.Perm
use occase.Post.{Post}
use occase.Channel.Order.{ids, Ascending}

-- Posts with the same id are the same.
pub Identified : List Post → Type 0
Identified ps = (p q : Post) → Mem p ps → Mem q ps → p.id ≡ q.id → p ≡ q

-- An id that is not less than any in a list is not less than any that stands there.
not_less :
    (a : Str) (l : List Str)
    → All (λ y. str_ltb y a ≡ false) l
    → (x : Str) → Mem x l
    → str_ltb x a ≡ false
not_less a [] h x m = absurd (not-mem-nil m)
not_less a (y ∷ l) h x m =
    (forall_mem-cons (λ z. Bool-set (str_ltb z a) false)).1 (h.0, not_less a l h.1) x m

head_not_less :
    (a b : Str) (l r : List Str) → Ascending (a ∷ l) → Perm (b ∷ r) (a ∷ l) → str_ltb b a ≡ false
head_not_less a b l r h p =
    not_less a (a ∷ l) (str_ltb_irrefl a, h.0) b ((Perm.mem_iff p).0 mem-cons_self)

pub sorted_unique :
    (l r : List Post) → Ascending (ids l) → Ascending (ids r) → Perm l r → Identified l → l ≡ r
unfolding Identified
sorted_unique [] r h k p i = Perm.nil-eq p
sorted_unique (a ∷ l) [] h k p i = Perm.eq-nil p
sorted_unique (a ∷ l) (b ∷ r) h k p i =
    let q : Perm (ids (a ∷ l)) (ids (b ∷ r)) = Perm.map (λ (x : Post). x.id) p in
    let same_id =
      eq_of_not_ltb a.id b.id (head_not_less b.id a.id (ids r) (ids l) k q)
        (head_not_less a.id b.id (ids l) (ids r) h (Perm.symm q)) in
    let heads : a ≡ b =
      i a b mem-cons_self ((Perm.mem_iff (Perm.symm p)).0 mem-cons_self) same_id in
    let tails = Perm.cons_inv (Perm.trans p (Perm.symm (Perm.cons' heads Perm.rfl))) in
    ap₂ ◌∷◌ heads (
      sorted_unique l r h.1 k.1 tails
        (λ x y m n e. i x y (mem-cons_of_mem a m) (mem-cons_of_mem a n) e))

pub Identified-perm : {l r : List Post} → Perm l r → Identified r → Identified l
unfolding Identified
Identified-perm p i x y m n e = i x y ((Perm.mem_iff p).0 m) ((Perm.mem_iff p).0 n) e

Post_set : IsSet Post
Post_set = hlevel

-- No id stands twice.
abbrev pub Distinct : List Str → Type 0
Distinct [] = Unit {0}
Distinct (x ∷ xs) = All (λ y. str_eq x y ≡ false) xs × Distinct xs

elsewhere :
    (a : Str) (l : List Post)
    → All (λ y. str_eq a y ≡ false) (ids l)
    → (p : Post) → Mem p l
    → str_eq a p.id ≡ false
elsewhere a [] h p m = absurd (not-mem-nil m)
elsewhere a (x ∷ l) h p m =
    (forall_mem-cons (λ (z : Post). Bool-set (str_eq a z.id) false)).1 (h.0, elsewhere a l h.1) p m

same_id_absurd : (a p : Post) → a.id ≡ p.id → str_eq a.id p.id ≡ false → ⊥
same_id_absurd a p e n = cc (str_eq_refl a.id, ap (λ s. str_eq a.id s) e, n)

pub Distinct-Identified : (l : List Post) → Distinct (ids l) → Identified l
unfolding Identified
Distinct-Identified [] h p q m n e = absurd (not-mem-nil m)
Distinct-Identified (a ∷ l) h p q m n e =
    Or.elim (Post_set p q) (mem-cons.0 m)
      (λ x.
        Or.elim (Post_set p q) (mem-cons.0 n) (λ y. x ∙ sym y)
          (λ k.
            absurd (
              same_id_absurd a q (ap (λ (z : Post). z.id) (sym x) ∙ e) (elsewhere a.id l h.0 q k))))
      (λ j.
        Or.elim (Post_set p q) (mem-cons.0 n)
          (λ y. absurd (
            same_id_absurd a p (ap (λ (z : Post). z.id) (sym y) ∙ sym e)
              (elsewhere a.id l h.0 p j)))
          (λ k. Distinct-Identified l h.1 p q j k e))
