-- ===== src/Channel/Query.antt =====
-- src/channel.cpp, `is_child_of`, `filter`, `channel::query` and `channel::count`.
use occase.Base.{
  Bool, true, false, ◌&&◌, ◌≡◌, refl, ap, sym, ◌∙◌, ◌↔◌, inl, inr, List, [], ◌∷◌, ◌++◌,
  append_assoc, append-nil, arith, if◌then◌else◌, Bool-cases, ℤ, inc, add_ℕ, int_eq, eq_of_int_eq,
  int_eq_refl, length, ltb,
}
use mathlib.Core.List.{Memᴰ}
use mathlib.Core.List.Memᴰ
use occase.Post.{Post}
use occase.Channel.{Channel, is_child_of, agreement, filter, for_each, query, count}

agreement_self : (wanted rest : List ℤ) → agreement (wanted ++ rest) wanted ≡ length wanted
unfolding agreement
agreement_self [] rest = refl
agreement_self (w ∷ wanted) rest = ground (arith, int_eq_refl w, agreement_self wanted rest)

length_bound : (wanted rest : List ℤ) → ltb (length (wanted ++ rest)) (length wanted) ≡ false
length_bound [] rest = ground arith
length_bound (w ∷ wanted) rest = ground (arith, length_bound wanted rest)

abbrev pub Extends : List ℤ → List ℤ → Type 0
Extends code wanted = (rest : List ℤ) × (code ≡ wanted ++ rest)

agreement-Extends :
    (code wanted : List ℤ) → agreement code wanted ≡ length wanted → Extends code wanted
unfolding agreement
agreement-Extends code [] h = (code, refl)
agreement-Extends [] (w ∷ wanted) h = absurd (omega arith)
agreement-Extends (c ∷ code) (w ∷ wanted) h = elim (Bool-cases (int_eq w c)) [
  | inl e ↦
      let (rest, same) = agreement-Extends code wanted (ground arith) in
      (rest, rw (eq_of_int_eq w c e, same))
  | inr e ↦ absurd (ground arith)
]

-- `is_child_of` holds exactly when the code continues the wanted one.
pub is_child_of_iff :
    (code wanted : List ℤ)
    → (is_child_of code wanted ≡ true) ↔ ((rest : List ℤ) × (code ≡ wanted ++ rest))
unfolding is_child_of
is_child_of_iff code wanted = (
  λ h. agreement-Extends code wanted (ground arith),
  λ h. rw h.1 (ground (arith, agreement_self wanted h.0, length_bound wanted h.0)),
)

-- Both codes of the post continue those of the query.
pub matches : Post → Post → Bool
matches p q = is_child_of p.location q.location && is_child_of p.product q.product

-- The reference: the matching posts, in the order of the channel.
pub select : Post → List Post → List Post
select q [] = []
select q (p ∷ ps) = if matches p q then p ∷ select q ps else select q ps

query-loop :
    (q : Post) (ps ret : List Post)
    → for_each (λ p. filter p q (λ r out. out ++ r ∷ [])) ps ret ≡ ret ++ select q ps
unfolding for_each filter select matches
query-loop q [] ret = ground (arith, append-nil ret)
query-loop q (p ∷ ps) ret = elim (Bool-cases (is_child_of p.location q.location)) [
  | inl a ↦ elim (Bool-cases (is_child_of p.product q.product)) [
    | inl b ↦ rw (a, b, query-loop q ps (ret ++ p ∷ [])) (append_assoc ret (p ∷ []) (select q ps))
    | inr b ↦ rw (a, b) (query-loop q ps ret)
  ]
  | inr a ↦ rw a (query-loop q ps ret)
]

-- A query returns exactly the matching posts in the order of the channel, however many they are:
-- the maximum that the caller gives has no effect.
pub query-select : (c : Channel) (q : Post) (max : ℤ) → query c q max ≡ select q c.posts
unfolding query
query-select c q max = query-loop q c.posts []

count-loop :
    (q : Post) (ps : List Post) (ret : ℤ)
    → for_each (λ p. filter p q (λ r n. inc n)) ps ret ≡ add_ℕ ret (length (select q ps))
unfolding for_each filter select matches
count-loop q [] ret = refl
count-loop q (p ∷ ps) ret = elim (Bool-cases (is_child_of p.location q.location)) [
  | inl a ↦ elim (Bool-cases (is_child_of p.product q.product)) [
    | inl b ↦ rw (a, b) (count-loop q ps (inc ret))
    | inr b ↦ rw (a, b) (count-loop q ps ret)
  ]
  | inr a ↦ rw a (count-loop q ps ret)
]

-- `count` adds the number of posts that `query` returns to the indeterminate value that its
-- variable starts with.
pub count-query :
    (ret max : ℤ) (c : Channel) (q : Post) → count ret c q ≡ add_ℕ ret (length (query c q max))
unfolding count
count-query ret max c q = rw (query-select c q max) (count-loop q c.posts ret)

matches_iff :
    (p q : Post)
    → (matches p q ≡ true) ↔ (Extends p.location q.location × Extends p.product q.product)
unfolding matches
matches_iff p q = (
  λ h. (
    (is_child_of_iff p.location q.location).0 (ground arith),
    (is_child_of_iff p.product q.product).0 (ground arith),
  ),
  λ h.
      let a = (is_child_of_iff p.location q.location).1 h.0 in
      let b = (is_child_of_iff p.product q.product).1 h.1 in rw (a, b) refl,
)

of_select : (p q : Post) (ps : List Post) → Memᴰ p (select q ps) → Memᴰ p ps × (matches p q ≡ true)
unfolding select
of_select p q [] m = (m, absurd (Memᴰ.not-nil m))
of_select p q (x ∷ ps) m = elim (Bool-cases (matches x q)) [
  | inl e ↦ elim (Memᴰ.cases_cons (rw e at m)) [
    | inl h ↦ (Memᴰ.head h, ap (λ (y : Post). matches y q) h ∙ e)
    | inr k ↦ let (l, f) = of_select p q ps k in (Memᴰ.tail l, f)
  ]
  | inr e ↦ let (l, f) = of_select p q ps (rw e at m) in (Memᴰ.tail l, f)
]

to_select : (p q : Post) (ps : List Post) → Memᴰ p ps → matches p q ≡ true → Memᴰ p (select q ps)
unfolding select
to_select p q [] m h = m
to_select p q (x ∷ ps) m h = elim (Memᴰ.cases_cons m) [
  | inl e ↦
      let same : matches x q ≡ true = ap (λ (y : Post). matches y q) (sym e) ∙ h in
      rw same (Memᴰ.head e)
  | inr k ↦ elim (Bool-cases (matches x q)) [
    | inl e ↦ rw e (Memᴰ.tail (to_select p q ps k h))
    | inr e ↦ rw e (to_select p q ps k h)
  ]
]

-- The posts that are selected: those of the channel whose codes continue the wanted ones.
pub select_iff :
    (p q : Post) (ps : List Post)
    → Memᴰ p (select q ps)
      ↔ (Memᴰ p ps × Extends p.location q.location × Extends p.product q.product)
select_iff p q ps = (
  λ m. let (l, e) = of_select p q ps m in let (a, b) = (matches_iff p q).0 e in (l, a, b),
  λ (l, a, b). to_select p q ps l ((matches_iff p q).1 (a, b)),
)
