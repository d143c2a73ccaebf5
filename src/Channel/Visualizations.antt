-- ===== src/Channel/Visualizations.antt =====
-- src/channel.cpp, `channel::on_visualization` and `channel::load_visualizations`.
use occase.Base.{false, ◌≡◌, refl, ap, List, [], ◌∷◌, ◌++◌, ℤ, inc, Str, str_eq, str_eq_refl, All}
use occase.Post.{Post}
use occase.Channel.{Channel, visualize, on_visualization, load, load_visualizations}

visualize_split :
    (id : Str) (l r : List Post) (p : Post)
    → All (λ (q : Post). str_eq q.id id ≡ false) l
    → p.id ≡ id
    → visualize id (l ++ p ∷ r) ≡ l ++ (record p { visualizations = inc p.visualizations }) ∷ r
unfolding visualize
visualize_split id [] r p h e = rw (e, str_eq_refl id)
visualize_split id (q ∷ l) r p h e = rw h.0 (ap (◌∷◌ q) (visualize_split id l r p h.1 e))

-- A visualization adds one to the first post that has the id, and changes nothing else.
pub on_visualization_first :
    (l r : List Post) (p : Post)
    → All (λ (q : Post). str_eq q.id p.id ≡ false) l
    → on_visualization (record { posts = l ++ p ∷ r }) p.id
      ≡ record { posts = l ++ (record p { visualizations = inc p.visualizations }) ∷ r }
unfolding on_visualization
on_visualization_first l r p h =
    ap (λ ps. record { posts = ps }) (visualize_split p.id l r p h refl)

-- The posts whose counts are given, each with the keys that are skipped before it.
pub data Aligned : List (Str × ℤ) → List Post → List Post → Type 0 where
  done : (v : List (Str × ℤ)) → Aligned v [] []
  skip :
      (id : Str) (n : ℤ) (v : List (Str × ℤ)) (p : Post) (ps out : List Post)
      → str_eq id p.id ≡ false
      → Aligned v (p ∷ ps) out
      → Aligned ((id, n) ∷ v) (p ∷ ps) out
  take :
      (n : ℤ) (v : List (Str × ℤ)) (p : Post) (ps out : List Post)
      → Aligned v ps out
      → Aligned ((p.id, n) ∷ v) (p ∷ ps) (record p { visualizations = n } ∷ out)

load_nil : (v : List (Str × ℤ)) → load v [] ≡ []
unfolding load
load_nil [] = refl
load_nil (v ∷ vs) = refl

load-Aligned : {v : List (Str × ℤ)} {ps out : List Post} → Aligned v ps out → load v ps ≡ out
unfolding load
load-Aligned (done v) = load_nil v
load-Aligned (skip id n v p ps out e h) = rw e (load-Aligned h)
load-Aligned (take n v p ps out h) =
    rw (str_eq_refl p.id) (ap (◌∷◌ (record p { visualizations = n })) (load-Aligned h))

-- If the keys name every post, in the order of the channel, with other keys between them, each post
-- gets its count.
pub load_visualizations-Aligned :
    (c : Channel) (v : List (Str × ℤ)) (out : List Post)
    → Aligned v c.posts out
    → load_visualizations c v ≡ record { posts = out }
unfolding load_visualizations
load_visualizations-Aligned c v out h = ap (λ ps. record { posts = ps }) (load-Aligned h)

-- A post that no key names keeps its count, and so do all posts behind it.
pub load_visualizations_stuck :
    (v : List (Str × ℤ)) (p : Post) (ps : List Post)
    → All (λ (k : Str × ℤ). str_eq k.0 p.id ≡ false) v
    → load_visualizations (record { posts = p ∷ ps }) v ≡ record { posts = p ∷ ps }
unfolding load_visualizations load
load_visualizations_stuck [] p ps h = refl
load_visualizations_stuck ((id, n) ∷ v) p ps h = rw h.0 (load_visualizations_stuck v p ps h.1)
