-- ===== src/Base/Text.antt =====
-- `std::string` as the list of its bytes: equality, the order of `operator<`, and prefixes.
use Prim.Native.Char.{code}
use Prim.Native.String.{String}
use Prim.Native.Nat.{ℕ}
use mathlib.Core.Path.{◌≡◌, refl, ap}
use mathlib.Core.Logic.{◌↔◌, ◌≢◌}
use mathlib.Core.Bool.{Bool, true, false, ◌&&◌}
use mathlib.Core.List.{List, [], ◌∷◌, ◌++◌}
use native.Mathlib.Omega.{arith}
use occase.Base.Tests.{ltb, ◌==◌, if◌then◌else◌}

abbrev pub Str : Type 0
Str = List ℕ

-- The bytes of an ASCII literal.
abbrev pub codes : String → Str
codes String.[] = []
codes (String.◌∷◌ c s) = code c ∷ codes s

abbrev pub is_empty {ℓ} : {A : Type ℓ} → List A → Bool
is_empty [] = true
is_empty (x ∷ xs) = false

abbrev pub str_eq : Str → Str → Bool
str_eq [] [] = true
str_eq [] (b ∷ t) = false
str_eq (a ∷ s) [] = false
str_eq (a ∷ s) (b ∷ t) = (a == b) && str_eq s t

-- Lexicographic order on unsigned bytes.
abbrev pub str_ltb : Str → Str → Bool
str_ltb [] [] = false
str_ltb [] (b ∷ t) = true
str_ltb (a ∷ s) [] = false
str_ltb (a ∷ s) (b ∷ t) = if a == b then str_ltb s t else ltb a b

abbrev pub starts_with : Str → Str → Bool
starts_with s [] = true
starts_with [] (b ∷ t) = false
starts_with (a ∷ s) (b ∷ t) = (a == b) && starts_with s t

pub str_eq_refl : (s : Str) → str_eq s s ≡ true
str_eq_refl [] = refl
str_eq_refl (a ∷ s) = ground (arith, str_eq_refl s)

pub eq_of_str_eq : (s t : Str) → str_eq s t ≡ true → s ≡ t
eq_of_str_eq [] [] h = refl
eq_of_str_eq [] (b ∷ t) h = cc
eq_of_str_eq (a ∷ s) [] h = cc
eq_of_str_eq (a ∷ s) (b ∷ t) h = ground (arith, eq_of_str_eq s t)

pub str_eq_iff : (s t : Str) → (str_eq s t ≡ true) ↔ (s ≡ t)
str_eq_iff s t = (eq_of_str_eq s t, λ e. rw e (str_eq_refl t))

pub str_ltb_irrefl : (s : Str) → str_ltb s s ≡ false
str_ltb_irrefl [] = refl
str_ltb_irrefl (a ∷ s) = ground (arith, str_ltb_irrefl s)

-- The order of ids is total: `le_trans` for "not greater".
pub not_ltb_trans : (s t u : Str) → str_ltb t s ≡ false → str_ltb u t ≡ false → str_ltb u s ≡ false
not_ltb_trans [] [] u h k = k
not_ltb_trans [] (b ∷ t) [] h k = cc
not_ltb_trans [] (b ∷ t) (c ∷ u) h k = refl
not_ltb_trans (a ∷ s) [] u h k = cc
not_ltb_trans (a ∷ s) (b ∷ t) [] h k = cc
not_ltb_trans (a ∷ s) (b ∷ t) (c ∷ u) h k = ground (arith, not_ltb_trans s t u)

pub not_ltb_of_ltb : (s t : Str) → str_ltb s t ≡ true → str_ltb t s ≡ false
not_ltb_of_ltb [] [] h = cc
not_ltb_of_ltb [] (b ∷ t) h = refl
not_ltb_of_ltb (a ∷ s) [] h = cc
not_ltb_of_ltb (a ∷ s) (b ∷ t) h = ground (arith, not_ltb_of_ltb s t)

pub eq_of_not_ltb : (s t : Str) → str_ltb s t ≡ false → str_ltb t s ≡ false → s ≡ t
eq_of_not_ltb [] [] h k = refl
eq_of_not_ltb [] (b ∷ t) h k = cc
eq_of_not_ltb (a ∷ s) [] h k = cc
eq_of_not_ltb (a ∷ s) (b ∷ t) h k = ground (arith, eq_of_not_ltb s t)

pub starts_with-append : (s t : Str) → starts_with (s ++ t) s ≡ true
starts_with-append [] t = refl
starts_with-append (a ∷ s) t = ground (arith, starts_with-append s t)

pub ne_of_str_eq : (s t : Str) → str_eq s t ≡ false → s ≢ t
ne_of_str_eq s t h e = cc (str_eq_refl t, ap (λ u. str_eq u t) e)
