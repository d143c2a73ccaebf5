-- ===== src/Worker/Stoi.antt =====
-- `std::stoi` in base ten, which `worker::on_hgetall` applies to the counts: white space, a sign,
-- then at least one digit; what follows the digits is ignored. `none` stands for an exception.
use occase.Base.{
  ℕ, ◌+◌, ◌-◌, ◌*◌, Bool, true, false, ◌&&◌, ◌||◌, [], ◌∷◌, Option, none, some, ℤ, pos, negsuc, Str,
  ltb, leb, ◌==◌, if◌then◌else◌,
}

is_space : ℕ → Bool
is_space c = c == 32 || (leb 9 c && leb c 13)

is_digit : ℕ → Bool
is_digit c = leb b'0' c && leb c b'9'

skip_spaces : Str → Str
skip_spaces [] = []
skip_spaces (c ∷ s) = if is_space c then skip_spaces s else c ∷ s

digits : ℕ → Str → ℕ
digits n [] = n
digits n (c ∷ s) = let rest = digits (n * 10 + (c - b'0')) s in if is_digit c then rest else n

signed : Bool → ℕ → Option ℤ
signed true n =
    if ltb 2147483648 n then none else if n == 0 then some (pos 0) else some (negsuc (n - 1))
signed false n = if leb 2147483648 n then none else some (pos n)

magnitude : Bool → Str → Option ℤ
magnitude negative [] = none
magnitude negative (c ∷ s) = if is_digit c then signed negative (digits 0 (c ∷ s)) else none

sign : Str → Option ℤ
unfolding magnitude
sign [] = none
sign (c ∷ s) =
    if c == b'-'
    then magnitude true s
    else if c == b'+'
    then magnitude false s
    else magnitude false (c ∷ s)

unfoldable pub stoi : Str → Option ℤ
unfolding is_space is_digit skip_spaces digits signed magnitude sign
stoi s = sign (skip_spaces s)
