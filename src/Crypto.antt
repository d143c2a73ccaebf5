-- ===== src/Crypto.antt =====
-- src/crypto.hpp, src/crypto.cpp: hexadecimal digests and random strings.
pub mod Hex
pub mod Random
use occase.Base.{
  ℕ, zero, suc, ◌+◌, ◌-◌, ◌/◌, ◌%◌, Bool, true, false, List, [], ◌∷◌, Str, codes, is_empty, length,
  ◌==◌, ℤ, pos, negsuc, if◌then◌else◌, not,
}
use occase.Platform.{Platform}

abbrev pub hextable : Str
hextable = codes "0123456789abcdef"

abbrev pub pwdchars : Str
pwdchars = codes "abcdefghijklmnopqrstuvwxyz0123456789"

-- `sizeof pwdchars`: an array of the characters and the null character behind them.
pwdchars_size : ℕ
pwdchars_size = length pwdchars + 1

-- The upper bound of pwd_gen::dist, which the constructor sets.
dist_max : ℕ
unfolding pwdchars_size
dist_max = pwdchars_size - 2

-- `table[i]` of an array that ends with a null character; no call is beyond it.
char_of : Str → ℕ → ℕ
char_of [] i = 0
char_of (c ∷ cs) zero = c
char_of (c ∷ cs) (suc i) = char_of cs i

-- `a & 0x0f` and `(a & 0xf0) >> 4`, of an unsigned char.
low_to_char : ℕ → ℕ
low_to_char a = char_of hextable (a % 16)

high_to_char : ℕ → ℕ
high_to_char a = char_of hextable (a / 16 % 16)

pub hash_to_string : Str → Str
hash_to_string [] = []
hash_to_string (b ∷ hash) = high_to_char b ∷ low_to_char b ∷ hash_to_string hash

-- pwd_gen::sep
abbrev pub sep : ℕ
sep = b'-'

-- The rounds of `for (auto i = 0; i < n; ++i)`.
abbrev pub rounds : ℤ → ℕ
rounds (pos n) = n
rounds (negsuc n) = 0

module _ (P : Platform) where
  open P use {Gen, draw, generichash, key_bytes}

  make_loop : ℕ → Gen → Str × Gen
  make_loop zero gen = ([], gen)
  make_loop (suc n) gen =
      let (i, gen') = draw dist_max gen in
      let (pwd, gen'') = make_loop n gen' in (char_of pwdchars i ∷ pwd, gen'')

  -- pwd_gen::make
  pub make : ℤ → Gen → Str × Gen
  make pwd_size gen = make_loop (rounds pwd_size) gen

  -- pwd_gen::make_key
  pub make_key : Gen → Str × Gen
  make_key gen = make (pos key_bytes) gen

  -- make_hex_digest(input)
  pub make_hex_digest_unkeyed : Str → Str
  make_hex_digest_unkeyed input = hash_to_string (generichash input [])

  -- make_hex_digest(input, key)
  pub make_hex_digest : Str → Str → Str
  make_hex_digest input key =
      if is_empty input
      then []
      else if not (length key == key_bytes)
      then []
      else hash_to_string (generichash input key)
