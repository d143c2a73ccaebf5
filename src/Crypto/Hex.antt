-- ===== src/Crypto/Hex.antt =====
-- src/crypto.cpp, `hash_to_string` and `make_hex_digest`: what a digest looks like.
use occase.Base.{
  is_empty, ℕ, zero, suc, ◌+◌, ◌-◌, ◌*◌, ◌/◌, ◌%◌, ◌<◌, ◌≡◌, refl, ◌⊎◌, inl, inr, Bool, true, false,
  ◌&&◌, ◌||◌, [], ◌∷◌, Str, length, ltb, leb, ◌==◌, ==_iff, All, arith, if◌then◌else◌, Bool-cases,
  ◌≢◌,
}
use occase.Platform.{Platform}
use occase.Crypto.{hash_to_string, high_to_char, low_to_char, char_of, hextable, make_hex_digest}

-- A test on each of the first numbers.
passes : (ℕ → Bool) → ℕ → Bool
passes test zero = true
passes test (suc k) = if test k then passes test k else false

of_passes : (test : ℕ → Bool) (k i : ℕ) → i < k → passes test k ≡ true → test i ≡ true
unfolding passes
of_passes test zero i b e = absurd (omega arith)
of_passes test (suc k) i b e = ground (arith, of_passes test k i)

-- The value of a hexadecimal digit.
pub digit : ℕ → ℕ
digit c = if ltb c b'a' then c - 48 else c - 87

pub is_hex : ℕ → Bool
is_hex c = (leb b'0' c && leb c b'9') || (leb b'a' c && leb c b'f')

digits_right : passes (λ i. digit (char_of hextable i) == i) 16 ≡ true
unfolding passes digit char_of
digits_right = refl

digits_hex : passes (λ i. is_hex (char_of hextable i)) 16 ≡ true
unfolding passes is_hex char_of
digits_hex = refl

digit-char_of : (i : ℕ) → i < 16 → digit (char_of hextable i) ≡ i
digit-char_of i h =
    (==_iff _ i).0 (of_passes (λ k. digit (char_of hextable k) == k) 16 i h digits_right)

is_hex-char_of : (i : ℕ) → i < 16 → is_hex (char_of hextable i) ≡ true
is_hex-char_of i h = of_passes (λ k. is_hex (char_of hextable k)) 16 i h digits_hex

-- The reader that undoes `hash_to_string`.
pub from_hex : Str → Str
from_hex [] = []
from_hex (c ∷ []) = []
from_hex (c ∷ d ∷ s) = (digit c * 16 + digit d) ∷ from_hex s

byte_back : (b : ℕ) → b < 256 → digit (high_to_char b) * 16 + digit (low_to_char b) ≡ b
unfolding high_to_char low_to_char
byte_back b h =
    omega (arith, digit-char_of (b / 16 % 16) (omega arith), digit-char_of (b % 16) (omega arith))

-- A digest determines the hash that it was made of.
pub from_hex-hash_to_string :
    (hash : Str) → All (λ b. b < 256) hash → from_hex (hash_to_string hash) ≡ hash
unfolding from_hex hash_to_string
from_hex-hash_to_string [] h = refl
from_hex-hash_to_string (b ∷ hash) h = rw (byte_back b h.0, from_hex-hash_to_string hash h.1)

pub hash_to_string-is_hex : (hash : Str) → All (λ c. is_hex c ≡ true) (hash_to_string hash)
unfolding hash_to_string high_to_char low_to_char
hash_to_string-is_hex [] = tt
hash_to_string-is_hex (b ∷ hash) = (
  is_hex-char_of (b / 16 % 16) (omega arith),
  (is_hex-char_of (b % 16) (omega arith), hash_to_string-is_hex hash),
)

pub length-hash_to_string : (hash : Str) → length (hash_to_string hash) ≡ 2 * length hash
unfolding hash_to_string
length-hash_to_string [] = refl
length-hash_to_string (b ∷ hash) = omega (arith, length-hash_to_string hash)

-- A keyed digest is empty, for an empty input or a key of another length, or has two hexadecimal
-- digits for each byte of the hash.
pub make_hex_digest_cases :
    (P : Platform) (input key : Str)
    → ((make_hex_digest P input key ≡ []) × ((input ≡ []) ⊎ (length key ≢ P.key_bytes)))
      ⊎ ((input ≢ [])
          × (length key ≡ P.key_bytes)
          × (length (make_hex_digest P input key) ≡ 2 * P.hash_bytes)
          × All (λ c. is_hex c ≡ true) (make_hex_digest P input key))
unfolding make_hex_digest
make_hex_digest_cases P [] key = inl (refl, inl refl)
make_hex_digest_cases P (c ∷ input) key = elim (Bool-cases (length key == P.key_bytes)) [
  | inl e ↦ rw e (
      inr (
        λ q. cc,
        (==_iff (length key) P.key_bytes).0 e,
        omega (
          arith,
          length-hash_to_string (P.generichash (c ∷ input) key),
          P.length-generichash (c ∷ input) key,
        ),
        hash_to_string-is_hex (P.generichash (c ∷ input) key),
      ))
  | inr e ↦ rw e (inl (refl, inr (λ q. ground arith)))
]

-- The digest under a key of the right size is not empty.
pub digest_full :
    (P : Platform) (input key : Str)
    → input ≢ []
    → length key ≡ P.key_bytes
    → is_empty (make_hex_digest P input key) ≡ false
digest_full P input key n s = elim (make_hex_digest_cases P input key) [
  | inl (e, inl m) ↦ absurd (n m)
  | inl (e, inr m) ↦ absurd (m s)
  | inr (a, b, size, c) ↦ full (make_hex_digest P input key) (omega (arith, size, P.hash_bytes-pos))
]
  where
    full : (s : Str) → 0 < length s → is_empty s ≡ false
    full [] h = absurd (omega (arith, h))
    full (c ∷ s) h = refl
