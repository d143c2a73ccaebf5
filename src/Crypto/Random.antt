-- ===== src/Crypto/Random.antt =====
-- src/crypto.cpp, `pwd_gen::make`: the random strings.
use occase.Base.{
  ℕ, zero, suc, ◌<◌, ◌≡◌, refl, ◌≢◌, Bool, true, [], ◌∷◌, Str, length, All, arith, ap, leb, ◌&&◌,
  ◌||◌, ℤ, pos, All-map_imp,
}
use occase.Platform.{Platform}
use occase.Crypto.{make_key, make, make_loop, char_of, pwdchars, dist_max, rounds, sep}

-- A lower-case letter or a decimal digit.
abbrev pub is_pwd_char : ℕ → Bool
is_pwd_char c = (leb b'0' c && leb c b'9') || (leb b'a' c && leb c b'z')

abbrev pub IsPwdChar : ℕ → Type 0
IsPwdChar c = is_pwd_char c ≡ true

char_of_all :
    (P : ℕ → Type 0) (table : Str) (i : ℕ) → All P table → i < length table → P (char_of table i)
unfolding char_of
char_of_all P [] i h lt = absurd (omega arith)
char_of_all P (c ∷ table) zero h lt = h.0
char_of_all P (c ∷ table) (suc i) h lt = char_of_all P table i h.1 (omega arith)

every : (ℕ → Bool) → Str → Bool
every p [] = true
every p (c ∷ s) = p c && every p s

every_sound : (p : ℕ → Bool) (s : Str) → every p s ≡ true → All (λ c. p c ≡ true) s
unfolding every
every_sound p [] h = tt
every_sound p (c ∷ s) h = (ground arith, every_sound p s (ground arith))

pwdchars-every : every is_pwd_char pwdchars ≡ true
unfolding every
pwdchars-every = refl

-- The distribution gives places of the table only: its upper bound is the last one.
draw_in_table : (P : Platform) (gen : P.Gen) → (P.draw dist_max gen).0 < length pwdchars
unfolding dist_max
draw_in_table P gen = omega (arith, P.draw_bound dist_max gen)

make_loop_chars :
    (P : Platform) (n : ℕ) (gen : P.Gen)
    → (length (make_loop P n gen).0 ≡ n) × All IsPwdChar (make_loop P n gen).0
unfolding make_loop
make_loop_chars P zero gen = (refl, tt)
make_loop_chars P (suc n) gen =
    let (size, chars) = make_loop_chars P n (P.draw dist_max gen).1 in
    let table = every_sound is_pwd_char pwdchars pwdchars-every in
    (
      ap suc size,
      (char_of_all IsPwdChar pwdchars (P.draw dist_max gen).0 table (draw_in_table P gen), chars),
    )

-- A random string has as many characters as asked for, none if that number is negative, and each is
-- a lower-case letter or a digit: neither the separator nor the null character that ends the table is
-- among them. The distribution is one whose numbers are at most the upper bound that it is given.
pub make_chars :
    (P : Platform) (n : ℤ) (gen : P.Gen)
    → (length (make P n gen).0 ≡ rounds n)
      × All IsPwdChar (make P n gen).0
      × All (λ c. (c ≢ sep) × (c ≢ 0)) (make P n gen).0
unfolding make
make_chars P n gen =
    let (size, chars) = make_loop_chars P (rounds n) gen in
    (
      size,
      chars,
      All-map_imp IsPwdChar (λ c. (c ≢ sep) × (c ≢ 0))
          (λ c h. (λ e. ground arith, λ e. ground arith)) _ chars,
    )

pub length-make_key : (P : Platform) (gen : P.Gen) → length (make_key P gen).0 ≡ P.key_bytes
unfolding make_key
length-make_key P gen = (make_chars P (pos P.key_bytes) gen).0
