-- ===== src/Examples/Toy.antt =====
-- A platform that runs: JSON values are trees of numbers, written in prefix order.
use occase.Base.{
  ℕ, zero, suc, ◌%◌, ◌≤◌, ◌<◌, ◌≡◌, ◌≢◌, refl, ap, Bool, true, false, List, [], ◌∷◌, ◌++◌, map,
  Option, none, some, ℤ, pos, negsuc, Str, str_eq, length, length-append, arith, sym, ◌∙◌,
  if◌then◌else◌, maybe, append_assoc, append-nil,
}
use native.Mathlib.Nat.{mod-lt}
use occase.Platform.{Platform}
use occase.Session.{MsgEntry}

pub data Tree : Type 0 where
  nil : Tree
  atom : ℕ → Tree
  cons : Tree → Tree → Tree

abbrev both : {A B C : Type 0} → (A → B → C) → Option A → Option B → Option C
both f (some a) (some b) = some (f a b)
both f (some a) none = none
both f none o = none

abbrev pub write : Tree → Str
write nil = 0 ∷ []
write (atom n) = 1 ∷ n ∷ []
write (cons a b) = 2 ∷ write a ++ write b

pub write_full : (t : Tree) → write t ≢ []
write_full nil e = cc
write_full (atom n) e = cc
write_full (cons a b) e = cc

abbrev read : ℕ → Str → Option (Tree × Str)
read zero s = none
read (suc f) [] = none
read (suc f) (zero ∷ s) = some (nil, s)
read (suc f) (suc zero ∷ []) = none
read (suc f) (suc zero ∷ n ∷ s) = some (atom n, s)
read (suc f) (suc (suc zero) ∷ s) =
    maybe (read f s) none (λ (a, t). maybe (read f t) none (λ (b, u). some (cons a b, u)))
read (suc f) (suc (suc (suc c)) ∷ s) = none

read-write :
    (j : Tree) (f : ℕ) (s : Str) → length (write j) ≤ f → read f (write j ++ s) ≡ some (j, s)
read-write nil zero s h = ground arith
read-write nil (suc f) s h = refl
read-write (atom n) zero s h = ground arith
read-write (atom n) (suc f) s h = refl
read-write (cons a b) zero s h = ground arith
read-write (cons a b) (suc f) s h =
    let n = length-append (write a) (write b) in
    rw (append_assoc (write a) (write b) s) (
      rw (read-write a f (write b ++ s) (omega (arith, n, h)))
        (rw (read-write b f s (omega (arith, n, h))) refl))

abbrev whole : Option (Tree × Str) → Option Tree
whole none = none
whole (some (j, [])) = some j
whole (some (j, c ∷ s)) = if str_eq (c ∷ s) (13 ∷ 10 ∷ []) then some j else none

abbrev pub parse : Str → Option Tree
parse s = whole (read (length s) s)

parse-write : (j : Tree) → parse (write j) ≡ some j
parse-write j = ap whole (
    ap (read (length (write j))) (sym (append-nil (write j)))
    ∙ read-write j (length (write j)) [] (omega arith))

parse-write_line : (j : Tree) → parse (write j ++ 13 ∷ 10 ∷ []) ≡ some j
parse-write_line j = ap whole (
    read-write j (length (write j ++ 13 ∷ 10 ∷ [])) (13 ∷ 10 ∷ [])
      (omega (arith, length-append (write j) (13 ∷ 10 ∷ []))))

some_inj : {A : Type 0} (a b : A) → some a ≡ some b → a ≡ b
some_inj a b e = cc

pub parse_written : (j : Tree) (s : Str) → some (write j) ≡ some s → parse s ≡ some j
parse_written j s e = ap parse (sym (some_inj (write j) s e)) ∙ parse-write j

pub parse_line : (j : Tree) (s : Str) → some (write j) ≡ some s → parse (s ++ 13 ∷ 10 ∷ []) ≡ some j
parse_line j s e =
    ap (λ t. parse (t ++ 13 ∷ 10 ∷ [])) (sym (some_inj (write j) s e)) ∙ parse-write_line j

-- Texts, numbers and lists of them.
abbrev pub chars : Str → Tree
chars [] = nil
chars (c ∷ s) = cons (atom c) (chars s)

abbrev unchars : Tree → Option Str
unchars (cons (atom c) t) = maybe (unchars t) none (λ s. some (c ∷ s))
unchars nil = some []
unchars _ = none

abbrev pub num : ℤ → Tree
num (pos n) = cons (atom 0) (atom n)
num (negsuc n) = cons (atom 1) (atom n)

abbrev unnum : Tree → Option ℤ
unnum (cons (atom zero) (atom n)) = some (pos n)
unnum (cons (atom (suc s)) (atom n)) = some (negsuc n)
unnum _ = none

abbrev pub trees : List Tree → Tree
trees [] = nil
trees (t ∷ ts) = cons t (trees ts)

abbrev untrees : {A : Type 0} → (Tree → Option A) → Tree → Option (List A)
untrees f (cons t ts) = both ◌∷◌ (f t) (untrees f ts)
untrees f nil = some []
untrees f (atom n) = none

pub unchars-chars : (s : Str) → unchars (chars s) ≡ some s
unchars-chars [] = refl
unchars-chars (c ∷ s) = rw (unchars-chars s) refl

pub unnum-num : (i : ℤ) → unnum (num i) ≡ some i
unnum-num (pos n) = refl
unnum-num (negsuc n) = refl

pub untrees-trees :
    {A : Type 0} (f : Tree → Option A) (g : A → Tree) (h : (a : A) → f (g a) ≡ some a) (l : List A)
    → untrees f (trees (map g l)) ≡ some l
untrees-trees f g h [] = refl
untrees-trees f g h (a ∷ l) = rw (h a) (rw (untrees-trees f g h l) refl)

-- An object is the list of its fields.
abbrev field : Str → Option Str → Tree → Option Tree → Option Tree
field i none v o = o
field i (some k) v o = if str_eq k i then some v else o

abbrev pub at : Tree → Str → Option Tree
at (cons (cons k v) j) i = field i (unchars k) v (at j i)
at _ i = none

abbrev is_nil : Tree → Bool
is_nil nil = true
is_nil _ = false

-- A string that was moved from is empty.
abbrev pub moved : MsgEntry → MsgEntry
moved m = record m { msg = [] }

pub mod_bound : (b g : ℕ) → g % suc b ≤ b
mod_bound b g = let below : g % suc b < suc b = mod-lt g (omega arith) in omega (arith, below)

abbrev pub toy : Platform
toy = record {
  Json = Tree;
  parse = parse;
  dump = λ j. some (write j);
  parse-dump = parse_written;
  parse-dump_line = parse_line;
  at = at;
  get_string = unchars;
  get_int = unnum;
  get_long = unnum;
  get_ints = untrees unnum;
  get_codes = unchars;
  get_strings = untrees unchars;
  json_empty = is_nil;
  empty_object = nil;
  set = λ j k v. cons (cons (chars k) v) j;
  of_string = chars;
  of_int = num;
  of_ints = λ l. trees (map num l);
  of_codes = chars;
  of_strings = λ l. trees (map chars l);
  of_list = trees;
  at-empty = λ i. refl;
  at-set = λ j k i v. rw (unchars-chars k) refl;
  get_string-of_string = unchars-chars;
  get_int-of_int = λ i h. unnum-num i;
  get_long-of_int = λ i h. unnum-num i;
  get_ints-of_ints = λ l h. untrees-trees unnum num unnum-num l;
  get_codes-of_codes = λ l h. unchars-chars l;
  get_strings-of_strings = λ l. untrees-trees unchars chars unchars-chars l;
  key_bytes = 2;
  hash_bytes = 1;
  hash_bytes-pos = omega arith;
  generichash = λ m k. 171 ∷ [];
  length-generichash = λ m k. refl;
  generichash_bytes = λ m k. (omega arith, tt);
  Gen = ℕ;
  moved_from = map moved;
  draw = λ b g. (g % suc b, suc g);
  draw_bound = λ b g. mod_bound b g;
}
