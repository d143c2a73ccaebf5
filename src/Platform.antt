-- ===== src/Platform.antt =====
-- The libraries that the program calls and the repository does not hold: nlohmann::json, libsodium,
-- what the standard library leaves in values that were moved from,
-- and the random numbers of the standard library. Their operations are fields, and what the code relies on
-- is stated as laws. `none` stands for an exception.
pub mod Ranges
use occase.Base.{
  ℕ, ◌<◌, ◌≤◌, ◌≡◌, Bool, List, [], ◌∷◌, ◌++◌, Option, none, some, ℤ, Str, str_eq, length, All,
  if◌then◌else◌,
}
use occase.Session.{MsgEntry}
use Ranges.{IsInt, IsLong, IsCode}

pub record Platform : Type 1 where
  pub Json : Type 0
  -- json::parse and dump, which throws on text that is not UTF-8
  pub parse : Str → Option Json
  pub dump : Json → Option Str
  pub parse-dump : (j : Json) (s : Str) → dump j ≡ some s → parse s ≡ some j
  -- white space behind the text is skipped; a line end is what the code relies on
  pub parse-dump_line : (j : Json) (s : Str) → dump j ≡ some s → parse (s ++ 13 ∷ 10 ∷ []) ≡ some j
  -- `at`, which throws where `find` returns the end
  pub at : Json → Str → Option Json
  -- `get<T>()`, by its type
  pub get_string : Json → Option Str
  pub get_int : Json → Option ℤ
  pub get_long : Json → Option ℤ
  pub get_ints : Json → Option (List ℤ)
  pub get_codes : Json → Option (List ℕ)
  pub get_strings : Json → Option (List Str)
  pub json_empty : Json → Bool
  -- `json j;`, values, and `j[key] = value` on an object
  pub empty_object : Json
  pub set : Json → Str → Json → Json
  pub of_string : Str → Json
  pub of_int : ℤ → Json
  pub of_ints : List ℤ → Json
  pub of_codes : List ℕ → Json
  pub of_strings : List Str → Json
  pub of_list : List Json → Json
  pub at-empty : (i : Str) → at empty_object i ≡ none
  pub at-set :
      (j : Json) (k i : Str) (v : Json) → at (set j k v) i ≡ (if str_eq k i then some v else at j i)
  pub get_string-of_string : (s : Str) → get_string (of_string s) ≡ some s
  pub get_int-of_int : (i : ℤ) → IsInt i → get_int (of_int i) ≡ some i
  pub get_long-of_int : (i : ℤ) → IsLong i → get_long (of_int i) ≡ some i
  pub get_ints-of_ints : (l : List ℤ) → All IsInt l → get_ints (of_ints l) ≡ some l
  pub get_codes-of_codes : (l : List ℕ) → All IsCode l → get_codes (of_codes l) ≡ some l
  pub get_strings-of_strings : (l : List Str) → get_strings (of_strings l) ≡ some l
  -- crypto_generichash_KEYBYTES, the hash size that the code chooses, and the keyed hash; the empty
  -- key stands for no key
  pub key_bytes : ℕ
  pub hash_bytes : ℕ
  pub hash_bytes-pos : 0 < hash_bytes
  pub generichash : Str → Str → Str
  pub length-generichash : (m k : Str) → length (generichash m k) ≡ hash_bytes
  pub generichash_bytes : (m k : Str) → All (λ b. b < 256) (generichash m k)
  -- the entries of a queue after std::remove_if and after the strings of the entries that it keeps
  -- were moved from; their values are not specified
  pub moved_from : List MsgEntry → List MsgEntry
  -- a call of std::uniform_int_distribution with the bounds 0 and `b`, both included
  pub Gen : Type 0
  pub draw : ℕ → Gen → ℕ × Gen
  pub draw_bound : (b : ℕ) (g : Gen) → (draw b g).0 ≤ b

module _ (P : Platform) where
  open P use {Json, empty_object, set, at, get_string}

  abbrev string_of : Option Json → Option Str
  string_of none = none
  string_of (some j) = get_string j

  -- `j.at(k).get<std::string>()`
  abbrev pub string_at : Json → Str → Option Str
  string_at j k = string_of (at j k)

  -- `json j; j[k] = v; ...`, from the fields in order.
  set_all : Json → List (Str × Json) → Json
  set_all j [] = j
  set_all j ((k, v) ∷ fs) = set_all (set j k v) fs

  unfoldable pub object : List (Str × Json) → Json
  unfolding set_all
  object fs = set_all empty_object fs
