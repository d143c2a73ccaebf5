-- ===== src/Post.antt =====
-- src/post.hpp, src/post.cpp: the post, the multimedia directory of a file name, and the removal
-- of the query part of an image's address. The JSON form of a post is in Post/Json.antt.
pub mod Sizes
pub mod Json
use Sizes
use occase.Base.{
  ℕ, ◌+◌, Bool, true, false, List, [], ◌∷◌, ◌++◌, map, ℤ, pos, Str, take, drop, ◌==◌, if◌then◌else◌,
}

pub record Post : Type 0 where
  pub date : ℤ
  pub visualizations : ℤ
  pub id : Str
  pub from : Str
  pub nick : Str
  pub avatar : Str
  pub description : Str
  pub location : List ℤ
  pub product : List ℤ
  pub ex_details : List ℤ
  pub in_details : List ℕ
  pub range_values : List ℤ
  pub images : List Str

-- `post {}`. (`post p;` leaves `visualizations` indeterminate; no code reads it there.)
abbrev pub empty_post : Post
empty_post = record {
  date = pos 0;
  visualizations = pos 0;
  id = [];
  from = [];
  nick = [];
  avatar = [];
  description = [];
  location = [];
  product = [];
  ex_details = [];
  in_details = [];
  range_values = [];
  images = [];
}

-- `s.erase(s.find('?'))`, if there is one.
unfoldable pub strip_query : Str → Str
strip_query [] = []
strip_query (c ∷ s) = if c == b'?' then [] else c ∷ strip_query s

-- `path.append(filename.data(), pos, n)`
abbrev append_part : Str → Str → ℕ → ℕ → Str
append_part path filename start n = path ++ take n (drop start filename)

unfoldable pub make_dir : Str → Str
make_dir filename =
    let x = append_part (b'/' ∷ []) filename 0 Sizes.a in
    let y = append_part (x ++ b'/' ∷ []) filename (0 + Sizes.a) Sizes.b in
    append_part (y ++ b'/' ∷ []) filename (0 + Sizes.a + Sizes.b) Sizes.c
