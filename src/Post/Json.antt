-- ===== src/Post/Json.antt =====
-- src/post.cpp: `to_json` and `from_json`, and src/post.hpp: `get_optional_field`.
use occase.Base.{◌≡◌, [], ◌∷◌, map, Option, none, some, pos, Str, codes, All}
use occase.Platform.{Platform, object}
use occase.Platform.Ranges.{IsInt, IsLong, IsCode}
use occase.Post.{Post, strip_query}

infixl 5 ◌>>=◌
abbrev pub ◌>>=◌ {ℓ κ} : {A : Type ℓ} {B : Type κ} → Option A → (A → Option B) → Option B
none >>= f = none
some a >>= f = f a

module _ (P : Platform) where
  open P use {
    Json, at, get_string, get_int, get_long, get_ints, get_codes, get_strings, of_string, of_int,
    of_ints, of_codes, of_strings,
  }

  pub to_json : Post → Json
  to_json e = object P (
      (codes "date", of_int e.date)
      ∷ (codes "id", of_string e.id)
      ∷ (codes "visualizations", of_int e.visualizations)
      ∷ (codes "from", of_string e.from)
      ∷ (codes "nick", of_string e.nick)
      ∷ (codes "avatar", of_string e.avatar)
      ∷ (codes "description", of_string e.description)
      ∷ (codes "location", of_ints e.location)
      ∷ (codes "product", of_ints e.product)
      ∷ (codes "ex_details", of_ints e.ex_details)
      ∷ (codes "in_details", of_codes e.in_details)
      ∷ (codes "range_values", of_ints e.range_values)
      ∷ (codes "images", of_strings e.images)
      ∷ [])

  -- A missing field has the value of `T {}`, one of another type throws.
  or_default : {A : Type 0} → A → (Json → Option A) → Option Json → Option A
  or_default d get none = some d
  or_default d get (some m) = get m

  unfoldable pub get_optional_field : {A : Type 0} → A → (Json → Option A) → Json → Str → Option A
  unfolding or_default
  get_optional_field d get j v = or_default d get (at j v)

  pub from_json : Json → Option Post
  unfolding get_optional_field
  from_json j = do
    date ← at j (codes "date") >>= get_long
    id ← at j (codes "id") >>= get_string
    visualizations ← get_optional_field (pos 0) get_int j (codes "visualizations")
    from ← at j (codes "from") >>= get_string
    nick ← at j (codes "nick") >>= get_string
    avatar ← at j (codes "avatar") >>= get_string
    description ← at j (codes "description") >>= get_string
    location ← at j (codes "location") >>= get_ints
    product ← at j (codes "product") >>= get_ints
    ex_details ← at j (codes "ex_details") >>= get_ints
    in_details ← at j (codes "in_details") >>= get_codes
    range_values ← at j (codes "range_values") >>= get_ints
    images ← at j (codes "images") >>= get_strings
    some (record {
      date = date;
      visualizations = visualizations;
      id = id;
      from = from;
      nick = nick;
      avatar = avatar;
      description = description;
      location = location;
      product = product;
      ex_details = ex_details;
      in_details = in_details;
      range_values = range_values;
      images = map strip_query images;
    })

-- The numbers of the post fit their C++ types.
pub record IsRepresentable (p : Post) : Type 0 where
  pub date : IsLong p.date
  pub visualizations : IsInt p.visualizations
  pub location : All IsInt p.location
  pub product : All IsInt p.product
  pub ex_details : All IsInt p.ex_details
  pub in_details : All IsCode p.in_details
  pub range_values : All IsInt p.range_values

-- Reading back a post that was written gives the post, with the queries of its images removed.
pub from_json-to_json :
    (P : Platform) (p : Post)
    → IsRepresentable p
    → from_json P (to_json P p) ≡ some (record p { images = map strip_query p.images })
unfolding from_json to_json object
from_json-to_json P p h = simp (
  P.at-set,
  P.get_string-of_string,
  P.get_long-of_int p.date h.date,
  P.get_int-of_int p.visualizations h.visualizations,
  P.get_ints-of_ints p.location h.location,
  P.get_ints-of_ints p.product h.product,
  P.get_ints-of_ints p.ex_details h.ex_details,
  P.get_codes-of_codes p.in_details h.in_details,
  P.get_ints-of_ints p.range_values h.range_values,
  P.get_strings-of_strings p.images,
)
