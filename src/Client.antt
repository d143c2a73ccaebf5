-- ===== src/Client.antt =====
-- src/occase-db-tests.cpp: the client that exercises a node, as the texts it sends and reads. The
-- connection to the node is a parameter.
pub mod Flows
pub mod Texts
pub mod Credentials
pub mod Offline
pub mod Sockets
pub mod Relay
pub mod Turns
pub mod Main
use occase.Base.{
  ℕ, ◌-◌, ◌%◌, Bool, [], ◌∷◌, Option, none, some, ℤ, pos, negsuc, Str, codes, str_eq, length,
  if◌then◌else◌,
}
use occase.Platform.{Platform, object, string_at}
use occase.Post.{Post, empty_post}
use occase.Post.Json.{to_json, get_optional_field, ◌>>=◌}

pub record UserCred : Type 0 where
  pub user : Str
  pub key : Str
  pub user_id : Str

pub record PubAck : Type 0 where
  pub admin_id : Str
  pub id : Str
  pub date : ℕ

pub record Message : Type 0 where
  pub cmd : Str
  pub to : Str
  pub from : Str
  pub message : Str
  pub post_id : Str
  pub nick : Str
  pub type : Str
  pub is_redirected : ℤ
  pub refers_to : ℤ
  pub id : ℤ

pub record CredPubHelper : Type 0 where
  pub cred : UserCred
  pub pack : PubAck

-- `message msg;`
abbrev pub new_message : Message
new_message = record {
  cmd = codes "message";
  to = [];
  from = [];
  message = codes "Tenho interesse";
  post_id = [];
  nick = [];
  type = codes "chat";
  is_redirected = pos 0;
  refers_to = negsuc 0;
  id = pos 23;
}

abbrev pub no_cred_pub : CredPubHelper
no_cred_pub = record {
  cred = record { user = []; key = []; user_id = [] };
  pack = record { admin_id = []; id = []; date = 0 };
}

-- The request of a client.
pub record HttpRequest : Type 0 where
  pub version : ℤ
  pub method : Str
  pub target : Str
  pub host : Str
  pub user_agent : Str
  pub content_type : Str
  pub content_length : ℕ
  pub body : Str

unfoldable pub make_req : Str → Str → Str → HttpRequest
make_req host target body = record {
  version = pos 11;
  method = codes "POST";
  target = target;
  host = host;
  user_agent = codes "occase-db-test";
  content_type = codes "application/json";
  content_length = length body;
  body = body;
}

-- The conversion of a number to std::size_t.
unfoldable pub to_size : ℤ → ℕ
to_size (pos n) = n % 18446744073709551616
to_size (negsuc n) = 18446744073709551615 - n % 18446744073709551616

-- The post of `make_publish_body`.
unfoldable pub test_post : UserCred → Post
test_post cred = record empty_post {
  from = cred.user_id;
  location = pos 1 ∷ pos 2 ∷ pos 3 ∷ pos 4 ∷ [];
  product = pos 1 ∷ pos 2 ∷ pos 3 ∷ [];
  ex_details = pos 1 ∷ pos 2 ∷ pos 3 ∷ [];
  in_details = 1 ∷ 2 ∷ 3 ∷ [];
  range_values = pos 1 ∷ pos 2 ∷ pos 3 ∷ [];
  images = [] ∷ [];
}

module _ (P : Platform) where
  open P use {Json, parse, dump, at, get_string, get_int, get_long, of_string, of_int}

  unfoldable pub cred_from_json : Json → Option UserCred
  cred_from_json j = do
    user ← string_at P j (codes "user")
    key ← string_at P j (codes "key")
    user_id ← string_at P j (codes "user_id")
    some (record { user = user; key = key; user_id = user_id })

  -- The user is written as the field "date".
  unfoldable pub cred_to_json : UserCred → Json
  cred_to_json e = object P (
      (codes "date", of_string e.user)
      ∷ (codes "key", of_string e.key)
      ∷ (codes "user_id", of_string e.user_id)
      ∷ [])

  unfoldable pub ack_from_json : Json → Option PubAck
  ack_from_json j = do
    admin_id ← string_at P j (codes "admin_id")
    id ← string_at P j (codes "id")
    date ← at j (codes "date") >>= get_long
    some (record { admin_id = admin_id; id = id; date = to_size date })

  unfoldable pub ack_to_json : PubAck → Json
  ack_to_json e = object P (
      (codes "admin_id", of_string e.admin_id)
      ∷ (codes "id", of_string e.id)
      ∷ (codes "date", of_int (pos e.date))
      ∷ [])

  unfoldable pub message_from_json : Json → Option Message
  message_from_json j = do
    cmd ← string_at P j (codes "cmd")
    post_id ← string_at P j (codes "post_id")
    from ← string_at P j (codes "from")
    to ← get_optional_field P [] get_string j (codes "to")
    message ← get_optional_field P [] get_string j (codes "message")
    nick ← get_optional_field P [] get_string j (codes "nick")
    type ← get_optional_field P [] get_string j (codes "type")
    is_redirected ← get_optional_field P (pos 0) get_int j (codes "is_redirected")
    refers_to ← get_optional_field P (pos 0) get_int j (codes "refers_to")
    id ← get_optional_field P (pos 0) get_int j (codes "id")
    some (record {
      cmd = cmd;
      to = to;
      from = from;
      message = message;
      post_id = post_id;
      nick = nick;
      type = type;
      is_redirected = is_redirected;
      refers_to = refers_to;
      id = id;
    })

  unfoldable pub message_to_json : Message → Json
  message_to_json e = object P (
      (codes "cmd", of_string e.cmd)
      ∷ (codes "to", of_string e.to)
      ∷ (codes "message", of_string e.message)
      ∷ (codes "post_id", of_string e.post_id)
      ∷ (codes "nick", of_string e.nick)
      ∷ (codes "type", of_string e.type)
      ∷ (codes "from", of_string e.from)
      ∷ (codes "is_redirected", of_int e.is_redirected)
      ∷ (codes "refers_to", of_int e.refers_to)
      ∷ (codes "id", of_int e.id)
      ∷ [])

  -- The texts that a client sends, and the values that they are written from.
  unfoldable pub login_json : UserCred → Json
  login_json cred = object P (
      (codes "cmd", of_string (codes "login"))
      ∷ (codes "user", of_string cred.user)
      ∷ (codes "key", of_string cred.key)
      ∷ [])

  unfoldable pub make_login : UserCred → Option Str
  make_login cred = dump (login_json cred)

  unfoldable pub publish_body_json : UserCred → Json
  publish_body_json cred = object P (
      (codes "user", of_string cred.user)
      ∷ (codes "key", of_string cred.key)
      ∷ (codes "post", to_json P (test_post cred))
      ∷ [])

  unfoldable pub make_publish_body : UserCred → Option Str
  make_publish_body cred = dump (publish_body_json cred)

  unfoldable pub message_to : Str → Str → Str → Message
  message_to to post_id body = record new_message { to = to; post_id = post_id; message = body }

  unfoldable pub make_message : Str → Str → Str → Option Str
  unfolding message_to
  make_message to post_id body = dump (message_to_json (message_to to post_id body))

  unfoldable pub make_search_body : Option Str
  make_search_body = dump (object P ((codes "post", to_json P empty_post) ∷ []))

  -- Whether the check passes; it throws where it does not.
  unfoldable pub check_result : Json → Str → Option (Unit {0})
  check_result j expected = do
    res ← string_at P j (codes "result")
    if str_eq res expected then some tt else none
