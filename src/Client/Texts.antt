-- ===== src/Client/Texts.antt =====
-- src/occase-db-tests.cpp: what a client reads of what was written.
use occase.Base.{◌≡◌, some, codes, Str}
use occase.Platform.{Platform, object}
use occase.Platform.Ranges.{IsInt}
use occase.Client.{Message, message_from_json, message_to_json}
use occase.Post.Json.{get_optional_field}

-- Reading back a message that was written gives the message.
pub message_from_json-message_to_json :
    (P : Platform) (e : Message)
    → IsInt e.is_redirected
    → IsInt e.refers_to
    → IsInt e.id
    → message_from_json P (message_to_json P e) ≡ some e
unfolding message_from_json message_to_json object get_optional_field
message_from_json-message_to_json P e r f i = simp (
  P.at-set,
  P.get_string-of_string,
  P.get_int-of_int e.is_redirected r,
  P.get_int-of_int e.refers_to f,
  P.get_int-of_int e.id i,
)

-- And what a node passes on is read as the message that was sent, from the sender that the node names.
pub signed_read :
    (P : Platform) (e : Message) (from : Str)
    → IsInt e.is_redirected
    → IsInt e.refers_to
    → IsInt e.id
    → message_from_json P (P.set (message_to_json P e) (codes "from") (P.of_string from))
      ≡ some (record e { from = from })
unfolding message_from_json message_to_json object get_optional_field
signed_read P e from r f i = simp (
  P.at-set,
  P.get_string-of_string,
  P.get_int-of_int e.is_redirected r,
  P.get_int-of_int e.refers_to f,
  P.get_int-of_int e.id i,
)
