-- ===== src/Client/Credentials.antt =====
-- src/occase-db-tests.cpp against a node: a client that gets an identity and publishes a post with it.
use occase.Base.{
  ◌++◌, ◌≡◌, ◌≢◌, refl, sym, ◌∙◌, ap, false, [], ◌∷◌, some, ℤ, Str, codes, is_empty, length, ◌<◌,
  arith,
}
use occase.Platform.{Platform, string_at, object}
use occase.Platform.Ranges.{IsLong}
use occase.Exec.{Exec, ok}
use occase.Config.{Core}
use occase.Crypto.{make, make_key, make_hex_digest, rounds}
use occase.Crypto.Hex.{digest_full}
use occase.Crypto.Random.{make_chars, length-make_key}
use occase.Post.{Post, strip_query}
use occase.Post.Json.{to_json, from_json, from_json-to_json, IsRepresentable}
use occase.Worker.State.{World, hset, publish, send_redis}
use occase.Worker.Api.{
  chat_admin_id_key, user_id_json, publish_json, publish_ack_json, on_publish_impl, stamp,
}
use occase.Worker.Publishing.{publish_reaches_nodes}
use occase.Http.{Response, process_request, post}
use occase.Http.Routes.{get_user_id_reply, publish_reply}
use occase.Client.{
  UserCred, HttpRequest, make_req, test_post, to_size, cred_from_json, ack_from_json,
  publish_body_json, make_publish_body,
}
use occase.Client.Flows.{
  Bench, Prints, on_node, Wire, verdict, is_ok, make_request, get_cred, publish_with, cred_pub,
}

-- The node reads the target and the body of a client's request.
abbrev pub node : (P : Platform) → Core → ℤ → HttpRequest → Exec (World P) Response
node P cfg ret r =
    process_request P cfg ret (record { method = post; target = r.target; body = r.body })

-- The answer of the node to the clients of a bench.
abbrev pub asked : (P : Platform) → Core → ℤ → HttpRequest → Exec (Bench P) Response
asked P cfg ret r b = on_node b (node P cfg ret r b.node)

abbrev pub cred_of : (P : Platform) → Str → Str → UserCred
cred_of P user key = record { user = user; key = key; user_id = make_hex_digest P user key }

cred_from_json-user_id_json :
    (P : Platform) (cfg : Core) (user key : Str)
    → cred_from_json P (user_id_json P cfg user key) ≡ some (cred_of P user key)
unfolding cred_from_json user_id_json object
cred_from_json-user_id_json P cfg user key = simp (P.at-set, P.get_string-of_string)

ack_from_json-publish_ack_json :
    (P : Platform) (cfg : Core) (p : Post)
    → IsLong p.date
    → ack_from_json P (publish_ack_json P cfg p)
      ≡ some (record { admin_id = chat_admin_id_key; id = p.id; date = to_size p.date })
unfolding ack_from_json publish_ack_json object
ack_from_json-publish_ack_json P cfg p h =
    simp (P.at-set, P.get_string-of_string, P.get_long-of_int p.date h)

-- The fields of a publication that the node reads.
publish_body_fields :
    (P : Platform) (c : UserCred)
    → (string_at P (publish_body_json P c) (codes "user") ≡ some c.user)
      × (string_at P (publish_body_json P c) (codes "key") ≡ some c.key)
      × (P.at (publish_body_json P c) (codes "post") ≡ some (to_json P (test_post c)))
unfolding publish_body_json object
publish_body_fields P c = (
  simp (P.at-set, P.get_string-of_string),
  simp (P.at-set, P.get_string-of_string),
  simp (P.at-set),
)

test_post-IsRepresentable : (c : UserCred) → IsRepresentable (test_post c)
unfolding test_post
test_post-IsRepresentable c = record {
  date = omega arith;
  visualizations = omega arith;
  location = ground arith;
  product = ground arith;
  ex_details = ground arith;
  in_details = ground arith;
  range_values = ground arith;
}

stamp-IsRepresentable :
    (P : Platform) (cfg : Core) (p : Post) (hash id : Str) (now : ℤ)
    → IsRepresentable p
    → IsLong now
    → IsRepresentable (stamp P cfg p hash now id)
unfolding stamp
stamp-IsRepresentable P cfg p hash id now r h = record {
  date = h;
  visualizations = omega arith;
  location = r.location;
  product = r.product;
  ex_details = r.ex_details;
  in_details = r.in_details;
  range_values = r.range_values;
}

test_post_read :
    (P : Platform) (c : UserCred) → from_json P (to_json P (test_post c)) ≡ some (test_post c)
unfolding test_post strip_query
test_post_read P c = from_json-to_json P (test_post c) (test_post-IsRepresentable c)

-- The strings of `make` are as long as asked for.
made_length :
    (P : Platform) (n : ℤ) (g g' : P.Gen) (s : Str) → make P n g ≡ (s, g') → length s ≡ rounds n
made_length P n g g' s e = ap (λ r. length r.0) (sym e) ∙ (make_chars P n g).0

nonempty : (s : Str) → 0 < length s → s ≢ []
nonempty [] h e = omega (arith, h)
nonempty (c ∷ s) h e = cc

module _ (P : Platform) (cfg : Core) (ret : ℤ) where
  -- A new identity gives a digest.
  new_digest :
      (w : World P) (user key : Str) (g1 g2 : P.Gen)
      → 0 < rounds cfg.pwd_size
      → make P cfg.pwd_size w.gen ≡ (user, g1)
      → make_key P g1 ≡ (key, g2)
      → is_empty (make_hex_digest P user key) ≡ false
  new_digest w user key g1 g2 pos_size m k =
      let size = made_length P cfg.pwd_size w.gen g1 user m in
      digest_full P user key (nonempty user (omega (arith, size, pos_size)))
        (ap (λ r. length r.0) (sym k) ∙ length-make_key P g1)

  module _ (W : Wire (Bench P)) (prints : Prints W) where
    get_cred_reply :
        (host : Str) (b : Bench P) (user key text : Str) (g1 g2 : P.Gen)
        → make P cfg.pwd_size b.node.gen ≡ (user, g1)
        → make_key P g1 ≡ (key, g2)
        → P.dump (user_id_json P cfg user key) ≡ some text
        → get_cred P (asked P cfg ret) W host b ≡ (
          ok (cred_of P user key),
          record b {
            node = record (b.node) { gen = g2 };
            output = b.output ++ codes "Success: get-user-id" ∷ [];
          },
        )
    unfolding get_cred make_request make_req verdict is_ok
    get_cred_reply host b user key text g1 g2 m k d =
        let (r, status, body, e) =
          get_user_id_reply P cfg ret b.node user key [] text g1 g2 m k d in
        rw e (
          rw status (
            rw (prints (codes "Success: get-user-id") _) (
              rw body (
                rw (P.parse-dump_line _ text d)
                  (rw (cred_from_json-user_id_json P cfg user key) refl)))))

    publish_with_reply :
        (host : Str) (b : Bench P) (v : World P) (c : UserCred) (p : Post) (body ack : Str)
        → IsLong p.date
        → P.dump (publish_body_json P c) ≡ some body
        → P.dump (publish_ack_json P cfg p) ≡ some ack
        → on_publish_impl P cfg (publish_body_json P c) b.node ≡ (ok ack, v)
        → publish_with P (asked P cfg ret) W host c b ≡ (
          ok (record {
            cred = c;
            pack = record { admin_id = chat_admin_id_key; id = p.id; date = to_size p.date };
          }),
          record b { node = v; output = b.output ++ codes "Success: get-user-id" ∷ [] },
        )
    unfolding publish_with make_request make_req make_publish_body verdict is_ok
    publish_with_reply host b v c p body ack l d a h =
        let (r, status, text, e) =
          publish_reply P cfg ret b.node v (publish_body_json P c) body ack (P.parse-dump _ body d)
            h in
        rw d (
          rw e (
            rw status (
              rw (prints (codes "Success: get-user-id") _) (
                rw text (
                  rw (P.parse-dump_line _ ack a)
                    (rw (ack_from_json-publish_ack_json P cfg p l) refl))))))

    -- A client gets an identity from a node and publishes a post with it, and no text of the exchange
    -- is refused by the JSON library, names are of at least one character and the clock fits its type;
    -- a line that the client prints is put behind the others. The client then holds a user, a key and
    -- their digest, which is not empty, and the acknowledgement of its post: the post's id, the node's
    -- time and the key for the admin. Both answers had the status 200: the client has printed a success
    -- for each of its two checks, and no error. The node drew three strings, stored the post under that
    -- id and spread it, with the digest as its author.
    pub cred_pub_publishes :
        (host : Str) (b : Bench P) (user key id cred_text body msg ack : Str) (g1 g2 g3 : P.Gen)
        → 0 < rounds cfg.pwd_size
        → IsLong b.node.clock
        → make P cfg.pwd_size b.node.gen ≡ (user, g1)
        → make_key P g1 ≡ (key, g2)
        → make P cfg.pwd_size g2 ≡ (id, g3)
        → let c = cred_of P user key in
          let p = stamp P cfg (test_post c) c.user_id b.node.clock id in
          P.dump (user_id_json P cfg user key) ≡ some cred_text
          → P.dump (publish_body_json P c) ≡ some body
          → P.dump (publish_json P cfg p) ≡ some msg
          → P.dump (publish_ack_json P cfg p) ≡ some ack
          → (is_empty c.user_id ≡ false)
            × (cred_pub P (asked P cfg ret) W host b ≡ (
              ok (record {
                cred = c;
                pack = record {
                  admin_id = chat_admin_id_key;
                  id = id;
                  date = to_size b.node.clock;
                };
              }),
              record b {
                node =
                    send_redis
                      (hset cfg.redis.posts_key ((id, msg) ∷ [])
                        ∷ publish cfg.redis.posts_channel_key msg
                        ∷ [])
                      (record (b.node) { gen = g3 });
                output =
                    (b.output ++ codes "Success: get-user-id" ∷ [])
                    ++ codes "Success: get-user-id" ∷ [];
              },
            ))
    unfolding cred_pub stamp
    cred_pub_publishes host b user key id cred_text body msg ack g1 g2 g3 n l m k i d t s a =
        let w : World P = b.node in
        let c = cred_of P user key in
        let full = new_digest w user key g1 g2 n m k in
        let (f, g, h) = publish_body_fields P c in
        let published =
          publish_reaches_nodes cfg (record w { gen = g2 }) w (publish_body_json P c)
            (to_json P (test_post c)) user key (test_post c) id msg ack g3 f g full h
            (test_post_read P c) i
            (stamp-IsRepresentable P cfg (test_post c) c.user_id id w.clock
              (test_post-IsRepresentable c) l)
            s a in
        let got : Bench P = record b {
          node = record (b.node) { gen = g2 };
          output = b.output ++ codes "Success: get-user-id" ∷ [];
        } in
        (
          full,
          rw (get_cred_reply host b user key cred_text g1 g2 m k d) (
              rw
                (publish_with_reply host got
                  (send_redis
                    (hset cfg.redis.posts_key ((id, msg) ∷ [])
                      ∷ publish cfg.redis.posts_channel_key msg
                      ∷ [])
                    (record (b.node) { gen = g3 }))
                  c (stamp P cfg (test_post c) c.user_id w.clock id) body ack l t a published.0)
                refl),
        )
