-- ===== src/Http.antt =====
-- src/http_session_impl.hpp: the HTTP interface of a node: the target of a request, and the handlers,
-- which give the answer that `do_write` sends. `ret` is the indeterminate value of `channel::count`.
pub mod Target
pub mod Errors
pub mod Answers
pub mod Routes
pub mod Search
pub mod Connection
use occase.Base.{
  ℕ, zero, suc, ◌+◌, ◌-◌, ◌/◌, ◌%◌, Bool, true, false, ◌&&◌, ◌==◌, List, [], ◌∷◌, ◌++◌, map, Option,
  none, some, ℤ, pos, negsuc, Str, codes, str_eq, is_empty, ltb, take, drop, length, if◌then◌else◌,
}
use occase.Platform.{Platform, object, string_at}
use occase.Exec.{Exec, ok, pure, modify, gets, or_throw, catching, ◌>>=◌, ◌>>◌}
use occase.Config.{Core}
use occase.Post.{Post, empty_post}
use occase.Post.Json.{to_json, from_json}
use occase.Worker.State.{World}
use occase.Worker.Api

pub data Method : Type 0 where
  get post : Method
  other : Str → Method

pub record Request : Type 0 where
  pub method : Method
  pub target : Str
  pub body : Str

pub data Status : Type 0 where
  success not_found bad_request : Status

-- The answer, with the fields that are set; "" stands for a field that is not.
pub record Response : Type 0 where
  pub status : Status
  pub server : Str
  pub content_type : Str
  pub content_length : ℕ
  pub allow_origin : Str
  pub body : Str

abbrev pub no_response : Response
no_response = record {
  status = success;
  server = [];
  content_type = [];
  content_length = 0;
  allow_origin = [];
  body = [];
}

-- `t.back()` of a text that is not empty.
unfoldable pub last_code : Str → ℕ
last_code [] = 0
last_code (c ∷ []) = c
last_code (c ∷ d ∷ s) = last_code (d ∷ s)

pub prepare_target : Str → ℕ → Str
prepare_target [] s = []
prepare_target (c ∷ t) s =
    let b1 = c == s in
    let b2 = last_code (c ∷ t) == s in
    if b1 && b2
    then take (length (c ∷ t) - 1) (drop 1 (c ∷ t))
    else if b1
    then take (length (c ∷ t)) (drop 1 (c ∷ t))
    else if b2
    then take (length (c ∷ t) - 1) (c ∷ t)
    else c ∷ t

-- `t.compare(0, sizeof s, s) == 0`: the size of the array counts the final zero.
unfoldable pub matches : Str → Str → Bool
matches t s = str_eq (take (length s + 1) t) s

-- `std::to_string`
abbrev digits : ℕ → ℕ → Str → Str
digits zero n s = s
digits (suc f) n s =
    let rest = digits f (n / 10) ((48 + n % 10) ∷ s) in if ltb n 10 then (48 + n) ∷ s else rest

abbrev pub int_to_string : ℤ → Str
int_to_string (pos n) = digits (suc n) n []
int_to_string (negsuc n) = codes "-" ++ digits (suc (suc n)) (suc n) []

abbrev pub crlf : Str
crlf = 13 ∷ 10 ∷ []

unfoldable pub set_not_fount_header : Response → Response
set_not_fount_header r = record r {
  status = not_found;
  content_type = codes "text/plain";
  body = codes "File not found\r\n";
}

-- A content type and a body.
unfoldable pub answer : Str → Str → Response → Response
answer content_type body r = record r { content_type = content_type; body = body }

abbrev pub json_type : Str
json_type = codes "application/json"

module _ (P : Platform) (cfg : Core) (ret : ℤ) where
  open P use {Json, parse, dump, at, of_list, of_strings}

  -- The post of the body, or an empty one.
  pub search_key : Str → Exec (World P) Post
  search_key body = if is_empty body then pure empty_post else (do
    j ← or_throw (parse body)
    field ← or_throw (at j (codes "post"))
    or_throw (from_json P field))

  pub post_search_handler : Bool → Request → Response → Exec (World P) Response
  post_search_handler only_count req r = catching (set_not_fount_header r) (do
    p ← search_key req.body
    if only_count
        then (do
          n ← gets (Api.count_posts P cfg ret p)
          pure (answer json_type (int_to_string n ++ crlf) r))
        else (do
          posts ← gets (Api.search_posts P cfg p)
          body ← or_throw (dump (object P ((codes "posts", of_list (map (to_json P) posts)) ∷ [])))
          pure (answer json_type (body ++ crlf) r)))

  unfoldable pub take_credit : Exec (World P) (List Str)
  take_credit w = let (credit, v) = Api.get_upload_credit P cfg w in (ok credit, v)

  unfoldable pub post_upload_credit_handler : Response → Exec (World P) Response
  post_upload_credit_handler r = catching (set_not_fount_header r) (do
    credit ← take_credit
    body ← or_throw (dump (object P ((codes "credit", of_strings credit) ∷ [])))
    pure (answer json_type (body ++ crlf) r))

  pub post_delete_handler : Request → Response → Exec (World P) Response
  post_delete_handler req r = catching (set_not_fount_header r) (do
    j ← or_throw (parse req.body)
    from ← or_throw (string_at P j (codes "user"))
    key ← or_throw (string_at P j (codes "key"))
    post_id ← or_throw (string_at P j (codes "post_id"))
    Api.delete_post P cfg from key post_id
    pure (answer (codes "text/plain") (codes "Ok\r\n") r))

  pub post_publish_handler : Request → Response → Exec (World P) Response
  post_publish_handler req r = catching (set_not_fount_header r) (do
    j ← or_throw (parse req.body)
    body ← Api.on_publish_impl P cfg j
    pure (answer json_type (body ++ crlf) r))

  unfoldable pub get_user_id_handler : Response → Exec (World P) Response
  get_user_id_handler r =
      catching (set_not_fount_header r)
        (do body ← Api.on_get_user_id P cfg; pure (answer json_type (body ++ crlf) r))

  pub post_visualization_handler : Request → Response → Exec (World P) Response
  post_visualization_handler req r = catching (set_not_fount_header r) (do
    Api.on_visualization P cfg req.body
    pure (answer (codes "text/plain") (codes "Ok\r\n") r))

  pub post_handler : Request → Response → Exec (World P) Response
  post_handler req blank =
      let r : Response = record blank { status = success; server = cfg.server_name } in
      let t = req.target in
      if matches t (codes "/posts/count")
      then post_search_handler true req r
      else if matches t (codes "/posts/visualization")
      then post_visualization_handler req r
      else if matches t (codes "/posts/search")
      then post_search_handler false req r
      else if matches t (codes "/posts/upload-credit")
      then post_upload_credit_handler r
      else if matches t (codes "/posts/delete")
      then post_delete_handler req r
      else if matches t (codes "/posts/publish")
      then post_publish_handler req r
      else if matches t (codes "/get-user-id")
      then get_user_id_handler r
      else pure (set_not_fount_header r)

  -- `operator<<` of worker_stats
  unfoldable pub stats_to_string : Api.WorkerStats → Str
  stats_to_string s =
      int_to_string s.number_of_sessions
      ++ 9 ∷ int_to_string s.worker_post_queue_size
      ++ 9 ∷ int_to_string s.worker_reg_queue_size
      ++ 9 ∷ int_to_string s.worker_login_queue_size
      ++ 9 ∷ int_to_string s.db_post_queue_size
      ++ 9 ∷ int_to_string s.db_chat_queue_size

  unfoldable pub stats_handler : Response → Exec (World P) Response
  stats_handler r =
      gets (λ (w : World P). answer (codes "text/csv") (stats_to_string (Api.get_stats P cfg w)) r)

  unfoldable pub get_handler : Request → Response → Exec (World P) Response
  get_handler req blank =
      let r : Response = record blank { status = success; server = cfg.server_name } in
      if str_eq (prepare_target req.target 47) (codes "stats")
      then stats_handler r
      else pure (set_not_fount_header r)

  unfoldable pub default_handler : Str → Response → Response
  default_handler name r = record r {
    status = bad_request;
    content_type = codes "text/plain";
    body = codes "Invalid request-method: '" ++ name ++ codes "'";
  }

  unfoldable pub do_write : Response → Response
  do_write r = record r { content_length = length r.body; allow_origin = cfg.http_allow_origin }

  unfoldable pub handle : Method → Request → Response → Exec (World P) Response
  handle get req r = get_handler req r
  handle post req r = post_handler req r
  handle (other name) req r = pure (default_handler name r)

  -- The answer that is sent: each handler ends in `do_write`.
  unfoldable pub process_request : Request → Exec (World P) Response
  process_request req = do r ← handle req.method req no_response; pure (do_write r)
