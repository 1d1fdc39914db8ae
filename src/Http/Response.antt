-- ===== src/Http/Response.antt =====
-- `Response` of include/fastly/http/response.h and src/cpp/http/response.cpp, over the bridge. A
-- response is its box. A body that is passed by value was moved into the parameter, which flushed it.
-- The setters that return `*this` with a new value are the `with_` functions; a response that an
-- error leaves behind is dropped.
pub mod Origin
pub mod Laws
use compute_sdk_cpp.Prelude.{ℕ, Bool, Option, none, some, [], Bytes, if◌then◌else◌}
use compute_sdk_cpp.Prelude.Effects.{M, Run, pure, ok, err, abort, ◌>>=◌, ◌>>◌, map_error}
use compute_sdk_cpp.Host.Bodies.{BodyHost}
use compute_sdk_cpp.Host.Calls.{optional, effect, then_this}
use compute_sdk_cpp.Host.Responses.{ResponseHost}
use compute_sdk_cpp.Http.Body
use compute_sdk_cpp.Http.Body.{Body}
use compute_sdk_cpp.Http.Header.{HeaderValue}
use compute_sdk_cpp.Http.StatusCode
use compute_sdk_cpp.Http.StatusCode.{StatusCode}
use compute_sdk_cpp.Http.StreamingBody.{StreamingBody}

pub record Response : Type 0 where
  pub res : ℕ

abbrev boxed : {S E : Type 0} → (S → ℕ × S) → M S E Response
boxed call s = let (h, s1) = call s in pure (record { res = h }) s1

-- The result of a function that tests `err` the wrong way round: an error of no box, or success.
abbrev pub inverted : {S Err : Type 0} → Run S Err (Unit {0}) → Run S (Option Err) (Unit {0})
inverted (ok _ s) = err none s
inverted (err e s) = ok tt s
inverted (abort s) = abort s

module _ {S Err : Type 0} (host : ResponseHost S Err) (bodies : BodyHost S Err) where
  unfoldable pub new_response : {E : Type 0} → M S E Response
  new_response = boxed host.response_new

  unfoldable pub clone_without_body : {E : Type 0} → Response → M S E Response
  clone_without_body r = boxed (host.clone_without_body r.res)

  unfoldable pub clone_with_body : {E : Type 0} → Response → M S E Response
  clone_with_body r = boxed (host.clone_with_body r.res)

  unfoldable pub from_body : {E : Type 0} → Body → M S E Response
  from_body body = boxed (host.response_from_body body.bod)

  unfoldable pub from_status : {E : Type 0} → StatusCode → M S E Response
  from_status status = boxed (host.response_from_status (StatusCode.as_code status))

  unfoldable pub see_other : {E : Type 0} → Bytes → M S E Response
  see_other destination = boxed (host.response_see_other destination)

  unfoldable pub redirect : {E : Type 0} → Bytes → M S E Response
  redirect destination = boxed (host.response_redirect destination)

  unfoldable pub temporary_redirect : {E : Type 0} → Bytes → M S E Response
  temporary_redirect destination = boxed (host.response_temporary_redirect destination)

  unfoldable pub set_body : {E : Type 0} → Response → Body → M S E (Unit {0})
  set_body r body = do
    (_, flushed) ← Body.sync bodies body
    effect (host.set_body r.res flushed.bod)

  -- The body is moved once more into the parameter of `set_body`.
  unfoldable pub with_body : {E : Type 0} → Body → Response → M S E Response
  unfolding set_body
  with_body body r = do moved ← Body.move bodies body; set_body r moved; pure r

  unfoldable pub take_body : {E : Type 0} → Response → M S E Body
  take_body r s = let (h, s1) = host.take_body r.res s in pure (Body.from_handle h) s1

  unfoldable pub append_body : {E : Type 0} → Response → Body → M S E (Unit {0})
  append_body r other = do
    (_, flushed) ← Body.sync bodies other
    effect (host.append_body r.res flushed.bod)

  unfoldable pub into_body : {E : Type 0} → Response → M S E Body
  into_body r s = let (h, s1) = host.into_body r.res s in pure (Body.from_handle h) s1

  -- The fuel is that of the loop that reads the body.
  unfoldable pub into_body_string : {E : Type 0} → ℕ → Response → M S E Bytes
  unfolding into_body
  into_body_string fuel r = do
    body ← into_body r
    (text, left) ← Body.take_body_string bodies fuel body
    λ s. ok text (bodies.body_drop left.bod s)

  unfoldable pub into_body_bytes : {E : Type 0} → ℕ → Response → M S E Bytes
  unfolding into_body_string
  into_body_bytes fuel r = into_body_string fuel r

  unfoldable pub take_body_string : {E : Type 0} → ℕ → Response → M S E Bytes
  unfolding take_body
  take_body_string fuel r = do
    bod ← take_body r
    (text, left) ← Body.take_body_string bodies fuel bod
    λ s. ok text (bodies.body_drop left.bod s)

  unfoldable pub take_body_bytes : {E : Type 0} → ℕ → Response → M S E Bytes
  unfolding take_body_string
  take_body_bytes fuel r = take_body_string fuel r

  unfoldable pub set_body_text_plain : Response → Bytes → M S Err (Unit {0})
  set_body_text_plain r body = host.set_body_text_plain r.res body

  unfoldable pub with_body_text_plain : Bytes → Response → M S Err Response
  unfolding set_body_text_plain
  with_body_text_plain body r = then_this r (set_body_text_plain r body)

  -- The source returns `expected<void>()` if `err` is set, and `unexpected(err)` if it is null.
  unfoldable pub set_body_text_html : Response → Bytes → M S (Option Err) (Unit {0})
  set_body_text_html r body s = inverted (host.set_body_text_html r.res body s)

  unfoldable pub with_body_text_html : Bytes → Response → M S (Option Err) Response
  unfolding set_body_text_html
  with_body_text_html body r = then_this r (set_body_text_html r body)

  unfoldable pub set_body_octet_stream : {E : Type 0} → Response → Bytes → M S E (Unit {0})
  set_body_octet_stream r body = effect (host.set_body_octet_stream r.res body)

  unfoldable pub with_body_octet_stream : {E : Type 0} → Bytes → Response → M S E Response
  unfolding set_body_octet_stream
  with_body_octet_stream body r = then_this r (set_body_octet_stream r body)

  unfoldable pub get_content_type : {E : Type 0} → Response → M S E (Option Bytes)
  get_content_type r = optional (host.get_content_type r.res)

  unfoldable pub set_content_type : {E : Type 0} → Response → Bytes → M S E (Unit {0})
  set_content_type r mime = effect (host.set_content_type r.res mime)

  unfoldable pub with_content_type : {E : Type 0} → Bytes → Response → M S E Response
  unfolding set_content_type
  with_content_type mime r = then_this r (set_content_type r mime)

  unfoldable pub get_content_length : {E : Type 0} → Response → M S E (Option ℕ)
  get_content_length r = optional (host.get_content_length r.res)

  unfoldable pub contains_header : Response → Bytes → M S Err Bool
  contains_header r name = host.contains_header r.res name

  unfoldable pub get_header : Response → Bytes → M S Err (Option HeaderValue)
  get_header r name = do
    (has_header, value, is_sensitive) ← host.get_header r.res name
    pure (if has_header then some (record { value = value; is_sensitive = is_sensitive }) else none)

  unfoldable pub set_header : Response → Bytes → Bytes → M S Err (Unit {0})
  set_header r name value = host.set_header r.res name value

  unfoldable pub append_header : Response → Bytes → Bytes → M S Err (Unit {0})
  append_header r name value = host.append_header r.res name value

  unfoldable pub with_header : Bytes → Bytes → Response → M S Err Response
  unfolding append_header
  with_header name value r = then_this r (append_header r name value)

  unfoldable pub with_set_header : Bytes → Bytes → Response → M S Err Response
  unfolding set_header
  with_set_header name value r = then_this r (set_header r name value)

  unfoldable pub remove_header : Response → Bytes → M S Err (Option Bytes)
  remove_header r name = do
    (has_header, out) ← host.remove_header r.res name
    pure (if has_header then some out else none)

  -- The constructor of `StatusCode` aborts on a number that is out of range.
  unfoldable pub get_status : {E : Type 0} → Response → M S E StatusCode
  get_status r s = let (code, s1) = host.get_status r.res s in StatusCode.construct code s1

  unfoldable pub set_status : {E : Type 0} → Response → StatusCode → M S E (Unit {0})
  set_status r status = effect (host.set_status r.res (StatusCode.as_code status))

  unfoldable pub with_status : {E : Type 0} → StatusCode → Response → M S E Response
  unfolding set_status
  with_status status r = then_this r (set_status r status)

  unfoldable pub get_backend_name : {E : Type 0} → Response → M S E (Option Bytes)
  get_backend_name r = optional (host.get_backend_name r.res)

  unfoldable pub get_backend_addr : {E : Type 0} → Response → M S E (Option Bytes)
  get_backend_addr r = optional (host.get_backend_addr r.res)

  unfoldable pub send_to_client : {E : Type 0} → Response → M S E (Unit {0})
  send_to_client r = effect (host.send_to_client r.res)

  unfoldable pub stream_to_client : {E : Type 0} → Response → M S E StreamingBody
  stream_to_client r s =
      let (h, s1) = host.stream_to_client r.res s in pure (record { bod = h; pending = [] }) s1

  -- In milliseconds.
  unfoldable pub get_ttl : {E : Type 0} → Response → M S E (Option ℕ)
  get_ttl r = optional (host.get_ttl r.res)

  unfoldable pub get_age : {E : Type 0} → Response → M S E (Option ℕ)
  get_age r = optional (host.get_age r.res)

  unfoldable pub get_stale_while_revalidate : {E : Type 0} → Response → M S E (Option ℕ)
  get_stale_while_revalidate r = optional (host.get_stale_while_revalidate r.res)
