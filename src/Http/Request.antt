-- ===== src/Http/Request.antt =====
-- `Request` of include/fastly/http/request.h and src/cpp/http/request.cpp, over the bridge: making
-- requests, and their bodies. A request is its box. A body that is passed by value was moved into
-- the parameter, which flushed it. The setters that return `*this` with a new value are the `with_`
-- functions; a request that an error leaves behind is dropped.
pub mod Headers
pub mod Target
pub mod Caching
pub mod Pending
pub mod PendingLaws
pub mod PollLaws
pub mod Sending
pub mod Laws
pub mod CachingLaws
use compute_sdk_cpp.Prelude.{ℕ, Bool, Option, Bytes}
use compute_sdk_cpp.Prelude.Effects.{M, pure, ok, ◌>>=◌, ◌>>◌}
use compute_sdk_cpp.Host.Bodies.{BodyHost}
use compute_sdk_cpp.Host.Calls.{read, effect, then_this, try_fe, test_err}
use compute_sdk_cpp.Host.Requests.{RequestMakerHost, Method}
use compute_sdk_cpp.Http.Body
use compute_sdk_cpp.Http.Body.{Body}

pub record Request : Type 0 where
  pub req : ℕ

abbrev pub from_box : ℕ → Request
from_box box = record { req = box }

abbrev boxed : {S E : Type 0} → (S → ℕ × S) → M S E Request
boxed call = do box ← read call; pure (from_box box)

module _ {S Err : Type 0} (host : RequestMakerHost S Err) where
  unfoldable pub new_request : {E : Type 0} → Method → Bytes → M S E Request
  new_request method url = boxed (host.request_new method url)

  -- `err` is not initialised; `stale` is what it holds.
  unfoldable pub create : Option Err → Bytes → Bytes → M S Err Request
  create stale method url = do
    answer ← λ s. try_fe stale (host.request_new_str method url s)
    box ← test_err answer
    pure (from_box box)

  unfoldable pub from_client : {E : Type 0} → M S E Request
  from_client = boxed host.request_from_client

  unfoldable pub get : {E : Type 0} → Bytes → M S E Request
  get url = boxed (host.request_get url)

  unfoldable pub head : {E : Type 0} → Bytes → M S E Request
  head url = boxed (host.request_head url)

  unfoldable pub post : {E : Type 0} → Bytes → M S E Request
  post url = boxed (host.request_post url)

  unfoldable pub put : {E : Type 0} → Bytes → M S E Request
  put url = boxed (host.request_put url)

  -- `delete_`
  unfoldable pub delete : {E : Type 0} → Bytes → M S E Request
  delete url = boxed (host.request_delete url)

  unfoldable pub connect : {E : Type 0} → Bytes → M S E Request
  connect url = boxed (host.request_connect url)

  unfoldable pub options : {E : Type 0} → Bytes → M S E Request
  options url = boxed (host.request_options url)

  unfoldable pub trace : {E : Type 0} → Bytes → M S E Request
  trace url = boxed (host.request_trace url)

  unfoldable pub patch : {E : Type 0} → Bytes → M S E Request
  patch url = boxed (host.request_patch url)

  unfoldable pub is_from_client : {E : Type 0} → Request → M S E Bool
  is_from_client r = read (host.is_from_client r.req)

  unfoldable pub clone_without_body : {E : Type 0} → Request → M S E Request
  clone_without_body r = boxed (host.clone_without_body r.req)

  unfoldable pub clone_with_body : {E : Type 0} → Request → M S E Request
  clone_with_body r = boxed (host.clone_with_body r.req)

  unfoldable pub set_body_text_plain : Request → Bytes → M S Err (Unit {0})
  set_body_text_plain r body = host.set_body_text_plain r.req body

  unfoldable pub with_body_text_plain : Bytes → Request → M S Err Request
  unfolding set_body_text_plain
  with_body_text_plain body r = then_this r (set_body_text_plain r body)

  unfoldable pub set_body_text_html : Request → Bytes → M S Err (Unit {0})
  set_body_text_html r body = host.set_body_text_html r.req body

  unfoldable pub with_body_text_html : Bytes → Request → M S Err Request
  unfolding set_body_text_html
  with_body_text_html body r = then_this r (set_body_text_html r body)

  unfoldable pub set_body_octet_stream : {E : Type 0} → Request → Bytes → M S E (Unit {0})
  set_body_octet_stream r body = effect (host.set_body_octet_stream r.req body)

  unfoldable pub with_body_octet_stream : {E : Type 0} → Bytes → Request → M S E Request
  unfolding set_body_octet_stream
  with_body_octet_stream body r = then_this r (set_body_octet_stream r body)

module _ {S Err : Type 0} (host : RequestMakerHost S Err) (bodies : BodyHost S Err) where
  unfoldable pub set_body : {E : Type 0} → Request → Body → M S E (Unit {0})
  set_body r body = do
    (_, flushed) ← Body.sync bodies body
    effect (host.set_body r.req flushed.bod)

  -- The body is moved once more into the parameter of `set_body`.
  unfoldable pub with_body : {E : Type 0} → Body → Request → M S E Request
  unfolding set_body
  with_body body r = do moved ← Body.move bodies body; set_body r moved; pure r

  unfoldable pub has_body : {E : Type 0} → Request → M S E Bool
  has_body r = read (host.has_body r.req)

  unfoldable pub take_body : {E : Type 0} → Request → M S E Body
  take_body r = do box ← read (host.take_body r.req); pure (Body.from_handle box)

  unfoldable pub into_body : {E : Type 0} → Request → M S E Body
  into_body r = do box ← read (host.into_body r.req); pure (Body.from_handle box)

  -- The fuel is that of the loop that reads the body.
  unfoldable pub into_body_string : {E : Type 0} → ℕ → Request → M S E Bytes
  unfolding into_body
  into_body_string fuel r = do
    body ← into_body r
    (text, left) ← Body.take_body_string bodies fuel body
    λ s. ok text (bodies.body_drop left.bod s)

  unfoldable pub into_body_bytes : {E : Type 0} → ℕ → Request → M S E Bytes
  unfolding into_body_string
  into_body_bytes fuel r = into_body_string fuel r

  unfoldable pub take_body_string : {E : Type 0} → ℕ → Request → M S E Bytes
  unfolding take_body
  take_body_string fuel r = do
    bod ← take_body r
    (text, left) ← Body.take_body_string bodies fuel bod
    λ s. ok text (bodies.body_drop left.bod s)

  unfoldable pub take_body_bytes : {E : Type 0} → ℕ → Request → M S E Bytes
  unfolding take_body_string
  take_body_bytes fuel r = take_body_string fuel r
