-- ===== src/Host/Requests.antt =====
-- The functions behind `rust::Box<fastly::sys::http::Request>`, which src/http/request.rs forwards to
-- the fastly crate, by theme. A box is a number; a box that is null is `none`. An `err` pointer that
-- is set is an error; a function that says whether there is an answer gives a Boolean and the out
-- parameter.
use compute_sdk_cpp.Prelude.{ℕ, Bool, Bytes, Option, List}
use compute_sdk_cpp.Prelude.Effects.{M}

-- src/lib.rs
pub data Method : Type 0 where
  get : Method
  post : Method
  put : Method
  delete : Method
  head : Method
  options : Method
  connect : Method
  patch : Method
  trace : Method

pub data Version : Type 0 where
  http_09 : Version
  http_10 : Version
  http_11 : Version
  http_2 : Version
  http_3 : Version

-- Making requests, and their bodies.
pub record RequestMakerHost (S Err : Type 0) : Type 0 where
  pub request_new : Method → Bytes → S → ℕ × S
  pub request_new_str : Bytes → Bytes → M S Err ℕ
  pub request_from_client : S → ℕ × S
  pub request_get : Bytes → S → ℕ × S
  pub request_head : Bytes → S → ℕ × S
  pub request_post : Bytes → S → ℕ × S
  pub request_put : Bytes → S → ℕ × S
  pub request_delete : Bytes → S → ℕ × S
  pub request_connect : Bytes → S → ℕ × S
  pub request_options : Bytes → S → ℕ × S
  pub request_trace : Bytes → S → ℕ × S
  pub request_patch : Bytes → S → ℕ × S
  pub is_from_client : ℕ → S → Bool × S
  pub clone_without_body : ℕ → S → ℕ × S
  pub clone_with_body : ℕ → S → ℕ × S
  pub set_body : ℕ → ℕ → S → S
  pub has_body : ℕ → S → Bool × S
  pub take_body : ℕ → S → ℕ × S
  pub into_body : ℕ → S → ℕ × S
  pub set_body_text_plain : ℕ → Bytes → M S Err (Unit {0})
  pub set_body_text_html : ℕ → Bytes → M S Err (Unit {0})
  pub set_body_octet_stream : ℕ → Bytes → S → S

pub record RequestHeadersHost (S Err : Type 0) : Type 0 where
  pub get_content_type : ℕ → S → (Bool × Bytes) × S
  pub set_content_type : ℕ → Bytes → S → S
  pub get_content_length : ℕ → S → (Bool × ℕ) × S
  pub contains_header : ℕ → Bytes → M S Err Bool
  pub get_header : ℕ → Bytes → M S Err (Bool × Bytes × Bool)
  pub get_header_all : ℕ → Bytes → M S Err ℕ
  pub get_headers : ℕ → S → ℕ × S
  pub get_header_names : ℕ → S → ℕ × S
  pub set_header : ℕ → Bytes → Bytes → M S Err (Unit {0})
  pub append_header : ℕ → Bytes → Bytes → M S Err (Unit {0})
  pub remove_header : ℕ → Bytes → M S Err (Bool × Bytes)
  pub get_original_header_names : ℕ → S → Option ℕ × S
  pub get_original_header_count : ℕ → S → (Bool × ℕ) × S

-- The method, the address and the version.
pub record RequestTargetHost (S Err : Type 0) : Type 0 where
  pub get_method : ℕ → S → Method × S
  pub get_method_str : ℕ → S → Bytes × S
  pub set_method : ℕ → Method → S → S
  pub set_method_str : ℕ → Bytes → M S Err (Unit {0})
  pub get_url : ℕ → S → Bytes × S
  pub set_url : ℕ → Bytes → M S Err (Unit {0})
  pub get_path : ℕ → S → Bytes × S
  pub set_path : ℕ → Bytes → M S Err (Unit {0})
  pub get_query_string : ℕ → S → (Bool × Bytes) × S
  pub get_query_parameter : ℕ → Bytes → S → (Bool × Bytes) × S
  pub set_query_string : ℕ → Bytes → M S Err (Unit {0})
  pub remove_query : ℕ → S → S
  pub get_version : ℕ → S → Version × S
  pub set_version : ℕ → Version → S → S

-- Caching, and what is known of the client.
pub record RequestCacheHost (S Err : Type 0) : Type 0 where
  pub get_client_ddos_detected : ℕ → S → (Bool × Bool) × S
  pub set_pass : ℕ → Bool → S → S
  pub set_ttl : ℕ → ℕ → S → S
  pub set_stale_while_revalidate : ℕ → ℕ → S → S
  pub set_pci : ℕ → Bool → S → S
  pub set_surrogate_key : ℕ → Bytes → M S Err (Unit {0})
  pub get_client_ip_addr : ℕ → S → (Bool × Bytes) × S
  pub get_server_ip_addr : ℕ → S → (Bool × Bytes) × S
  pub set_auto_decompress_gzip : ℕ → Bool → S → S
  pub fastly_key_is_valid : ℕ → S → Bool × S
  pub set_cache_key : ℕ → Bytes → S → S

-- Sending. Of the fastly crate: `send` and its variants, a poll, which finds a request pending or
-- done, and `select`, which gives the requests that are left also beside an error, and panics on no
-- request.
pub record SendHost (S Err : Type 0) : Type 0 where
  pub request_send : ℕ → ℕ → M S Err ℕ
  pub request_send_async : ℕ → ℕ → M S Err ℕ
  pub request_send_async_streaming : ℕ → ℕ → M S Err (ℕ × ℕ)
  -- whether it is done, and the pending request or the response
  pub pending_request_poll : ℕ → M S Err (Bool × ℕ)
  pub pending_request_wait : ℕ → M S Err ℕ
  pub pending_request_select : List ℕ → M S (Err × List ℕ) (ℕ × List ℕ)
  pub cloned_sent_req : ℕ → S → ℕ × S
