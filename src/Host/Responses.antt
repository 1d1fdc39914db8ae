-- ===== src/Host/Responses.antt =====
-- The functions behind `rust::Box<fastly::sys::http::Response>`, which src/http/response.rs forwards
-- to the fastly crate. A box is a number. An `err` pointer that is set is an error; a function that
-- says whether there is an answer gives a Boolean and the out parameter.
use compute_sdk_cpp.Prelude.{ℕ, Bool, Bytes, Option}
use compute_sdk_cpp.Prelude.Effects.{M}
use compute_sdk_cpp.Host.Requests.{Version}

pub record ResponseHost (S Err : Type 0) : Type 0 where
  pub response_new : S → ℕ × S
  pub response_from_body : ℕ → S → ℕ × S
  pub response_from_status : ℕ → S → ℕ × S
  pub response_see_other : Bytes → S → ℕ × S
  pub response_redirect : Bytes → S → ℕ × S
  pub response_temporary_redirect : Bytes → S → ℕ × S
  pub clone_without_body : ℕ → S → ℕ × S
  pub clone_with_body : ℕ → S → ℕ × S
  pub set_body : ℕ → ℕ → S → S
  pub append_body : ℕ → ℕ → S → S
  pub take_body : ℕ → S → ℕ × S
  pub into_body : ℕ → S → ℕ × S
  pub set_body_text_plain : ℕ → Bytes → M S Err (Unit {0})
  pub set_body_text_html : ℕ → Bytes → M S Err (Unit {0})
  pub set_body_octet_stream : ℕ → Bytes → S → S
  pub get_content_type : ℕ → S → (Bool × Bytes) × S
  pub set_content_type : ℕ → Bytes → S → S
  pub get_content_length : ℕ → S → (Bool × ℕ) × S
  pub contains_header : ℕ → Bytes → M S Err Bool
  pub get_header : ℕ → Bytes → M S Err (Bool × Bytes × Bool)
  pub set_header : ℕ → Bytes → Bytes → M S Err (Unit {0})
  pub append_header : ℕ → Bytes → Bytes → M S Err (Unit {0})
  pub remove_header : ℕ → Bytes → M S Err (Bool × Bytes)
  pub get_status : ℕ → S → ℕ × S
  pub set_status : ℕ → ℕ → S → S
  pub get_backend_name : ℕ → S → (Bool × Bytes) × S
  pub get_backend_addr : ℕ → S → (Bool × Bytes) × S
  pub send_to_client : ℕ → S → S
  pub stream_to_client : ℕ → S → ℕ × S
  pub get_ttl : ℕ → S → (Bool × ℕ) × S
  pub get_age : ℕ → S → (Bool × ℕ) × S
  pub get_stale_while_revalidate : ℕ → S → (Bool × ℕ) × S

-- The header ranges, and where a response comes from. A box that is null is `none`.
pub record ResponseOriginHost (S Err : Type 0) : Type 0 where
  pub get_header_all : ℕ → Bytes → M S Err ℕ
  pub get_headers : ℕ → S → ℕ × S
  pub get_header_names : ℕ → S → ℕ × S
  pub get_backend : ℕ → S → Option ℕ × S
  pub take_backend_request : ℕ → S → Option ℕ × S
  pub get_version : ℕ → S → Version × S
  pub set_version : ℕ → Version → S → S
