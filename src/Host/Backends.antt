-- ===== src/Host/Backends.antt =====
-- The functions behind `rust::Box<fastly::sys::backend::Backend>` and `BackendBuilder`, which
-- src/backend.rs forwards to the fastly crate. A box is a number.
use compute_sdk_cpp.Prelude.{ℕ, Bool, Bytes}
use compute_sdk_cpp.Prelude.Effects.{M}

-- src/lib.rs
pub data SslVersion : Type 0 where
  tls1 : SslVersion
  tls1_1 : SslVersion
  tls1_2 : SslVersion
  tls1_3 : SslVersion

pub record BackendHost (S Err : Type 0) : Type 0 where
  pub backend_from_name : Bytes → M S Err ℕ
  pub equals : ℕ → ℕ → S → Bool × S
  pub clone : ℕ → S → ℕ × S
  pub into_string : ℕ → S → Bytes × S
  pub name : ℕ → S → Bytes × S
  pub exists : ℕ → S → Bool × S
  pub is_dynamic : ℕ → S → Bool × S
  pub get_host : ℕ → S → Bytes × S
  pub get_port : ℕ → S → ℕ × S
  pub get_connect_timeout : ℕ → S → ℕ × S
  pub get_first_byte_timeout : ℕ → S → ℕ × S
  pub get_between_bytes_timeout : ℕ → S → ℕ × S
  pub get_http_keepalive_time : ℕ → S → ℕ × S
  pub get_tcp_keepalive_enable : ℕ → S → Bool × S
  pub get_tcp_keepalive_interval : ℕ → S → ℕ × S
  pub get_tcp_keepalive_probes : ℕ → S → ℕ × S
  pub get_tcp_keepalive_time : ℕ → S → ℕ × S
  pub is_ssl : ℕ → S → Bool × S

-- The builder's functions take a box and give one back.
pub record BackendBuilderHost (S Err : Type 0) : Type 0 where
  pub backend_builder : Bytes → Bytes → S → ℕ × S
  pub override_host : ℕ → Bytes → S → ℕ × S
  pub connect_timeout : ℕ → ℕ → S → ℕ × S
  pub first_byte_timeout : ℕ → ℕ → S → ℕ × S
  pub between_bytes_timeout : ℕ → ℕ → S → ℕ × S
  pub enable_ssl : ℕ → S → ℕ × S
  pub disable_ssl : ℕ → S → ℕ × S
  pub set_min_tls_version : ℕ → SslVersion → S → ℕ × S
  pub set_max_tls_version : ℕ → SslVersion → S → ℕ × S
  pub check_certificate : ℕ → Bytes → S → ℕ × S
  pub ca_certificate : ℕ → Bytes → S → ℕ × S
  pub tls_ciphers : ℕ → Bytes → S → ℕ × S
  pub sni_hostname : ℕ → Bytes → S → ℕ × S
  pub enable_pooling : ℕ → Bool → S → ℕ × S
  pub http_keepalive_time : ℕ → ℕ → S → ℕ × S
  pub tcp_keepalive_enable : ℕ → Bool → S → ℕ × S
  pub tcp_keepalive_interval_secs : ℕ → ℕ → S → ℕ × S
  pub tcp_keepalive_probes : ℕ → ℕ → S → ℕ × S
  pub tcp_keepalive_time_secs : ℕ → ℕ → S → ℕ × S
  pub finish : ℕ → M S Err ℕ
