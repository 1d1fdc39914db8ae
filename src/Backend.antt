-- ===== src/Backend.antt =====
-- `Backend` and `BackendBuilder` of include/fastly/backend.h and src/cpp/backend.cpp, over the bridge.
-- Each is its box. Timeouts are in milliseconds, and cut to 32 bits on their way.
pub mod Laws
use compute_sdk_cpp.Prelude.{ℕ, Bool, not, Bytes}
use compute_sdk_cpp.Prelude.Effects.{M, pure, ◌>>=◌}
use compute_sdk_cpp.Host.Backends.{BackendHost, BackendBuilderHost, SslVersion}
use compute_sdk_cpp.Host.Calls.{read, to_u32}
use compute_sdk_cpp.Prelude.Int.{ℤ}

pub record Backend : Type 0 where
  pub backend : ℕ

pub record BackendBuilder : Type 0 where
  pub builder : ℕ

module _ {S Err : Type 0} (host : BackendHost S Err) where
  unfoldable pub from_name : Bytes → M S Err Backend
  from_name name = do box ← host.backend_from_name name; pure (record { backend = box })

  -- `operator==` and `operator!=`
  unfoldable pub is_same : {E : Type 0} → Backend → Backend → M S E Bool
  is_same b other = read (host.equals b.backend other.backend)

  unfoldable pub is_other : {E : Type 0} → Backend → Backend → M S E Bool
  is_other b other = do same ← read (host.equals b.backend other.backend); pure (not same)

  unfoldable pub clone : {E : Type 0} → Backend → M S E Backend
  clone b = do box ← read (host.clone b.backend); pure (record { backend = box })

  unfoldable pub into_string : {E : Type 0} → Backend → M S E Bytes
  into_string b = read (host.into_string b.backend)

  unfoldable pub name : {E : Type 0} → Backend → M S E Bytes
  name b = read (host.name b.backend)

  unfoldable pub exists : {E : Type 0} → Backend → M S E Bool
  exists b = read (host.exists b.backend)

  unfoldable pub is_dynamic : {E : Type 0} → Backend → M S E Bool
  is_dynamic b = read (host.is_dynamic b.backend)

  unfoldable pub get_host : {E : Type 0} → Backend → M S E Bytes
  get_host b = read (host.get_host b.backend)

  unfoldable pub get_port : {E : Type 0} → Backend → M S E ℕ
  get_port b = read (host.get_port b.backend)

  unfoldable pub get_connect_timeout : {E : Type 0} → Backend → M S E ℕ
  get_connect_timeout b = read (host.get_connect_timeout b.backend)

  unfoldable pub get_first_byte_timeout : {E : Type 0} → Backend → M S E ℕ
  get_first_byte_timeout b = read (host.get_first_byte_timeout b.backend)

  -- The source asks for the other timeout.
  unfoldable pub get_between_byte_timeout : {E : Type 0} → Backend → M S E ℕ
  get_between_byte_timeout b = read (host.get_first_byte_timeout b.backend)

  unfoldable pub get_http_keepalive_time : {E : Type 0} → Backend → M S E ℕ
  get_http_keepalive_time b = read (host.get_http_keepalive_time b.backend)

  unfoldable pub get_tcp_keepalive_enable : {E : Type 0} → Backend → M S E Bool
  get_tcp_keepalive_enable b = read (host.get_tcp_keepalive_enable b.backend)

  unfoldable pub get_tcp_keepalive_interval : {E : Type 0} → Backend → M S E ℕ
  get_tcp_keepalive_interval b = read (host.get_tcp_keepalive_interval b.backend)

  unfoldable pub get_tcp_keepalive_probes : {E : Type 0} → Backend → M S E ℕ
  get_tcp_keepalive_probes b = read (host.get_tcp_keepalive_probes b.backend)

  unfoldable pub get_tcp_keepalive_time : {E : Type 0} → Backend → M S E ℕ
  get_tcp_keepalive_time b = read (host.get_tcp_keepalive_time b.backend)

  unfoldable pub is_ssl : {E : Type 0} → Backend → M S E Bool
  is_ssl b = read (host.is_ssl b.backend)

-- `this->builder = f(std::move(this->builder), ...); return std::move(*this);`
abbrev rebuilt : {S E : Type 0} → (S → ℕ × S) → M S E BackendBuilder
rebuilt call = do box ← read call; pure (record { builder = box })

module _ {S Err : Type 0} (host : BackendBuilderHost S Err) where
  -- `Backend::builder`
  unfoldable pub new_builder : {E : Type 0} → Bytes → Bytes → M S E BackendBuilder
  new_builder name target = rebuilt (host.backend_builder name target)

  unfoldable pub override_host : {E : Type 0} → Bytes → BackendBuilder → M S E BackendBuilder
  override_host host_name b = rebuilt (host.override_host b.builder host_name)

  unfoldable pub connect_timeout : {E : Type 0} → ℤ → BackendBuilder → M S E BackendBuilder
  connect_timeout timeout b = rebuilt (host.connect_timeout b.builder (to_u32 timeout))

  unfoldable pub first_byte_timeout : {E : Type 0} → ℤ → BackendBuilder → M S E BackendBuilder
  first_byte_timeout timeout b = rebuilt (host.first_byte_timeout b.builder (to_u32 timeout))

  unfoldable pub between_bytes_timeout : {E : Type 0} → ℤ → BackendBuilder → M S E BackendBuilder
  between_bytes_timeout timeout b = rebuilt (host.between_bytes_timeout b.builder (to_u32 timeout))

  unfoldable pub enable_ssl : {E : Type 0} → BackendBuilder → M S E BackendBuilder
  enable_ssl b = rebuilt (host.enable_ssl b.builder)

  unfoldable pub disable_ssl : {E : Type 0} → BackendBuilder → M S E BackendBuilder
  disable_ssl b = rebuilt (host.disable_ssl b.builder)

  unfoldable pub set_min_tls_version :
      {E : Type 0} → SslVersion → BackendBuilder → M S E BackendBuilder
  set_min_tls_version version b = rebuilt (host.set_min_tls_version b.builder version)

  unfoldable pub set_max_tls_version :
      {E : Type 0} → SslVersion → BackendBuilder → M S E BackendBuilder
  set_max_tls_version version b = rebuilt (host.set_max_tls_version b.builder version)

  unfoldable pub check_certificate : {E : Type 0} → Bytes → BackendBuilder → M S E BackendBuilder
  check_certificate cert b = rebuilt (host.check_certificate b.builder cert)

  unfoldable pub ca_certificate : {E : Type 0} → Bytes → BackendBuilder → M S E BackendBuilder
  ca_certificate cert b = rebuilt (host.ca_certificate b.builder cert)

  unfoldable pub tls_ciphers : {E : Type 0} → Bytes → BackendBuilder → M S E BackendBuilder
  tls_ciphers ciphers b = rebuilt (host.tls_ciphers b.builder ciphers)

  unfoldable pub sni_hostname : {E : Type 0} → Bytes → BackendBuilder → M S E BackendBuilder
  sni_hostname host_name b = rebuilt (host.sni_hostname b.builder host_name)

  unfoldable pub enable_pooling : {E : Type 0} → Bool → BackendBuilder → M S E BackendBuilder
  enable_pooling enable b = rebuilt (host.enable_pooling b.builder enable)

  unfoldable pub http_keepalive_time : {E : Type 0} → ℤ → BackendBuilder → M S E BackendBuilder
  http_keepalive_time time b = rebuilt (host.http_keepalive_time b.builder (to_u32 time))

  unfoldable pub tcp_keepalive_enable : {E : Type 0} → Bool → BackendBuilder → M S E BackendBuilder
  tcp_keepalive_enable enable b = rebuilt (host.tcp_keepalive_enable b.builder enable)

  unfoldable pub tcp_keepalive_interval_secs :
      {E : Type 0} → ℕ → BackendBuilder → M S E BackendBuilder
  tcp_keepalive_interval_secs secs b = rebuilt (host.tcp_keepalive_interval_secs b.builder secs)

  unfoldable pub tcp_keepalive_probes : {E : Type 0} → ℕ → BackendBuilder → M S E BackendBuilder
  tcp_keepalive_probes probes b = rebuilt (host.tcp_keepalive_probes b.builder probes)

  unfoldable pub tcp_keepalive_time_secs : {E : Type 0} → ℕ → BackendBuilder → M S E BackendBuilder
  tcp_keepalive_time_secs secs b = rebuilt (host.tcp_keepalive_time_secs b.builder secs)

  unfoldable pub finish : BackendBuilder → M S Err Backend
  finish b = do box ← host.finish b.builder; pure (record { backend = box })
