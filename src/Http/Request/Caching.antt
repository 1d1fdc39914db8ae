-- ===== src/Http/Request/Caching.antt =====
-- src/cpp/http/request.cpp: how a request is cached, and what is known of its client.
use compute_sdk_cpp.Prelude.{ℕ, Bool, ◌==◌, not, Option, Bytes}
use compute_sdk_cpp.Prelude.Effects.{M}
use compute_sdk_cpp.Host.Calls.{read, optional, effect, then_this}
use compute_sdk_cpp.Host.Requests.{RequestCacheHost}
use compute_sdk_cpp.Http.Request.{Request}

-- A number as a `bool`.
abbrev pub to_bool : ℕ → Bool
to_bool n = not (n == 0)

module _ {S Err : Type 0} (host : RequestCacheHost S Err) where
  unfoldable pub get_client_ddos_detected : {E : Type 0} → Request → M S E (Option Bool)
  get_client_ddos_detected r = optional (host.get_client_ddos_detected r.req)

  unfoldable pub set_pass : {E : Type 0} → Request → Bool → M S E (Unit {0})
  set_pass r pass = effect (host.set_pass r.req pass)

  unfoldable pub with_pass : {E : Type 0} → Bool → Request → M S E Request
  unfolding set_pass
  with_pass pass r = then_this r (set_pass r pass)

  unfoldable pub set_ttl : {E : Type 0} → Request → ℕ → M S E (Unit {0})
  set_ttl r ttl = effect (host.set_ttl r.req ttl)

  -- The source calls `set_pass`.
  unfoldable pub with_ttl : {E : Type 0} → ℕ → Request → M S E Request
  unfolding set_pass
  with_ttl ttl r = then_this r (set_pass r (to_bool ttl))

  unfoldable pub set_stale_while_revalidate : {E : Type 0} → Request → ℕ → M S E (Unit {0})
  set_stale_while_revalidate r swr = effect (host.set_stale_while_revalidate r.req swr)

  unfoldable pub with_stale_while_revalidate : {E : Type 0} → ℕ → Request → M S E Request
  unfolding set_stale_while_revalidate
  with_stale_while_revalidate swr r = then_this r (set_stale_while_revalidate r swr)

  unfoldable pub set_pci : {E : Type 0} → Request → Bool → M S E (Unit {0})
  set_pci r pci = effect (host.set_pci r.req pci)

  unfoldable pub with_pci : {E : Type 0} → Bool → Request → M S E Request
  unfolding set_pci
  with_pci pci r = then_this r (set_pci r pci)

  unfoldable pub set_surrogate_key : Request → Bytes → M S Err (Unit {0})
  set_surrogate_key r sk = host.set_surrogate_key r.req sk

  unfoldable pub with_surrogate_key : Bytes → Request → M S Err Request
  unfolding set_surrogate_key
  with_surrogate_key sk r = then_this r (set_surrogate_key r sk)

  unfoldable pub get_client_ip_addr : {E : Type 0} → Request → M S E (Option Bytes)
  get_client_ip_addr r = optional (host.get_client_ip_addr r.req)

  unfoldable pub get_server_ip_addr : {E : Type 0} → Request → M S E (Option Bytes)
  get_server_ip_addr r = optional (host.get_server_ip_addr r.req)

  unfoldable pub set_auto_decompress_gzip : {E : Type 0} → Request → Bool → M S E (Unit {0})
  set_auto_decompress_gzip r gzip = effect (host.set_auto_decompress_gzip r.req gzip)

  unfoldable pub with_auto_decompress_gzip : {E : Type 0} → Bool → Request → M S E Request
  unfolding set_auto_decompress_gzip
  with_auto_decompress_gzip gzip r = then_this r (set_auto_decompress_gzip r gzip)

  unfoldable pub fastly_key_is_valid : {E : Type 0} → Request → M S E Bool
  fastly_key_is_valid r = read (host.fastly_key_is_valid r.req)

  unfoldable pub set_cache_key : {E : Type 0} → Request → Bytes → M S E (Unit {0})
  set_cache_key r key = effect (host.set_cache_key r.req key)

  unfoldable pub with_cache_key : {E : Type 0} → Bytes → Request → M S E Request
  unfolding set_cache_key
  with_cache_key key r = then_this r (set_cache_key r key)
