-- ===== src/Cache/Core/LookupBuilder.antt =====
-- `lookup` and `LookupBuilder` of src/cpp/cache/core.cpp.
pub mod Laws
use compute_sdk_cpp.Prelude.{ℕ, Bool, true, List, [], ◌∷◌, Option, none, some, Bytes, if◌then◌else◌}
use compute_sdk_cpp.Prelude.Effects.{M, pure, ◌>>=◌, ◌>>◌}
use compute_sdk_cpp.Host.{CacheHost, RequestHost}
use compute_sdk_cpp.Host.Options.State
use compute_sdk_cpp.Cache.Core.Options.{CacheError, LookupOptions, default_lookup_options}
use compute_sdk_cpp.Cache.Core.Abi.{as_abi_lookup}
use compute_sdk_cpp.Cache.Core.Headers.{set_request_header_values}
use compute_sdk_cpp.Cache.Core.Handles.{Found, cached, cache_try, has_state}

pub record LookupBuilder : Type 0 where
  pub key : Bytes
  pub options : LookupOptions

unfoldable pub lookup : Bytes → LookupBuilder
lookup key = record { key = key; options = default_lookup_options }

unfoldable pub on_behalf_of : Bytes → LookupBuilder → LookupBuilder
on_behalf_of service b = record b { options = record (b.options) { service = some service } }

unfoldable pub always_use_requested_range : LookupBuilder → LookupBuilder
always_use_requested_range b = record b {
  options = record (b.options) { always_use_requested_range = true };
}

module _ {S : Type 0} (host : RequestHost S) where
  unfoldable pub header_values :
      {E : Type 0} → Bytes → List Bytes → LookupBuilder → M S E LookupBuilder
  header_values name values b = do
    request_headers ← set_request_header_values host b.options.request_headers name values
    pure (record b { options = record (b.options) { request_headers = request_headers } })

  unfoldable pub header : {E : Type 0} → Bytes → Bytes → LookupBuilder → M S E LookupBuilder
  unfolding header_values
  header name value b = header_values name (value ∷ []) b

module _ {S : Type 0} (host : CacheHost S) where
  -- The state is asked for twice; a handle that is not found is not closed.
  unfoldable pub execute : LookupBuilder → M S CacheError (Option Found)
  execute b = do
    let (options, options_mask) = as_abi_lookup b.options
    cache_handle ← cache_try (host.cache_lookup b.key options_mask options)
    throwaway_state ← cache_try (host.cache_get_state cache_handle)
    state ← cache_try (host.cache_get_state cache_handle)
    pure (if has_state state State.found then some (cached cache_handle) else none)
