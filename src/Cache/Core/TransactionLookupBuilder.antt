-- ===== src/Cache/Core/TransactionLookupBuilder.antt =====
-- `TransactionLookupBuilder` of src/cpp/cache/core.cpp.
use compute_sdk_cpp.Prelude.{List, [], ◌∷◌, some, Bytes, true}
use compute_sdk_cpp.Prelude.Effects.{M, pure, ◌>>=◌}
use compute_sdk_cpp.Host.{CacheHost, RequestHost}
use compute_sdk_cpp.Cache.Core.Options.{CacheError}
use compute_sdk_cpp.Cache.Core.Options.{LookupOptions}
use compute_sdk_cpp.Cache.Core.Abi.{as_abi_lookup}
use compute_sdk_cpp.Cache.Core.Headers.{set_request_header_values}
use compute_sdk_cpp.Cache.Core.Handles.{Transaction, PendingTransaction}
use compute_sdk_cpp.Cache.Core.Handles.{cache_try}

pub record TransactionLookupBuilder : Type 0 where
  pub key : Bytes
  pub options : LookupOptions

module _ {S : Type 0} (host : RequestHost S) where
  unfoldable pub header_values :
      {E : Type 0} → Bytes → List Bytes → TransactionLookupBuilder → M S E TransactionLookupBuilder
  header_values name values b = do
    request_headers ← set_request_header_values host b.options.request_headers name values
    pure (record b { options = record (b.options) { request_headers = request_headers } })

  unfoldable pub header :
      {E : Type 0} → Bytes → Bytes → TransactionLookupBuilder → M S E TransactionLookupBuilder
  unfolding header_values
  header name value b = header_values name (value ∷ []) b

unfoldable pub on_behalf_of : Bytes → TransactionLookupBuilder → TransactionLookupBuilder
on_behalf_of service b = record b { options = record (b.options) { service = some service } }

unfoldable pub always_use_requested_range : TransactionLookupBuilder → TransactionLookupBuilder
always_use_requested_range b = record b {
  options = record (b.options) { always_use_requested_range = true };
}

module _ {S : Type 0} (host : CacheHost S) where
  unfoldable pub execute : TransactionLookupBuilder → M S CacheError Transaction
  execute b = do
    let (options, options_mask) = as_abi_lookup b.options
    cache_handle ← cache_try (host.cache_transaction_lookup b.key options_mask options)
    state_out ← cache_try (host.cache_get_state cache_handle)
    pure (record { handle = cache_handle })

  unfoldable pub execute_async : TransactionLookupBuilder → M S CacheError PendingTransaction
  execute_async b = do
    let (options, options_mask) = as_abi_lookup b.options
    busy_handle ← cache_try (host.cache_transaction_lookup_async b.key options_mask options)
    pure (record { handle = busy_handle })
