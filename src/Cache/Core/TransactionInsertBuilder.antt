-- ===== src/Cache/Core/TransactionInsertBuilder.antt =====
-- `TransactionInsertBuilder` of src/cpp/cache/core.cpp.
use compute_sdk_cpp.Prelude.{ℕ, Bool, List, [], ◌∷◌, some, Bytes}
use compute_sdk_cpp.Prelude.Int.{ℤ}
use compute_sdk_cpp.Prelude.Effects.{M, pure, ◌>>=◌}
use compute_sdk_cpp.Host.{CacheHost}
use compute_sdk_cpp.Http.StreamingBody.{StreamingBody, from_body_handle}
use compute_sdk_cpp.Cache.Core.Options.{CacheError, WriteOptions}
use compute_sdk_cpp.Cache.Core.Abi.{as_abi_write}
use compute_sdk_cpp.Cache.Core.Join.{join_strings}
use compute_sdk_cpp.Cache.Core.Handles.{Found, cached}
use compute_sdk_cpp.Cache.Core.Handles.{cache_try}

pub record TransactionInsertBuilder : Type 0 where
  pub handle : ℕ
  pub options : WriteOptions

unfoldable pub vary_by : List Bytes → TransactionInsertBuilder → TransactionInsertBuilder
vary_by [] b = b
vary_by (header ∷ headers) b =
    let rule = join_strings (header ∷ headers) b' ' in
    record b { options = record (b.options) { vary_rule = some rule } }

unfoldable pub initial_age : ℤ → TransactionInsertBuilder → TransactionInsertBuilder
initial_age age_ns b = record b { options = record (b.options) { initial_age = some age_ns } }

unfoldable pub stale_while_revalidate : ℤ → TransactionInsertBuilder → TransactionInsertBuilder
stale_while_revalidate duration b = record b {
  options = record (b.options) { stale_while_revalidate = some duration };
}

unfoldable pub surrogate_keys : List Bytes → TransactionInsertBuilder → TransactionInsertBuilder
surrogate_keys [] b = b
surrogate_keys (key ∷ keys) b =
    let joined = join_strings (key ∷ keys) b' ' in
    record b { options = record (b.options) { surrogate_keys = some joined } }

unfoldable pub known_length : ℕ → TransactionInsertBuilder → TransactionInsertBuilder
known_length length b = record b { options = record (b.options) { length = some length } }

unfoldable pub user_metadata : Bytes → TransactionInsertBuilder → TransactionInsertBuilder
user_metadata metadata b = record b {
  options = record (b.options) { user_metadata = some metadata };
}

unfoldable pub sensitive_data : Bool → TransactionInsertBuilder → TransactionInsertBuilder
sensitive_data is_sensitive b = record b {
  options = record (b.options) { sensitive_data = is_sensitive };
}

unfoldable pub deliver_node_max_age : ℤ → TransactionInsertBuilder → TransactionInsertBuilder
deliver_node_max_age duration b = record b {
  options = record (b.options) { edge_max_age = some duration };
}

unfoldable pub on_behalf_of : Bytes → TransactionInsertBuilder → TransactionInsertBuilder
on_behalf_of service b = record b { options = record (b.options) { service = some service } }

module _ {S : Type 0} (host : CacheHost S) where
  unfoldable pub execute : TransactionInsertBuilder → M S CacheError StreamingBody
  execute b = do
    let (options, options_mask) = as_abi_write b.options
    body_handle ← cache_try (host.cache_transaction_insert b.handle options_mask options)
    pure (from_body_handle body_handle)

  unfoldable pub execute_and_stream_back :
      TransactionInsertBuilder → M S CacheError (StreamingBody × Found)
  execute_and_stream_back b = do
    let (options, options_mask) = as_abi_write b.options
    (body_handle, cache_handle_out) ←
        cache_try (host.cache_transaction_insert_and_stream_back b.handle options_mask options)
    pure (from_body_handle body_handle, cached cache_handle_out)
