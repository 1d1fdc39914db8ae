-- ===== src/Cache/Core/TransactionUpdateBuilder.antt =====
-- `TransactionUpdateBuilder` of src/cpp/cache/core.cpp.
use compute_sdk_cpp.Prelude.{ℕ, List, [], ◌∷◌, some, Bytes}
use compute_sdk_cpp.Prelude.Int.{ℤ}
use compute_sdk_cpp.Prelude.Effects.{M}
use compute_sdk_cpp.Host.{CacheHost}
use compute_sdk_cpp.Cache.Core.Options.{CacheError, WriteOptions}
use compute_sdk_cpp.Cache.Core.Abi.{as_abi_write}
use compute_sdk_cpp.Cache.Core.Join.{join_strings}
use compute_sdk_cpp.Cache.Core.Handles.{cache_try}

pub record TransactionUpdateBuilder : Type 0 where
  pub handle : ℕ
  pub options : WriteOptions

unfoldable pub vary_by : List Bytes → TransactionUpdateBuilder → TransactionUpdateBuilder
vary_by [] b = b
vary_by (header ∷ headers) b =
    let rule = join_strings (header ∷ headers) b' ' in
    record b { options = record (b.options) { vary_rule = some rule } }

unfoldable pub age : ℤ → TransactionUpdateBuilder → TransactionUpdateBuilder
age age_ns b = record b { options = record (b.options) { initial_age = some age_ns } }

unfoldable pub deliver_node_max_age : ℤ → TransactionUpdateBuilder → TransactionUpdateBuilder
deliver_node_max_age duration b = record b {
  options = record (b.options) { edge_max_age = some duration };
}

unfoldable pub stale_while_revalidate : ℤ → TransactionUpdateBuilder → TransactionUpdateBuilder
stale_while_revalidate duration b = record b {
  options = record (b.options) { stale_while_revalidate = some duration };
}

unfoldable pub surrogate_keys : List Bytes → TransactionUpdateBuilder → TransactionUpdateBuilder
surrogate_keys [] b = b
surrogate_keys (key ∷ keys) b =
    let joined = join_strings (key ∷ keys) b' ' in
    record b { options = record (b.options) { surrogate_keys = some joined } }

unfoldable pub user_metadata : Bytes → TransactionUpdateBuilder → TransactionUpdateBuilder
user_metadata metadata b = record b {
  options = record (b.options) { user_metadata = some metadata };
}

unfoldable pub on_behalf_of : Bytes → TransactionUpdateBuilder → TransactionUpdateBuilder
on_behalf_of service b = record b { options = record (b.options) { service = some service } }

module _ {S : Type 0} (host : CacheHost S) where
  unfoldable pub execute : TransactionUpdateBuilder → M S CacheError (Unit {0})
  execute b = do
    let (options, options_mask) = as_abi_write b.options
    cache_try (host.cache_transaction_update b.handle options_mask options)
