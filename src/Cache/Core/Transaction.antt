-- ===== src/Cache/Core/Transaction.antt =====
-- `Transaction` and `PendingTransaction` of src/cpp/cache/core.cpp.
pub mod Laws
use compute_sdk_cpp.Prelude.{Bool, not, ◌&&◌, ◌==◌, Bytes, Option, none, some, if◌then◌else◌}
use compute_sdk_cpp.Prelude.Int.{ℤ}
use compute_sdk_cpp.Prelude.Effects.{M, pure, ◌>>=◌, ◌>>◌}
use compute_sdk_cpp.Host.{CacheHost}
use compute_sdk_cpp.Host.Options.State
use compute_sdk_cpp.Cache.Core.Options.{CacheError, write_options, default_lookup_options}
use compute_sdk_cpp.Cache.Core.Handles.{
  Transaction, PendingTransaction, Found, cached, cache_try, require, has_state,
}
use compute_sdk_cpp.Cache.Core.TransactionLookupBuilder.{TransactionLookupBuilder}
use compute_sdk_cpp.Cache.Core.TransactionUpdateBuilder.{TransactionUpdateBuilder}
use compute_sdk_cpp.Cache.Core.TransactionInsertBuilder.{TransactionInsertBuilder}

unfoldable pub lookup : Bytes → TransactionLookupBuilder
lookup key = record { key = key; options = default_lookup_options }

unfoldable pub update : ℤ → Transaction → TransactionUpdateBuilder
update max_age t = record { handle = t.handle; options = write_options max_age }

unfoldable pub insert : ℤ → Transaction → TransactionInsertBuilder
insert max_age t = record { handle = t.handle; options = write_options max_age }

module _ {S : Type 0} (host : CacheHost S) where
  unfoldable pub must_insert : {E : Type 0} → Transaction → M S E Bool
  must_insert t = do
    state ← require (host.cache_get_state t.handle)
    pure (not (has_state state State.found) && has_state state State.must_insert_or_update)

  unfoldable pub must_insert_or_update : {E : Type 0} → Transaction → M S E Bool
  must_insert_or_update t = do
    state ← require (host.cache_get_state t.handle)
    pure (has_state state State.must_insert_or_update)

  unfoldable pub cancel_insert_or_update : Transaction → M S CacheError (Unit {0})
  cancel_insert_or_update t = cache_try (host.cache_transaction_cancel t.handle)

  unfoldable pub found : {E : Type 0} → Transaction → M S E (Option Found)
  found t = do
    state ← require (host.cache_get_state t.handle)
    pure (if has_state state State.found then some (cached t.handle) else none)

  unfoldable pub pending : PendingTransaction → M S CacheError Bool
  pending p = do is_ready ← cache_try (host.async_is_ready p.handle); pure (is_ready == 0)

  unfoldable pub wait : PendingTransaction → M S CacheError Transaction
  wait p = do
    cache_handle ← cache_try (host.cache_busy_handle_wait p.handle)
    cache_lookup_state_out ← cache_try (host.cache_get_state cache_handle)
    pure (record { handle = cache_handle })
