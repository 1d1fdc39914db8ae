-- ===== src/KvStore/LookingUp.antt =====
-- `LookupBuilder` and `LookupResponse` of include/fastly/kv_store.h and src/cpp/kv_store.cpp.
use compute_sdk_cpp.Prelude.{ℕ, Bytes}
use compute_sdk_cpp.Prelude.Effects.{M, pure, ◌>>=◌}
use compute_sdk_cpp.Host.KvStores.{KvBuilderHost}
use compute_sdk_cpp.KvStore.Handles.{PendingLookupHandle}

pub record LookupResponse : Type 0 where
  pub response : ℕ

pub record LookupBuilder : Type 0 where
  pub builder : ℕ

module _ {S Err : Type 0} (host : KvBuilderHost S Err) where
  unfoldable pub execute : LookupBuilder → Bytes → M S Err LookupResponse
  execute b key = do box ← host.lookup_execute b.builder key; pure (record { response = box })

  unfoldable pub execute_async : LookupBuilder → Bytes → M S Err PendingLookupHandle
  execute_async b key = do
    handle ← host.lookup_execute_async b.builder key
    pure (record { handle = handle })
