-- ===== src/KvStore/Erasing.antt =====
-- `EraseBuilder` of include/fastly/kv_store.h and src/cpp/kv_store.cpp.
use compute_sdk_cpp.Prelude.{ℕ, Bytes}
use compute_sdk_cpp.Prelude.Effects.{M, pure, ◌>>=◌}
use compute_sdk_cpp.Host.KvStores.{KvBuilderHost}
use compute_sdk_cpp.KvStore.Handles.{PendingEraseHandle}

pub record EraseBuilder : Type 0 where
  pub builder : ℕ

module _ {S Err : Type 0} (host : KvBuilderHost S Err) where
  unfoldable pub execute : EraseBuilder → Bytes → M S Err (Unit {0})
  execute b key = host.erase_execute b.builder key

  unfoldable pub execute_async : EraseBuilder → Bytes → M S Err PendingEraseHandle
  execute_async b key = do
    handle ← host.erase_execute_async b.builder key
    pure (record { handle = handle })
