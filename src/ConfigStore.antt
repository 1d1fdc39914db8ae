-- ===== src/ConfigStore.antt =====
-- `ConfigStore` of include/fastly/config_store.h and src/cpp/config_store.cpp, over the bridge.
use compute_sdk_cpp.Prelude.{ℕ, Bool, Option, Bytes}
use compute_sdk_cpp.Prelude.Effects.{M, pure, ◌>>=◌}
use compute_sdk_cpp.Host.Calls.{some_if}
use compute_sdk_cpp.Host.Lookups.{ConfigStoreHost}

pub record ConfigStore : Type 0 where
  pub cs : ℕ

module _ {S Err : Type 0} (host : ConfigStoreHost S Err) where
  -- `ConfigStore::open`
  unfoldable pub open_store : Bytes → M S Err ConfigStore
  open_store name = do box ← host.config_store_open name; pure (record { cs = box })

  unfoldable pub get : ConfigStore → Bytes → M S Err (Option Bytes)
  get store key = do (found, out) ← host.get store.cs key; pure (some_if found out)

  unfoldable pub contains : ConfigStore → Bytes → M S Err Bool
  contains store key = host.contains store.cs key
