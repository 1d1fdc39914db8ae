-- ===== src/KvStore/Handles.antt =====
-- `KVPendingHandle` of include/fastly/kv_store.h, at its four types: a `uint32_t`.
use compute_sdk_cpp.Prelude.{ℕ}

pub record PendingInsertHandle : Type 0 where
  pub handle : ℕ

pub record PendingLookupHandle : Type 0 where
  pub handle : ℕ

pub record PendingEraseHandle : Type 0 where
  pub handle : ℕ

pub record PendingListHandle : Type 0 where
  pub handle : ℕ
