-- ===== src/Errors.antt =====
-- `FastlyError` of include/fastly/error.h and src/cpp/error.cpp, and `KVStoreError` of
-- include/fastly/kv_store.h and src/cpp/kv_store.cpp, over the bridge. An error is its box; a code is
-- the number of the enumeration's constant.
use compute_sdk_cpp.Prelude.{ℕ, Bytes}
use compute_sdk_cpp.Prelude.Effects.{M}
use compute_sdk_cpp.Host.Calls.{read}

pub record FastlyError : Type 0 where
  pub err : ℕ

pub record KvStoreError : Type 0 where
  pub err : ℕ

pub record ErrorHost (S : Type 0) : Type 0 where
  pub error_code : ℕ → S → ℕ × S
  pub error_msg : ℕ → S → Bytes × S
  pub kv_error_code : ℕ → S → ℕ × S
  pub kv_error_msg : ℕ → S → Bytes × S

module _ {S : Type 0} (host : ErrorHost S) where
  unfoldable pub error_code : {E : Type 0} → FastlyError → M S E ℕ
  error_code e = read (host.error_code e.err)

  unfoldable pub error_msg : {E : Type 0} → FastlyError → M S E Bytes
  error_msg e = read (host.error_msg e.err)

  unfoldable pub kv_error_code : {E : Type 0} → KvStoreError → M S E ℕ
  kv_error_code e = read (host.kv_error_code e.err)

  unfoldable pub kv_error_msg : {E : Type 0} → KvStoreError → M S E Bytes
  kv_error_msg e = read (host.kv_error_msg e.err)
