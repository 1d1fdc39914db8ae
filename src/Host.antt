-- ===== src/Host.antt =====
-- The host calls of src/cpp/fastly.h, and the status that each returns. The host
-- is not part of the repository: each group of its functions is a record over an unknown state,
-- which the modules that call it take as a parameter. A call returns its status and its out
-- parameters; the out parameters mean nothing under a status that is not `ok_status`.
pub mod Options
pub mod Bodies
pub mod Purge
pub mod Responses
pub mod Calls
pub mod Requests
pub mod Backends
pub mod KvStores
pub mod Lookups
pub mod Logs
pub mod Inspection
use compute_sdk_cpp.Prelude.{ℕ, Bool, true, false, Bytes}
use Options.{CacheLookupOptions, CacheWriteOptions, CacheReplaceOptions, CacheGetBodyOptions}

-- `fastly::Status::Code`. The host may also return a number that the enumeration does not list.
pub data Status : Type 0 where
  ok_status generic_error invalid_argument bad_handle buffer_len unsupported bad_align : Status
  http_invalid http_user http_incomplete optional_none http_head_too_large : Status
  http_invalid_status limit_exceeded : Status
  unlisted : ℕ → Status

abbrev pub is_ok : Status → Bool
is_ok ok_status = true
is_ok _ = false

-- A host function once its arguments are given.
abbrev pub Call : Type 0 → Type 0 → Type 0
Call S A = S → Status × A × S

-- What the host writes into a metadata buffer: the bytes, and `nwritten`.
pub record Written : Type 0 where
  pub bytes : Bytes
  pub nwritten : ℕ

-- The module `fastly_cache`, `async_is_ready`, and `close`, whose status the code never reads.
pub record CacheHost (S : Type 0) : Type 0 where
  pub cache_lookup : Bytes → ℕ → CacheLookupOptions → Call S ℕ
  pub cache_transaction_lookup : Bytes → ℕ → CacheLookupOptions → Call S ℕ
  pub cache_transaction_lookup_async : Bytes → ℕ → CacheLookupOptions → Call S ℕ
  pub cache_busy_handle_wait : ℕ → Call S ℕ
  pub async_is_ready : ℕ → Call S ℕ
  pub cache_insert : Bytes → ℕ → CacheWriteOptions → Call S ℕ
  pub cache_replace : Bytes → ℕ → CacheReplaceOptions → Call S ℕ
  pub cache_replace_insert : ℕ → ℕ → CacheWriteOptions → Call S ℕ
  pub cache_transaction_update : ℕ → ℕ → CacheWriteOptions → Call S (Unit {0})
  pub cache_transaction_insert : ℕ → ℕ → CacheWriteOptions → Call S ℕ
  pub cache_transaction_insert_and_stream_back : ℕ → ℕ → CacheWriteOptions → Call S (ℕ × ℕ)
  pub cache_transaction_cancel : ℕ → Call S (Unit {0})
  pub cache_get_state : ℕ → Call S ℕ
  pub cache_get_age_ns : ℕ → Call S ℕ
  pub cache_get_max_age_ns : ℕ → Call S ℕ
  pub cache_get_stale_while_revalidate_ns : ℕ → Call S ℕ
  pub cache_get_hits : ℕ → Call S ℕ
  pub cache_get_length : ℕ → Call S ℕ
  pub cache_get_user_metadata : ℕ → ℕ → Call S Written
  pub cache_get_body : ℕ → ℕ → CacheGetBodyOptions → Call S ℕ
  pub cache_replace_get_state : ℕ → Call S ℕ
  pub cache_replace_get_age_ns : ℕ → Call S ℕ
  pub cache_replace_get_max_age_ns : ℕ → Call S ℕ
  pub cache_replace_get_stale_while_revalidate_ns : ℕ → Call S ℕ
  pub cache_replace_get_hits : ℕ → Call S ℕ
  pub cache_replace_get_length : ℕ → Call S ℕ
  pub cache_replace_get_user_metadata : ℕ → ℕ → Call S Written
  pub cache_replace_get_body : ℕ → ℕ → CacheGetBodyOptions → Call S ℕ
  pub cache_close : ℕ → S → S

-- The module `fastly_http_req`. The code reads the status of `http_req_new` alone.
pub record RequestHost (S : Type 0) : Type 0 where
  pub http_req_new : Call S ℕ
  pub http_req_close : ℕ → S → S
  pub http_req_header_values_set : ℕ → Bytes → Bytes → Call S (Unit {0})

-- The module `fastly_erl`.
pub record ErlHost (S : Type 0) : Type 0 where
  pub check_rate : Bytes → Bytes → ℕ → ℕ → ℕ → Bytes → ℕ → Call S Bool
  pub ratecounter_increment : Bytes → Bytes → ℕ → Call S (Unit {0})
  pub ratecounter_lookup_rate : Bytes → Bytes → ℕ → Call S ℕ
  pub ratecounter_lookup_count : Bytes → Bytes → ℕ → Call S ℕ
  pub penaltybox_add : Bytes → Bytes → ℕ → Call S (Unit {0})
  pub penaltybox_has : Bytes → Bytes → Call S Bool
