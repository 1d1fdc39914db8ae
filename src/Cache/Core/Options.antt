-- ===== src/Cache/Core/Options.antt =====
-- The error type and the option structs of include/fastly/cache/core.h, and `from_status` of
-- src/cpp/cache/core.cpp. A `std::chrono::nanoseconds` is the integer that it counts. A
-- `detail::RequestHandle` is the number that it holds; its destructor is `drop_request_handle`
-- of Cache/Core/Headers.antt.
use compute_sdk_cpp.Prelude.{ℕ, Bool, false, Bytes, Option, none}
use compute_sdk_cpp.Prelude.Int.{ℤ}
use compute_sdk_cpp.Host.{Status}
use compute_sdk_cpp.Host.{unsupported, limit_exceeded, bad_handle}

pub data CacheError : Type 0 where
  limit_exceeded_error invalid_operation unsupported_error unknown : CacheError

unfoldable pub from_status : Status → CacheError
from_status unsupported = unsupported_error
from_status limit_exceeded = limit_exceeded_error
from_status bad_handle = invalid_operation
from_status _ = unknown

pub record LookupOptions : Type 0 where
  pub request_headers : Option ℕ
  pub service : Option Bytes
  pub always_use_requested_range : Bool

pub data ReplaceStrategy : Type 0 where
  immediate immediate_force_miss wait : ReplaceStrategy

pub record ReplaceOptions : Type 0 where
  pub request_headers : Option ℕ
  pub replace_strategy : ReplaceStrategy
  pub service : Option Bytes
  pub always_use_requested_range : Bool

pub record WriteOptions : Type 0 where
  pub max_age : ℤ
  pub request_headers : Option ℕ
  pub vary_rule : Option Bytes
  pub initial_age : Option ℤ
  pub stale_while_revalidate : Option ℤ
  pub surrogate_keys : Option Bytes
  pub length : Option ℕ
  pub user_metadata : Option Bytes
  pub sensitive_data : Bool
  pub edge_max_age : Option ℤ
  pub service : Option Bytes

abbrev pub default_lookup_options : LookupOptions
default_lookup_options = record {
  request_headers = none;
  service = none;
  always_use_requested_range = false;
}

abbrev pub default_replace_options : ReplaceOptions
default_replace_options = record {
  request_headers = none;
  replace_strategy = immediate;
  service = none;
  always_use_requested_range = false;
}

-- `WriteOptions(std::chrono::nanoseconds max_age)`
abbrev pub write_options : ℤ → WriteOptions
write_options max_age = record {
  max_age = max_age;
  request_headers = none;
  vary_rule = none;
  initial_age = none;
  stale_while_revalidate = none;
  surrogate_keys = none;
  length = none;
  user_metadata = none;
  sensitive_data = false;
  edge_max_age = none;
  service = none;
}
