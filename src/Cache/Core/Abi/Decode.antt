-- ===== src/Cache/Core/Abi/Decode.antt =====
-- What a host reads from an option struct and its mask: a field counts only if its bit is set, and
-- a pointer is read up to its length. This is written from the host interface, not from `as_abi`.
use compute_sdk_cpp.Prelude.{ℕ, Bool, Bytes, Option, none, some, [], ◌/◌, ◌%◌, ◌<◌, ◌^◌}
use compute_sdk_cpp.Prelude.{take, ◌==◌, if◌then◌else◌}
use compute_sdk_cpp.Prelude.Int.{ℤ, pos, negsuc, to_int64}
use compute_sdk_cpp.Host.Options.{CacheLookupOptions, CacheWriteOptions, CacheReplaceOptions}
use compute_sdk_cpp.Host.Options.{CacheGetBodyOptions}
use compute_sdk_cpp.Cache.Core.Options.{LookupOptions, WriteOptions, ReplaceOptions}
use compute_sdk_cpp.Cache.Core.Options.{ReplaceStrategy, immediate, immediate_force_miss, wait}

abbrev pub has_bit : ℕ → ℕ → Bool
has_bit mask w = (mask / w) % 2 == 1

abbrev pub when : {A : Type 0} → Bool → A → Option A
when b a = if b then some a else none

abbrev pub read_slice : Option Bytes → ℕ → Bytes
read_slice none n = []
read_slice (some s) n = take n s

abbrev pub strategy_of : ℕ → ReplaceStrategy
strategy_of n = if n == 0 then immediate else if n == 1 then immediate_force_miss else wait

unfoldable pub decode_lookup : CacheLookupOptions × ℕ → LookupOptions
decode_lookup (o, mask) = record {
  request_headers = when (has_bit mask 2) o.request_headers;
  service = when (has_bit mask 4) (read_slice o.service o.service_len);
  always_use_requested_range = has_bit mask 8;
}

unfoldable pub decode_write : CacheWriteOptions × ℕ → WriteOptions
decode_write (o, mask) = record {
  max_age = to_int64 o.max_age_ns;
  request_headers = when (has_bit mask 2) o.request_headers;
  vary_rule = when (has_bit mask 4) (read_slice o.vary_rule_ptr o.vary_rule_len);
  initial_age = when (has_bit mask 8) (to_int64 o.initial_age_ns);
  stale_while_revalidate = when (has_bit mask 16) (to_int64 o.stale_while_revalidate_ns);
  surrogate_keys = when (has_bit mask 32) (read_slice o.surrogate_keys_ptr o.surrogate_keys_len);
  length = when (has_bit mask 64) o.length;
  user_metadata = when (has_bit mask 128) (read_slice o.user_metadata_ptr o.user_metadata_len);
  sensitive_data = has_bit mask 256;
  edge_max_age = when (has_bit mask 512) (to_int64 o.edge_max_age_ns);
  service = when (has_bit mask 1024) (read_slice o.service o.service_len);
}

-- Without its bit the strategy is the one that the host takes by default.
unfoldable pub decode_replace : CacheReplaceOptions × ℕ → ReplaceOptions
decode_replace (o, mask) = record {
  request_headers = when (has_bit mask 2) o.request_headers;
  replace_strategy = if has_bit mask 4 then strategy_of o.replace_strategy else immediate;
  service = when (has_bit mask 8) (read_slice o.service o.service_len);
  always_use_requested_range = has_bit mask 16;
}

-- The bounds of the range that a body is asked for.
unfoldable pub decode_range : CacheGetBodyOptions × ℕ → Option ℕ × Option ℕ
decode_range (o, mask) = (when (has_bit mask 2) o.from, when (has_bit mask 4) o.to)

-- The integers that an `int64_t` holds.
abbrev pub IsInt64 : ℤ → Type 0
IsInt64 (pos n) = n < 2 ^ 63
IsInt64 (negsuc n) = n < 2 ^ 63

abbrev pub MaybeInt64 : Option ℤ → Type 0
MaybeInt64 none = Unit
MaybeInt64 (some d) = IsInt64 d
