-- ===== src/Cache/Core/Abi.antt =====
-- The three overloads of `as_abi` in src/cpp/cache/core.cpp: from the public option structs to the
-- host's, with the mask of the options that were set. Each `if` of the source is a step on the pair.
mod Masks
mod Closed
pub mod Decode
pub mod Laws
use compute_sdk_cpp.Prelude.{ℕ, Bool, true, false, Bytes, Option, none, some, bit_or}
use compute_sdk_cpp.Prelude.{length}
use compute_sdk_cpp.Prelude.Int.{ℤ, to_uint64}
use compute_sdk_cpp.Host.Options.{CacheLookupOptions, CacheWriteOptions, CacheReplaceOptions}
use compute_sdk_cpp.Host.Options.{no_lookup_options, no_write_options, no_replace_options}
use compute_sdk_cpp.Host.Options.Write
use compute_sdk_cpp.Host.Options.Lookup
use compute_sdk_cpp.Host.Options.Replace
use compute_sdk_cpp.Cache.Core.Options.{LookupOptions, WriteOptions, ReplaceOptions}
use compute_sdk_cpp.Cache.Core.Options.{ReplaceStrategy, immediate, immediate_force_miss, wait}

-- The pair of locals `host_opt` and `options_mask`.
abbrev pub LookupAbi : Type 0
LookupAbi = CacheLookupOptions × ℕ

abbrev pub WriteAbi : Type 0
WriteAbi = CacheWriteOptions × ℕ

abbrev pub ReplaceAbi : Type 0
ReplaceAbi = CacheReplaceOptions × ℕ

lookup_request_headers : Option ℕ → LookupAbi → LookupAbi
lookup_request_headers none a = a
lookup_request_headers (some h) a =
    (record (a.0) { request_headers = h }, bit_or a.1 Lookup.request_headers)

lookup_service : Option Bytes → LookupAbi → LookupAbi
lookup_service none a = a
lookup_service (some s) a =
    (record (a.0) { service = some s; service_len = length s }, bit_or a.1 Lookup.service)

lookup_range : Bool → LookupAbi → LookupAbi
lookup_range false a = a
lookup_range true a = (a.0, bit_or a.1 Lookup.always_use_requested_range)

unfoldable pub as_abi_lookup : LookupOptions → LookupAbi
unfolding lookup_request_headers lookup_service lookup_range
as_abi_lookup o =
    let a = lookup_request_headers o.request_headers (no_lookup_options, 0) in
    let b = lookup_service o.service a in lookup_range o.always_use_requested_range b

unfoldable pub write_request_headers : Option ℕ → WriteAbi → WriteAbi
write_request_headers none a = a
write_request_headers (some h) a =
    (record (a.0) { request_headers = h }, bit_or a.1 Write.request_headers)

unfoldable pub write_vary_rule : Option Bytes → WriteAbi → WriteAbi
write_vary_rule none a = a
write_vary_rule (some s) a =
    (record (a.0) { vary_rule_ptr = some s; vary_rule_len = length s }, bit_or a.1 Write.vary_rule)

unfoldable pub write_initial_age : Option ℤ → WriteAbi → WriteAbi
write_initial_age none a = a
write_initial_age (some d) a =
    (record (a.0) { initial_age_ns = to_uint64 d }, bit_or a.1 Write.initial_age_ns)

unfoldable pub write_stale_while_revalidate : Option ℤ → WriteAbi → WriteAbi
write_stale_while_revalidate none a = a
write_stale_while_revalidate (some d) a = (
  record (a.0) { stale_while_revalidate_ns = to_uint64 d },
  bit_or a.1 Write.stale_while_revalidate_ns,
)

unfoldable pub write_surrogate_keys : Option Bytes → WriteAbi → WriteAbi
write_surrogate_keys none a = a
write_surrogate_keys (some s) a = (
  record (a.0) { surrogate_keys_ptr = some s; surrogate_keys_len = length s },
  bit_or a.1 Write.surrogate_keys,
)

unfoldable pub write_length : Option ℕ → WriteAbi → WriteAbi
write_length none a = a
write_length (some n) a = (record (a.0) { length = n }, bit_or a.1 Write.length)

unfoldable pub write_user_metadata : Option Bytes → WriteAbi → WriteAbi
write_user_metadata none a = a
write_user_metadata (some s) a = (
  record (a.0) { user_metadata_ptr = some s; user_metadata_len = length s },
  bit_or a.1 Write.user_metadata,
)

unfoldable pub write_sensitive_data : Bool → WriteAbi → WriteAbi
write_sensitive_data false a = a
write_sensitive_data true a = (a.0, bit_or a.1 Write.sensitive_data)

unfoldable pub write_edge_max_age : Option ℤ → WriteAbi → WriteAbi
write_edge_max_age none a = a
write_edge_max_age (some d) a =
    (record (a.0) { edge_max_age_ns = to_uint64 d }, bit_or a.1 Write.edge_max_age_ns)

unfoldable pub write_service : Option Bytes → WriteAbi → WriteAbi
write_service none a = a
write_service (some s) a =
    (record (a.0) { service = some s; service_len = length s }, bit_or a.1 Write.service)

unfoldable pub as_abi_write : WriteOptions → WriteAbi
as_abi_write o =
    let start : WriteAbi = (record no_write_options { max_age_ns = to_uint64 o.max_age }, 0) in
    let a = write_request_headers o.request_headers start in
    let b = write_vary_rule o.vary_rule a in
    let c = write_initial_age o.initial_age b in
    let d = write_stale_while_revalidate o.stale_while_revalidate c in
    let e = write_surrogate_keys o.surrogate_keys d in
    let f = write_length o.length e in
    let g = write_user_metadata o.user_metadata f in
    let h = write_sensitive_data o.sensitive_data g in
    let i = write_edge_max_age o.edge_max_age h in write_service o.service i

replace_request_headers : Option ℕ → ReplaceAbi → ReplaceAbi
replace_request_headers none a = a
replace_request_headers (some h) a =
    (record (a.0) { request_headers = h }, bit_or a.1 Replace.request_headers)

-- `static_cast<std::uint32_t>` of the enumeration
unfoldable pub strategy_number : ReplaceStrategy → ℕ
strategy_number immediate = 0
strategy_number immediate_force_miss = 1
strategy_number wait = 2

replace_strategy : ReplaceStrategy → ReplaceAbi → ReplaceAbi
replace_strategy r a =
    (record (a.0) { replace_strategy = strategy_number r }, bit_or a.1 Replace.replace_strategy)

replace_service : Option Bytes → ReplaceAbi → ReplaceAbi
replace_service none a = a
replace_service (some s) a =
    (record (a.0) { service = some s; service_len = length s }, bit_or a.1 Replace.service)

replace_range : Bool → ReplaceAbi → ReplaceAbi
replace_range false a = a
replace_range true a = (a.0, bit_or a.1 Replace.always_use_requested_range)

unfoldable pub as_abi_replace : ReplaceOptions → ReplaceAbi
unfolding replace_request_headers strategy_number replace_strategy replace_service replace_range
as_abi_replace o =
    let a = replace_request_headers o.request_headers (no_replace_options, 0) in
    let b = replace_strategy o.replace_strategy a in
    let c = replace_service o.service b in replace_range o.always_use_requested_range c
