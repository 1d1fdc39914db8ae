-- ===== src/Cache/Core/Abi/Closed.antt =====
-- `as_abi` of the write options in closed form: each step of the encoding, then the whole.
use compute_sdk_cpp.Prelude.{ℕ, ◌≡◌, refl, Bool, true, false, Bytes, Option, none, some, length}
use compute_sdk_cpp.Prelude.{is_some}
use compute_sdk_cpp.Prelude.Int.{ℤ, to_uint64}
use compute_sdk_cpp.Host.Options.{CacheWriteOptions}
use compute_sdk_cpp.Cache.Core.Options.{WriteOptions}
use compute_sdk_cpp.Cache.Core.Abi.{WriteAbi, as_abi_write}
use compute_sdk_cpp.Cache.Core.Abi.{
  write_request_headers, write_vary_rule, write_initial_age, write_stale_while_revalidate,
  write_surrogate_keys, write_length, write_user_metadata, write_sensitive_data, write_edge_max_age,
  write_service,
}
use compute_sdk_cpp.Cache.Core.Abi.Masks.{or_if, Flags, or_all}

-- The value of a field that a set option overwrites.
abbrev pub handle_or : Option ℕ → ℕ → ℕ
handle_or none n = n
handle_or (some h) n = h

abbrev pub pointer_or : Option Bytes → Option Bytes → Option Bytes
pointer_or none p = p
pointer_or (some s) p = some s

abbrev pub len_or : Option Bytes → ℕ → ℕ
len_or none n = n
len_or (some s) n = length s

abbrev pub nanoseconds_or : Option ℤ → ℕ → ℕ
nanoseconds_or none n = n
nanoseconds_or (some d) n = to_uint64 d

request_headers-step :
    (v : Option ℕ) (a : WriteAbi)
    → write_request_headers v a ≡ (
      record (a.0) { request_headers = handle_or v (a.0).request_headers },
      or_if (is_some v) 2 a.1,
    )
unfolding write_request_headers or_if
request_headers-step none a = refl
request_headers-step (some v) a = refl

vary_rule-step :
    (v : Option Bytes) (a : WriteAbi)
    → write_vary_rule v a ≡ (
      record (a.0) {
        vary_rule_ptr = pointer_or v (a.0).vary_rule_ptr;
        vary_rule_len = len_or v (a.0).vary_rule_len;
      },
      or_if (is_some v) 4 a.1,
    )
unfolding write_vary_rule or_if
vary_rule-step none a = refl
vary_rule-step (some v) a = refl

initial_age-step :
    (v : Option ℤ) (a : WriteAbi)
    → write_initial_age v a ≡ (
      record (a.0) { initial_age_ns = nanoseconds_or v (a.0).initial_age_ns },
      or_if (is_some v) 8 a.1,
    )
unfolding write_initial_age or_if
initial_age-step none a = refl
initial_age-step (some v) a = refl

stale_while_revalidate-step :
    (v : Option ℤ) (a : WriteAbi)
    → write_stale_while_revalidate v a ≡ (
      record (a.0) { stale_while_revalidate_ns = nanoseconds_or v (a.0).stale_while_revalidate_ns },
      or_if (is_some v) 16 a.1,
    )
unfolding write_stale_while_revalidate or_if
stale_while_revalidate-step none a = refl
stale_while_revalidate-step (some v) a = refl

surrogate_keys-step :
    (v : Option Bytes) (a : WriteAbi)
    → write_surrogate_keys v a ≡ (
      record (a.0) {
        surrogate_keys_ptr = pointer_or v (a.0).surrogate_keys_ptr;
        surrogate_keys_len = len_or v (a.0).surrogate_keys_len;
      },
      or_if (is_some v) 32 a.1,
    )
unfolding write_surrogate_keys or_if
surrogate_keys-step none a = refl
surrogate_keys-step (some v) a = refl

length-step :
    (v : Option ℕ) (a : WriteAbi)
    → write_length v a
      ≡ (record (a.0) { length = handle_or v (a.0).length }, or_if (is_some v) 64 a.1)
unfolding write_length or_if
length-step none a = refl
length-step (some v) a = refl

user_metadata-step :
    (v : Option Bytes) (a : WriteAbi)
    → write_user_metadata v a ≡ (
      record (a.0) {
        user_metadata_ptr = pointer_or v (a.0).user_metadata_ptr;
        user_metadata_len = len_or v (a.0).user_metadata_len;
      },
      or_if (is_some v) 128 a.1,
    )
unfolding write_user_metadata or_if
user_metadata-step none a = refl
user_metadata-step (some v) a = refl

sensitive_data-step : (v : Bool) (a : WriteAbi) → write_sensitive_data v a ≡ (a.0, or_if v 256 a.1)
unfolding write_sensitive_data or_if
sensitive_data-step true a = refl
sensitive_data-step false a = refl

edge_max_age-step :
    (v : Option ℤ) (a : WriteAbi)
    → write_edge_max_age v a ≡ (
      record (a.0) { edge_max_age_ns = nanoseconds_or v (a.0).edge_max_age_ns },
      or_if (is_some v) 512 a.1,
    )
unfolding write_edge_max_age or_if
edge_max_age-step none a = refl
edge_max_age-step (some v) a = refl

service-step :
    (v : Option Bytes) (a : WriteAbi)
    → write_service v a ≡ (
      record (a.0) {
        service = pointer_or v (a.0).service;
        service_len = len_or v (a.0).service_len;
      },
      or_if (is_some v) 1024 a.1,
    )
unfolding write_service or_if
service-step none a = refl
service-step (some v) a = refl

abbrev pub flags : WriteOptions → Flags
flags o = record {
  f1 = is_some o.request_headers;
  f2 = is_some o.vary_rule;
  f3 = is_some o.initial_age;
  f4 = is_some o.stale_while_revalidate;
  f5 = is_some o.surrogate_keys;
  f6 = is_some o.length;
  f7 = is_some o.user_metadata;
  f8 = o.sensitive_data;
  f9 = is_some o.edge_max_age;
  f10 = is_some o.service;
}

abbrev pub encoded : WriteOptions → CacheWriteOptions
encoded o = record {
  max_age_ns = to_uint64 o.max_age;
  request_headers = handle_or o.request_headers 0;
  vary_rule_ptr = pointer_or o.vary_rule none;
  vary_rule_len = len_or o.vary_rule 0;
  initial_age_ns = nanoseconds_or o.initial_age 0;
  stale_while_revalidate_ns = nanoseconds_or o.stale_while_revalidate 0;
  surrogate_keys_ptr = pointer_or o.surrogate_keys none;
  surrogate_keys_len = len_or o.surrogate_keys 0;
  length = handle_or o.length 0;
  user_metadata_ptr = pointer_or o.user_metadata none;
  user_metadata_len = len_or o.user_metadata 0;
  edge_max_age_ns = nanoseconds_or o.edge_max_age 0;
  service = pointer_or o.service none;
  service_len = len_or o.service 0;
}

pub as_abi_write_lem : (o : WriteOptions) → as_abi_write o ≡ (encoded o, or_all (flags o))
unfolding as_abi_write
as_abi_write_lem o =
    rw
      (
        service-step, edge_max_age-step, sensitive_data-step, user_metadata-step, length-step,
        surrogate_keys-step, stale_while_revalidate-step, initial_age-step, vary_rule-step,
        request_headers-step,
      )
      refl
