-- ===== src/Cache/Core/Abi/Laws.antt =====
-- What the host reads back from each encoding.
use compute_sdk_cpp.Prelude.{ℕ, ◌≡◌, refl, arith, take-length, Bytes, Bool, true}
use compute_sdk_cpp.Prelude.{false, none, some, Option, is_some}
use compute_sdk_cpp.Prelude.Int.{ℤ, pos, negsuc, to_uint64, to_int64}
use compute_sdk_cpp.Cache.Core.Options.{LookupOptions, WriteOptions, ReplaceOptions}
use compute_sdk_cpp.Cache.Core.Options.{ReplaceStrategy, immediate, immediate_force_miss, wait}
use compute_sdk_cpp.Cache.Core.Abi.{as_abi_lookup, as_abi_write, as_abi_replace, strategy_number}
use compute_sdk_cpp.Cache.Core.Abi.Decode.{
  decode_lookup, decode_write, decode_replace, read_slice, when, strategy_of, IsInt64, MaybeInt64,
}
use compute_sdk_cpp.Cache.Core.Abi.Masks.{
  has_bit_1, has_bit_2, has_bit_3, has_bit_4, has_bit_5, has_bit_6, has_bit_7, has_bit_8, has_bit_9,
  has_bit_10,
}
use compute_sdk_cpp.Cache.Core.Abi.Closed.{
  handle_or, pointer_or, len_or, nanoseconds_or, flags, as_abi_write_lem,
}

-- The host reads the lookup options back as they were given: every option that was set, no other.
pub decode-as_abi_lookup : (o : LookupOptions) → decode_lookup (as_abi_lookup o) ≡ o
unfolding decode_lookup as_abi_lookup
decode-as_abi_lookup o = go o.request_headers o.service o.always_use_requested_range
  where
    go :
        (h : Option ℕ) (s : Option Bytes) (r : Bool)
        → let o : LookupOptions = record {
          request_headers = h;
          service = s;
          always_use_requested_range = r;
        } in
          decode_lookup (as_abi_lookup o) ≡ o
    go none none true = refl
    go none none false = refl
    go none (some s) true = rw (take-length s) refl
    go none (some s) false = rw (take-length s) refl
    go (some h) none true = refl
    go (some h) none false = refl
    go (some h) (some s) true = rw (take-length s) refl
    go (some h) (some s) false = rw (take-length s) refl

strategy_of-strategy_number : (r : ReplaceStrategy) → strategy_of (strategy_number r) ≡ r
unfolding strategy_number
strategy_of-strategy_number immediate = refl
strategy_of-strategy_number immediate_force_miss = refl
strategy_of-strategy_number wait = refl

-- The host reads the replace options back as they were given: the request headers, the service and the
-- range flag exactly if they were set, and the strategy, which it reads only where its bit is set and
-- takes for `immediate` otherwise.
pub decode-as_abi_replace : (o : ReplaceOptions) → decode_replace (as_abi_replace o) ≡ o
unfolding decode_replace as_abi_replace
decode-as_abi_replace o =
    go o.request_headers o.replace_strategy o.service o.always_use_requested_range
  where
    go :
        (h : Option ℕ) (t : ReplaceStrategy) (s : Option Bytes) (r : Bool)
        → let o : ReplaceOptions = record {
          request_headers = h;
          replace_strategy = t;
          service = s;
          always_use_requested_range = r;
        } in
          decode_replace (as_abi_replace o) ≡ o
    go none t none true = rw (strategy_of-strategy_number t) refl
    go none t none false = rw (strategy_of-strategy_number t) refl
    go none t (some s) true = rw (strategy_of-strategy_number t, take-length s) refl
    go none t (some s) false = rw (strategy_of-strategy_number t, take-length s) refl
    go (some h) t none true = rw (strategy_of-strategy_number t) refl
    go (some h) t none false = rw (strategy_of-strategy_number t) refl
    go (some h) t (some s) true = rw (strategy_of-strategy_number t, take-length s) refl
    go (some h) t (some s) false = rw (strategy_of-strategy_number t, take-length s) refl

pub to_int64-to_uint64 : (d : ℤ) → IsInt64 d → to_int64 (to_uint64 d) ≡ d
unfolding to_int64 to_uint64
to_int64-to_uint64 (pos n) h = ground arith
to_int64-to_uint64 (negsuc n) h = ground arith

-- A field is read back once its bit is known.
read-handle : {b : Bool} (v : Option ℕ) → b ≡ is_some v → when b (handle_or v 0) ≡ v
read-handle none e = rw e
read-handle (some h) e = rw e

read-slice :
    {b : Bool} (v : Option Bytes)
    → b ≡ is_some v
    → when b (read_slice (pointer_or v none) (len_or v 0)) ≡ v
read-slice none e = rw e
read-slice (some s) e = rw (e, take-length s)

read-nanoseconds :
    {b : Bool} (v : Option ℤ)
    → MaybeInt64 v
    → b ≡ is_some v
    → when b (to_int64 (nanoseconds_or v 0)) ≡ v
read-nanoseconds none h e = rw e
read-nanoseconds (some d) h e = rw (e, to_int64-to_uint64 d h)

-- The durations of the write options are `int64_t` values.
pub record IsRepresentable (o : WriteOptions) : Type 0 where
  pub max_age : IsInt64 o.max_age
  pub initial_age : MaybeInt64 o.initial_age
  pub stale_while_revalidate : MaybeInt64 o.stale_while_revalidate
  pub edge_max_age : MaybeInt64 o.edge_max_age

-- The host reads the write options back as they were given: every option that was set, with its
-- value, and no other, whatever subset of the ten was set. The durations are `int64_t` values.
pub decode-as_abi_write : (o : WriteOptions) → IsRepresentable o → decode_write (as_abi_write o) ≡ o
unfolding decode_write
decode-as_abi_write o r =
    let f = flags o in
    rw as_abi_write_lem (λ i. record {
      max_age = to_int64-to_uint64 o.max_age r.max_age i;
      request_headers = read-handle o.request_headers (has_bit_1 f) i;
      vary_rule = read-slice o.vary_rule (has_bit_2 f) i;
      initial_age = read-nanoseconds o.initial_age r.initial_age (has_bit_3 f) i;
      stale_while_revalidate =
          read-nanoseconds o.stale_while_revalidate r.stale_while_revalidate (has_bit_4 f) i;
      surrogate_keys = read-slice o.surrogate_keys (has_bit_5 f) i;
      length = read-handle o.length (has_bit_6 f) i;
      user_metadata = read-slice o.user_metadata (has_bit_7 f) i;
      sensitive_data = has_bit_8 f i;
      edge_max_age = read-nanoseconds o.edge_max_age r.edge_max_age (has_bit_9 f) i;
      service = read-slice o.service (has_bit_10 f) i;
    })
