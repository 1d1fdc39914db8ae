-- ===== src/Cache/Core/Found.antt =====
-- `Found` of src/cpp/cache/core.cpp.
pub mod Laws
use compute_sdk_cpp.Prelude.{ℕ, ◌-◌, Bool, true, false, ◌++◌, Bytes, Option, none, some}
use compute_sdk_cpp.Prelude.{length, take, drop, replicate, ltb, if◌then◌else◌, bit_or}
use compute_sdk_cpp.Prelude.Int.{ℤ, pos, ◌-ℤ◌, leb_ℤ, to_int64}
use compute_sdk_cpp.Prelude.Effects.{M, pure, ok, err, abort, throw, ◌>>=◌, ◌>>◌}
use compute_sdk_cpp.Host.{Call, CacheHost, Status, buffer_len, is_ok, Written}
use compute_sdk_cpp.Host.Options.State
use compute_sdk_cpp.Host.Options.{CacheGetBodyOptions, no_get_body_options}
use compute_sdk_cpp.Http.Body.{Body, from_handle}
use compute_sdk_cpp.Cache.Core.Options.{CacheError, invalid_operation}
use compute_sdk_cpp.Cache.Core.Handles.{Found, cached, replacing, cache_try, require, has_state}

-- `std::vector<uint8_t>::resize`
abbrev pub resize : ℕ → Bytes → Bytes
resize n buffer = take n buffer ++ replicate (n - length buffer) 0

-- The buffer after the host wrote to its front.
abbrev pub overwrite : Bytes → Bytes → Bytes
overwrite bytes buffer = bytes ++ drop (length bytes) buffer

-- 16 * 1024
unfoldable pub initial_size : ℕ
initial_size = 16384

abbrev is_buffer_len : Status → Bool
is_buffer_len buffer_len = true
is_buffer_len _ = false

-- The guard of `to_stream_from_range`.
abbrev pub is_invalid_range : Option ℕ → Option ℕ → Bool
is_invalid_range (some from) (some to) = ltb to from
is_invalid_range _ _ = false

abbrev set_from : Option ℕ → CacheGetBodyOptions × ℕ → CacheGetBodyOptions × ℕ
set_from none a = a
set_from (some from) a = (record (a.0) { from = from }, bit_or a.1 State.body_from)

abbrev set_to : Option ℕ → CacheGetBodyOptions × ℕ → CacheGetBodyOptions × ℕ
set_to none a = a
set_to (some to) a = (record (a.0) { to = to }, bit_or a.1 State.body_to)

-- The locals `options` and `options_mask` of `to_stream_from_range`.
unfoldable pub range_options : Option ℕ → Option ℕ → CacheGetBodyOptions × ℕ
range_options from to = set_to to (set_from from (no_get_body_options, 0))

module _ {S : Type 0} (host : CacheHost S) where
  unfoldable pub get_age : Found → Call S ℕ
  get_age (cached h) = host.cache_get_age_ns h
  get_age (replacing h) = host.cache_replace_get_age_ns h

  unfoldable pub age : {E : Type 0} → Found → M S E ℤ
  unfolding get_age
  age f = do age_ns ← require (get_age f); pure (to_int64 age_ns)

  unfoldable pub get_max_age : Found → Call S ℕ
  get_max_age (cached h) = host.cache_get_max_age_ns h
  get_max_age (replacing h) = host.cache_replace_get_max_age_ns h

  unfoldable pub max_age : {E : Type 0} → Found → M S E ℤ
  unfolding get_max_age
  max_age f = do max_age_ns ← require (get_max_age f); pure (to_int64 max_age_ns)

  -- A difference that an `int64_t` does not hold is undefined in the source; it is exact here.
  unfoldable pub remaining_ttl : {E : Type 0} → Found → M S E ℤ
  unfolding max_age age
  remaining_ttl f = do
    max ← max_age f
    current ← age f
    pure (if leb_ℤ max current then pos 0 else max -ℤ current)

  unfoldable pub get_stale_while_revalidate : Found → Call S ℕ
  get_stale_while_revalidate (cached h) = host.cache_get_stale_while_revalidate_ns h
  get_stale_while_revalidate (replacing h) = host.cache_replace_get_stale_while_revalidate_ns h

  unfoldable pub stale_while_revalidate : {E : Type 0} → Found → M S E ℤ
  unfolding get_stale_while_revalidate
  stale_while_revalidate f = do
    swr_ns ← require (get_stale_while_revalidate f)
    pure (to_int64 swr_ns)

  unfoldable pub get_state : Found → Call S ℕ
  get_state (cached h) = host.cache_get_state h
  get_state (replacing h) = host.cache_replace_get_state h

  unfoldable pub is_stale : {E : Type 0} → Found → M S E Bool
  unfolding get_state
  is_stale f = do state ← require (get_state f); pure (has_state state State.stale)

  unfoldable pub is_usable : {E : Type 0} → Found → M S E Bool
  unfolding get_state
  is_usable f = do state ← require (get_state f); pure (has_state state State.usable)

  unfoldable pub get_hits : Found → Call S ℕ
  get_hits (cached h) = host.cache_get_hits h
  get_hits (replacing h) = host.cache_replace_get_hits h

  unfoldable pub hits : {E : Type 0} → Found → M S E ℕ
  unfolding get_hits
  hits f = require (get_hits f)

  unfoldable pub get_length : Found → Call S ℕ
  get_length (cached h) = host.cache_get_length h
  get_length (replacing h) = host.cache_replace_get_length h

  unfoldable pub known_length : {E : Type 0} → Found → M S E (Option ℕ)
  unfolding get_length
  known_length f s =
      let (status, length, s1) = get_length f s in
      if is_ok status then ok (some length) s1 else ok none s1

  unfoldable pub get_metadata : Found → ℕ → Call S Written
  get_metadata (cached h) size = host.cache_get_user_metadata h size
  get_metadata (replacing h) size = host.cache_replace_get_user_metadata h size

  -- The second attempt, with the buffer resized to what the host asked for.
  unfoldable pub retry_metadata : {E : Type 0} → Found → Bytes → M S E Bytes
  retry_metadata f buffer s =
      let (status, w, s1) = get_metadata f (length buffer) s in
      if is_ok status then ok (resize w.nwritten (overwrite w.bytes buffer)) s1 else abort s1

  unfoldable pub read_metadata : {E : Type 0} → Found → Bytes → M S E Bytes
  unfolding retry_metadata
  read_metadata f buffer s =
      let (status, w, s1) = get_metadata f (length buffer) s in
      let filled = resize w.nwritten (overwrite w.bytes buffer) in
      if is_ok status
      then ok filled s1
      else (if is_buffer_len status then retry_metadata f filled s1 else abort s1)

  unfoldable pub user_metadata : {E : Type 0} → Found → M S E Bytes
  unfolding read_metadata
  user_metadata f = read_metadata f (replicate initial_size 0)

  unfoldable pub get_body : Found → ℕ → CacheGetBodyOptions → Call S ℕ
  get_body (cached h) mask options = host.cache_get_body h mask options
  get_body (replacing h) mask options = host.cache_replace_get_body h mask options

  unfoldable pub to_stream_from_range : Option ℕ → Option ℕ → Found → M S CacheError Body
  unfolding range_options get_body
  to_stream_from_range from to f = if is_invalid_range from to then throw invalid_operation else do
    let (options, options_mask) = range_options from to
    body_handle ← cache_try (get_body f options_mask options)
    pure (from_handle body_handle)

  unfoldable pub to_stream : Found → M S CacheError Body
  unfolding to_stream_from_range
  to_stream = to_stream_from_range none none
