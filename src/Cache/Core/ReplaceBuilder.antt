-- ===== src/Cache/Core/ReplaceBuilder.antt =====
-- `replace` and `ReplaceBuilder` of src/cpp/cache/core.cpp.
pub mod Balance
use compute_sdk_cpp.Prelude.{ℕ, none, some, Bytes, true, if◌then◌else◌}
use compute_sdk_cpp.Prelude.Effects.{M, ok, err, ◌>>=◌}
use compute_sdk_cpp.Host.{CacheHost, is_ok}
use compute_sdk_cpp.Host.Options.State
use compute_sdk_cpp.Cache.Core.Options.{CacheError, from_status}
use compute_sdk_cpp.Cache.Core.Options.{ReplaceOptions}
use compute_sdk_cpp.Cache.Core.Options.{default_replace_options, ReplaceStrategy}
use compute_sdk_cpp.Cache.Core.Abi.{as_abi_replace}
use compute_sdk_cpp.Cache.Core.Replace.{Replace, make_replace}
use compute_sdk_cpp.Cache.Core.Handles.{replacing}
use compute_sdk_cpp.Cache.Core.Handles.{cache_try, has_state, drop_cache_replace_handle}

pub record ReplaceBuilder : Type 0 where
  pub key : Bytes
  pub options : ReplaceOptions

unfoldable pub replace : Bytes → ReplaceBuilder
replace key = record { key = key; options = default_replace_options }

unfoldable pub replace_strategy : ReplaceStrategy → ReplaceBuilder → ReplaceBuilder
replace_strategy strategy b = record b {
  options = record (b.options) { replace_strategy = strategy };
}

unfoldable pub always_use_requested_range : ReplaceBuilder → ReplaceBuilder
always_use_requested_range b = record b {
  options = record (b.options) { always_use_requested_range = true };
}

module _ {S : Type 0} (host : CacheHost S) where
  -- The part from the making of the shared handle on. An error return drops the handle.
  unfoldable pub find_existing : ℕ → M S CacheError Replace
  find_existing handle s =
      let (status, state, s1) = host.cache_replace_get_state handle s in
      if is_ok status
      then ok
          (make_replace handle
            (if has_state state State.found then some (replacing handle) else none))
          s1
      else err (from_status status) (drop_cache_replace_handle host handle s1)

  unfoldable pub begin : ReplaceBuilder → M S CacheError Replace
  unfolding find_existing
  begin b = do
    let (options, options_mask) = as_abi_replace b.options
    replace_handle ← cache_try (host.cache_replace b.key options_mask options)
    find_existing replace_handle
