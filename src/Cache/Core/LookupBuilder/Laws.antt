-- ===== src/Cache/Core/LookupBuilder/Laws.antt =====
-- The doubled state query of a lookup.
use compute_sdk_cpp.Prelude.{ℕ, ◌≡◌, refl, Option, none, some, if◌then◌else◌, Bool-cases, inl, inr}
use compute_sdk_cpp.Prelude.Effects.{M, pure, ◌>>=◌, and_then-ext}
use compute_sdk_cpp.Host.{CacheHost, is_ok}
use compute_sdk_cpp.Host.Options.State
use compute_sdk_cpp.Cache.Core.Options.{CacheError}
use compute_sdk_cpp.Cache.Core.Abi.{as_abi_lookup}
use compute_sdk_cpp.Cache.Core.Handles.{Found, cached, cache_try, has_state}
use compute_sdk_cpp.Cache.Core.LookupBuilder.{LookupBuilder, execute}

-- A lookup that asks for the state once.
pub lookup_once : {S : Type 0} (host : CacheHost S) → LookupBuilder → M S CacheError (Option Found)
lookup_once host b = do
  let (options, options_mask) = as_abi_lookup b.options
  handle ← cache_try (host.cache_lookup b.key options_mask options)
  state ← cache_try (host.cache_get_state handle)
  pure (if has_state state State.found then some (cached handle) else none)

-- If asking for a state changes nothing, the second query of `execute` makes no difference.
pub execute-lookup_once :
    {S : Type 0} (host : CacheHost S)
    → ((h : ℕ) (s : S) → (host.cache_get_state h s).2 ≡ s)
    → (b : LookupBuilder) (s : S) → execute host b s ≡ lookup_once host b s
unfolding execute lookup_once cache_try
execute-lookup_once host query b s =
    let (o, mask) = as_abi_lookup b.options in
    and_then-ext (cache_try (host.cache_lookup b.key mask o) s) λ h s1.
      elim (Bool-cases (is_ok (host.cache_get_state h s1).0)) [
        | inl good ↦ rw (good, query h s1, good, query h s1) refl
        | inr bad ↦ rw bad refl
      ]
