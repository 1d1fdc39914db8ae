-- ===== src/Cache/Core/ReplaceBuilder/Balance.antt =====
-- The handle that a replacement opens: `ReplaceBuilder::begin` and `Replace::execute` of
-- src/cpp/cache/core.cpp.
use compute_sdk_cpp.Prelude.{
  ℕ, suc, ◌-◌, ◌≡◌, refl, ◌∙◌, ◌⊎◌, inl, inr, Bool, true, false, Bool-cases, none, some, Bytes,
  if◌then◌else◌, arith,
}
use compute_sdk_cpp.Prelude.Int.{ℤ}
use compute_sdk_cpp.Prelude.Effects.{M, ◌>>=◌, scoped}
use compute_sdk_cpp.Host.{CacheHost, is_ok}
use compute_sdk_cpp.Host.Options.{CacheReplaceOptions, CacheWriteOptions}
use compute_sdk_cpp.Host.Options.State
use compute_sdk_cpp.Http.StreamingBody.{StreamingBody}
use compute_sdk_cpp.Cache.Core.Options.{CacheError}
use compute_sdk_cpp.Cache.Core.Abi.{as_abi_replace}
use compute_sdk_cpp.Cache.Core.Handles.{replacing, has_state, drop_cache_replace_handle}
use compute_sdk_cpp.Cache.Core.Replace.{Replace, make_replace, execute}
use compute_sdk_cpp.Cache.Core.ReplaceBuilder.{ReplaceBuilder, begin, find_existing}
use compute_sdk_cpp.Cache.Simple.Ends.{
  Keeps, Opens, Ends, EndsAt, returned, failed, Ends-and_then, Ends-after_run, cache_try-Opens,
  cache_try-Keeps,
}

module _ {S : Type 0} (cache : CacheHost S) where
  -- `std::move(builder).begin()`, then `execute(max_age)` on the `Replace`, which goes at the end of the
  -- scope and takes the last owner of the handle with it.
  unfoldable pub replace_once : ℤ → ReplaceBuilder → M S CacheError StreamingBody
  replace_once max_age b = do
    r ← begin cache b
    scoped (drop_cache_replace_handle cache r.handle) (execute cache max_age r)

-- What the host documents of replace handles: a replacement that begins opens one, a close closes one,
-- and asking for the state and inserting open none.
pub record CountsReplacing {S : Type 0} (cache : CacheHost S) : Type 0 where
  pub live : S → ℕ
  pub replace_opens :
      (key : Bytes) (mask : ℕ) (o : CacheReplaceOptions)
      → Opens live (cache.cache_replace key mask o)
  pub state_keeps : (h : ℕ) → Keeps live (cache.cache_replace_get_state h)
  pub insert_keeps :
      (h mask : ℕ) (o : CacheWriteOptions) → Keeps live (cache.cache_replace_insert h mask o)
  pub close : (h : ℕ) (s : S) → live (cache.cache_close h s) ≡ live s - 1

-- The existing object of a replacement, if there is one, is its handle.
abbrev pub SharesHandle : Replace → Type 0
SharesHandle r = (r.existing_object ≡ none) ⊎ (r.existing_object ≡ some (replacing r.handle))

make_replace-SharesHandle :
    (handle : ℕ) (b : Bool)
    → SharesHandle (make_replace handle (if b then some (replacing handle) else none))
make_replace-SharesHandle handle true = inr refl
make_replace-SharesHandle handle false = inl refl

module _ {S : Type 0} (cache : CacheHost S) (C : CountsReplacing cache) where
  find_existing-Ends :
      (handle n : ℕ) (s : S)
      → C.live s ≡ suc n
      → Ends C.live
          (λ r m. (m ≡ suc n) × SharesHandle r)
          (λ m. m ≡ n)
          (find_existing cache handle s)
  unfolding find_existing drop_cache_replace_handle
  find_existing-Ends handle n s e =
      let (status, state, s1) = cache.cache_replace_get_state handle s in
      let asked : C.live s1 ≡ suc n = C.state_keeps handle s ∙ e in
      elim (Bool-cases (is_ok status)) [
        | inl good ↦
            rw good
              (returned (asked, make_replace-SharesHandle handle (has_state state State.found)))
        | inr bad ↦ rw bad (failed (omega (arith, C.close handle s1, asked)))
      ]

  -- After `begin` returned, one handle more is open, and the existing object, if there is one, is that
  -- handle; after an error, as many are open as before.
  pub begin-Ends :
      (b : ReplaceBuilder) (s : S)
      → Ends C.live
          (λ r m. (m ≡ suc (C.live s)) × SharesHandle r)
          (λ m. m ≡ C.live s)
          (begin cache b s)
  unfolding begin
  begin-Ends b s =
      let (o, mask) = as_abi_replace b.options in
      Ends-and_then
        (cache_try-Opens (cache.cache_replace b.key mask o) s (C.replace_opens b.key mask o))
        λ h s1 e. find_existing-Ends h (C.live s) s1 e

  execute-Ends :
      (max_age : ℤ) (r : Replace) (s : S) → EndsAt C.live (C.live s) (execute cache max_age r s)
  unfolding execute
  execute-Ends max_age r s =
      Ends-and_then
        (cache_try-Keeps (cache.cache_replace_insert r.handle _ _) s (C.insert_keeps r.handle _ _))
        λ h s1 e. returned e

  -- On a host on which a replacement that begins opens one handle, a close closes one, and neither
  -- the query of the state nor an insertion opens any: to begin a replacement and execute it leaves
  -- as many handles open as there were, whether it returns a body or fails, at whichever call.
  pub replace_once-Ends :
      (max_age : ℤ) (b : ReplaceBuilder) (s : S)
      → EndsAt C.live (C.live s) (replace_once cache max_age b s)
  unfolding replace_once drop_cache_replace_handle
  replace_once-Ends max_age b s = Ends-and_then (begin-Ends b s) λ r s1 p.
      Ends-after_run (cache.cache_close r.handle)
        (λ _ s2 e. omega (arith, C.close r.handle s2, e, p.0))
        (λ s2 e. omega (arith, C.close r.handle s2, e, p.0)) (execute-Ends max_age r s1)
