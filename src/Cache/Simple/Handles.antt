-- ===== src/Cache/Simple/Handles.antt =====
-- The cache handles that the Simple Cache API leaves open, counted by the host.
use compute_sdk_cpp.Prelude.{ℕ, suc, ◌-◌, ◌≤◌, ◌≡◌, refl, ◌∙◌, Option, none}
use compute_sdk_cpp.Prelude.{some, Bytes, arith}
use compute_sdk_cpp.Host.{CacheHost}
use compute_sdk_cpp.Host.Options.{CacheLookupOptions, CacheWriteOptions, CacheGetBodyOptions}
use compute_sdk_cpp.Host.Bodies.{BodyHost}
use compute_sdk_cpp.Host.Purge.{PurgeHost}
use compute_sdk_cpp.Http.Body.{Body}
use compute_sdk_cpp.Cache.Core.Abi.{as_abi_lookup}
use compute_sdk_cpp.Cache.Core.Handles.{Found, cached, replacing}
use compute_sdk_cpp.Cache.Core.Handles.{drop_cache_handle, drop_cache_replace_handle}
use compute_sdk_cpp.Cache.Core.LookupBuilder
use compute_sdk_cpp.Cache.Core.Found
use compute_sdk_cpp.Cache.Simple.{from_core_error, drop_found, get}
use compute_sdk_cpp.Cache.Simple.Ends.{
  Keeps, Opens, Ends, returned, Ends-and_then, Ends-map_error, Ends-after_run, Ends-mono,
  cache_try-Keeps, cache_try-Opens,
}

-- What the host documents of its cache handles: a lookup that succeeds opens one, a close closes
-- one, and queries open none.
pub record CountsHandles {S : Type 0} (cache : CacheHost S) : Type 0 where
  pub live : S → ℕ
  pub lookup_opens :
      (key : Bytes) (mask : ℕ) (o : CacheLookupOptions) → Opens live (cache.cache_lookup key mask o)
  pub transaction_lookup_opens :
      (key : Bytes) (mask : ℕ) (o : CacheLookupOptions)
      → Opens live (cache.cache_transaction_lookup key mask o)
  pub stream_back_opens :
      (h mask : ℕ) (o : CacheWriteOptions)
      → Opens live (cache.cache_transaction_insert_and_stream_back h mask o)
  pub state_keeps : (h : ℕ) → Keeps live (cache.cache_get_state h)
  pub body_keeps :
      (f : Found) (mask : ℕ) (o : CacheGetBodyOptions) → Keeps live (Found.get_body cache f mask o)
  pub close : (h : ℕ) (s : S) → live (cache.cache_close h s) ≡ live s - 1

module _ {S Err : Type 0} (cache : CacheHost S) (bodies : BodyHost S Err) (purges : PurgeHost S Err)
    (C : CountsHandles cache) where
  -- One handle is open after a lookup that returns, found or not.
  execute-Ends :
      (b : LookupBuilder.LookupBuilder) (s : S)
      → Ends C.live
          (λ _ m. m ≡ suc (C.live s))
          (λ m. (C.live s ≤ m) × (m ≤ suc (C.live s)))
          (LookupBuilder.execute cache b s)
  unfolding LookupBuilder.execute
  execute-Ends b s =
      let (o, mask) = as_abi_lookup b.options in
      Ends-and_then
        (Ends-mono (λ _ _ e. e) (λ m e. omega arith)
          (cache_try-Opens (cache.cache_lookup b.key mask o) s (C.lookup_opens b.key mask o)))
        λ h s1 e1.
          Ends-and_then
            (Ends-mono (λ _ _ e. e) (λ m e. omega arith)
              (cache_try-Keeps (cache.cache_get_state h) s1 (C.state_keeps h)))
            λ _ s2 e2.
              Ends-and_then
                (Ends-mono (λ _ _ e. e) (λ m e. omega arith)
                  (cache_try-Keeps (cache.cache_get_state h) s2 (C.state_keeps h)))
                λ state s3 e3. returned (omega arith)

  pub to_stream-Ends :
      (f : Found) (s : S)
      → Ends C.live (λ _ m. m ≡ C.live s) (λ m. m ≡ C.live s) (Found.to_stream cache f s)
  unfolding Found.to_stream
  to_stream-Ends f s =
      Ends-and_then (cache_try-Keeps (Found.get_body cache f _ _) s (C.body_keeps f _ _))
        λ h s1 e. returned e

  pub drop_found_lem :
      (f : Found) (s : S) → C.live (drop_found cache bodies purges f s) ≡ C.live s - 1
  unfolding drop_cache_handle drop_cache_replace_handle
  drop_found_lem (cached h) s = C.close h s
  drop_found_lem (replacing h) s = C.close h s

  -- How many handles are open after `get` returned, if `n` were before.
  abbrev pub left_open : ℕ → Option Body → ℕ
  left_open n none = suc n
  left_open n (some _) = n

  -- On a host on which a lookup that succeeds opens one handle, a close closes one and queries
  -- open none, a `get` that returns a body leaves no handle open, a `get` that finds nothing
  -- leaves the handle of its lookup open for good, and one that fails leaves one open at most.
  pub get-Ends :
      (key : Bytes) (s : S)
      → Ends C.live
          (λ r m. m ≡ left_open (C.live s) r)
          (λ m. (C.live s ≤ m) × (m ≤ suc (C.live s)))
          (get cache bodies purges key s)
  unfolding get
  get-Ends key s =
      Ends-and_then (Ends-map_error from_core_error (execute-Ends (LookupBuilder.lookup key) s))
        (elim [
          | none ↦ λ s1 e. returned e
          | some f ↦ λ s1 e.
              Ends-after_run {P = λ r m. (m ≡ suc (C.live s)) × (left_open (C.live s) r ≡ C.live s)}
                {Q = λ m. m ≡ suc (C.live s)} (drop_found cache bodies purges f)
                (λ r s2 p. omega (arith, drop_found_lem f s2, p.0, p.1))
                (λ s2 q. omega (arith, drop_found_lem f s2, q))
                (Ends-mono (λ r m p. p) (λ m q. q ∙ e)
                  (Ends-and_then (Ends-map_error from_core_error (to_stream-Ends f s1))
                    (λ b s2 e2. returned (e2 ∙ e, refl))))
        ])
