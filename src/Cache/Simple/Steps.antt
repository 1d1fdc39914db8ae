-- ===== src/Cache/Simple/Steps.antt =====
-- The calls that `get` and `get_or_set` of src/cpp/cache/simple.cpp make, on a host that keeps its objects.
use compute_sdk_cpp.Prelude.{ℕ, ◌≡◌, refl, true, false, none, some, Bytes, if◌then◌else◌}
use compute_sdk_cpp.Prelude.Int.{ℤ}
use compute_sdk_cpp.Prelude.Effects.{ok}
use compute_sdk_cpp.Host.{CacheHost}
use compute_sdk_cpp.Host.Bodies.{BodyHost}
use compute_sdk_cpp.Host.Purge.{PurgeHost, Scope, pop, global}
use compute_sdk_cpp.Prelude.Split.{contains}
use compute_sdk_cpp.Cache.Simple.SurrogateKeys.{surrogate_key_no_space}
use compute_sdk_cpp.Http.Body.{from_handle}
use compute_sdk_cpp.Http.Body.TextLaws.{IsTextHost}
use compute_sdk_cpp.Http.StreamingBody.{from_body_handle}
use compute_sdk_cpp.Cache.Core.Abi.{as_abi_write}
use compute_sdk_cpp.Cache.Core.Abi.Decode.{decode_write, IsInt64}
use compute_sdk_cpp.Cache.Core.Abi.Laws.{decode-as_abi_write}
use compute_sdk_cpp.Cache.Core.Join.{split_on-join_strings}
use compute_sdk_cpp.Cache.Core.Handles.{cached, cache_try, require}
use compute_sdk_cpp.Cache.Core.LookupBuilder
use compute_sdk_cpp.Cache.Core.Found
use compute_sdk_cpp.Cache.Core.Transaction
use compute_sdk_cpp.Cache.Core.TransactionLookupBuilder
use compute_sdk_cpp.Cache.Core.TransactionInsertBuilder
use compute_sdk_cpp.Cache.Simple.{entry_builder, surrogate_key_for_cache_key}
use compute_sdk_cpp.Cache.Simple.Objects.{
  KeepsObjects, InsertsObjects, PurgesObjects, is_some, is_none, keys_in, keys_for,
}

module _ {S Err : Type 0} (cache : CacheHost S) (bodies : BodyHost S Err) (purges : PurgeHost S Err)
    (T : IsTextHost bodies) (K : KeepsObjects cache bodies T) where
  pub execute_lem :
      (key : Bytes) (s : S)
      → let (h, s1) = K.looked_up key s in
        LookupBuilder.execute cache (LookupBuilder.lookup key) s
        ≡ ok (if is_some (K.stored s key) then some (cached h) else none) s1
  unfolding LookupBuilder.execute LookupBuilder.lookup cache_try
  execute_lem key s =
      let (h, s1) = K.looked_up key s in
      rw
        (
          K.cache_lookup_lem key s,
          K.get_state_lem h s1,
          K.get_state_lem h s1,
          K.found-looked_up key s,
        )
        refl

  pub to_stream_lem :
      (h : ℕ) (s : S)
      → K.has_object h s ≡ true
      → let (b, s1) = K.streamed h s in Found.to_stream cache (cached h) s ≡ ok (from_handle b) s1
  unfolding Found.to_stream cache_try
  to_stream_lem h s e = let (e1, _) = K.get_body_lem h s e in rw e1 refl

  module _ (I : InsertsObjects cache bodies T K) where
    pub begin_lem :
        (key : Bytes) (s : S)
        → let (h, s1) = I.began key s in
          TransactionLookupBuilder.execute cache (Transaction.lookup key) s
          ≡ ok (record { handle = h }) s1
    unfolding TransactionLookupBuilder.execute Transaction.lookup cache_try
    begin_lem key s =
        let (h, s1) = I.began key s in
        rw (I.transaction_lookup_lem key s, K.get_state_lem h s1) refl

    pub must_insert_lem :
        {E : Type 0} (key : Bytes) (s : S)
        → let (h, s1) = I.began key s in
          Transaction.must_insert_or_update cache {E = E} (record { handle = h }) s1
          ≡ ok (is_none (K.stored s key)) s1
    unfolding Transaction.must_insert_or_update require
    must_insert_lem key s =
        let (h, s1) = I.began key s in rw (K.get_state_lem h s1, I.must_insert-began key s) refl

    pub found_lem :
        {E : Type 0} (key : Bytes) (s : S)
        → let (h, s1) = I.began key s in
          Transaction.found cache {E = E} (record { handle = h }) s1
          ≡ ok (if is_some (K.stored s key) then some (cached h) else none) s1
    unfolding Transaction.found require
    found_lem key s =
        let (h, s1) = I.began key s in rw (K.get_state_lem h s1, I.found-began key s) refl

    module _ (P : PurgesObjects cache bodies purges T K) where
      digest_no_space :
          (key : Bytes) (scope : Scope)
          → contains b' ' (purges.cache_surrogate_key_for_cache_key key scope) ≡ false
      digest_no_space key scope =
          rw (P.surrogate_key_lem key scope) (surrogate_key_no_space P.sha256 P.pop_name key scope)

      -- The surrogate keys that the host reads from the options of an entry.
      keys_in-entry_builder :
          (h : ℕ) (key : Bytes) (ttl : ℤ)
          → IsInt64 ttl
          → let b = entry_builder cache bodies purges key ttl (record { handle = h }) in
            keys_in (decode_write (as_abi_write b.options)).surrogate_keys ≡ keys_for purges key
      unfolding surrogate_key_for_cache_key entry_builder TransactionInsertBuilder.surrogate_keys
          Transaction.insert
      keys_in-entry_builder h key ttl fits =
          let b = entry_builder cache bodies purges key ttl (record { handle = h }) in
          rw
            (decode-as_abi_write b.options (record {
              max_age = fits;
              initial_age = tt;
              stale_while_revalidate = tt;
              edge_max_age = tt;
            }))
            (split_on-join_strings (keys_for purges key) b' ' (λ e. cc)
              (digest_no_space key pop, (digest_no_space key global, tt)))

      pub insert_lem :
          (h : ℕ) (key : Bytes) (ttl : ℤ) (s : S)
          → IsInt64 ttl
          → I.wants h s ≡ some key
          → let ((out, f), s1) = I.inserting h (keys_for purges key) s in
            TransactionInsertBuilder.execute_and_stream_back cache
              (entry_builder cache bodies purges key ttl (record { handle = h }))
              s
            ≡ ok (from_body_handle out, cached f) s1
      unfolding TransactionInsertBuilder.execute_and_stream_back cache_try entry_builder
          TransactionInsertBuilder.surrogate_keys Transaction.insert
      insert_lem h key ttl s fits e =
          let b = entry_builder cache bodies purges key ttl (record { handle = h }) in
          let (o, mask) = as_abi_write b.options in
          rw (I.insert_lem h mask o key s e, keys_in-entry_builder h key ttl fits) refl
