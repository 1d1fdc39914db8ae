-- ===== src/Cache/Simple/Insertion.antt =====
-- What `get_or_set` gives back for a key that has to be inserted.
use compute_sdk_cpp.Prelude.{ℕ, ◌≡◌, refl, ◌∙◌, true, [], ◌++◌, Bytes, some}
use compute_sdk_cpp.Prelude.Int.{ℤ}
use compute_sdk_cpp.Prelude.Effects.{ok}
use compute_sdk_cpp.Host.{CacheHost, ok_status}
use compute_sdk_cpp.Host.Options.{no_get_body_options}
use compute_sdk_cpp.Host.Bodies.{BodyHost}
use compute_sdk_cpp.Host.Purge.{PurgeHost}
use compute_sdk_cpp.Http.Body
use compute_sdk_cpp.Http.Body.{from_handle}
use compute_sdk_cpp.Http.Buffer
use compute_sdk_cpp.Http.StreamingBody
use compute_sdk_cpp.Http.StreamingBody.{from_body_handle}
use compute_sdk_cpp.Cache.Core.Handles.{
  Transaction, Found, cached, replacing, cache_try, drop_cache_handle, drop_cache_replace_handle,
}
use compute_sdk_cpp.Cache.Core.Found
use compute_sdk_cpp.Cache.Core.Transaction
use compute_sdk_cpp.Cache.Core.TransactionLookupBuilder
use compute_sdk_cpp.Cache.Core.TransactionInsertBuilder
use compute_sdk_cpp.Cache.Simple.{
  CacheError, drop_found, fill_entry, insert_entry, insert_made, entry_builder, get_or_set,
}

-- What the host documents of streaming an insertion back: an append adds what the body `v` holds to
-- the streaming body `o`; once that is finished, the body of the object `f` reads as what `o` was
-- given; and closing a cache handle takes no body away.
pub record StreamsBack {S Err : Type 0} (cache : CacheHost S) (bodies : BodyHost S Err) (v o : ℕ)
    (f : Found) : Type 0 where
  pub held : S → Bytes
  pub received : S → Bytes
  pub content : ℕ → S → Bytes
  pub finished : S → S
  pub given : S → ℕ
  pub after : S → S
  pub append_adds : (s : S) → received (bodies.streaming_body_append o v s) ≡ received s ++ held s
  pub finish_lem : (s : S) → bodies.streaming_body_finish o s ≡ ok tt (finished s)
  pub get_body_lem :
      (s : S)
      → Found.get_body cache f 0 no_get_body_options (finished s) ≡ (ok_status, given s, after s)
  pub content-given : (s : S) → content (given s) (after s) ≡ received s
  pub content-close : (k h : ℕ) (s : S) → content k (cache.cache_close h s) ≡ content k s

module _ {S Err : Type 0} (cache : CacheHost S) (bodies : BodyHost S Err)
    (purges : PurgeHost S Err) where
  fill_entry_lem :
      (v o : ℕ) (f : Found) (L : StreamsBack cache bodies v o f) (s : S)
      → let s1 = bodies.streaming_body_append o v s in
        fill_entry cache bodies purges (from_handle v) (from_body_handle o) f s
        ≡ ok (some (from_handle (L.given s1))) (L.after s1)
  unfolding fill_entry Body.move StreamingBody.append StreamingBody.finish Buffer.write_loop
      Found.to_stream cache_try
  fill_entry_lem v o f L s =
      let s1 = bodies.streaming_body_append o v s in rw (L.finish_lem s1, L.get_body_lem s1) refl

  content-drop :
      (v o : ℕ) (f : Found) (L : StreamsBack cache bodies v o f) (k : ℕ) (g : Found) (s : S)
      → L.content k (drop_found cache bodies purges g s) ≡ L.content k s
  unfolding drop_cache_handle drop_cache_replace_handle
  content-drop v o f L k (cached h) s = L.content-close k h s
  content-drop v o f L k (replacing h) s = L.content-close k h s

  -- If the lookup gives a transaction that has to insert, and the insertion that follows opens a
  -- streaming body which has received nothing yet, then `get_or_set` of a body with nothing
  -- buffered succeeds and gives back a body that reads as what the given one holds, on a host
  -- that streams insertions back as `StreamsBack` says.
  pub get_or_set-inserts :
      (key : Bytes) (v : ℕ) (ttl : ℤ) (tx : Transaction) (o : ℕ) (f : Found) (s s1 s2 s3 : S)
      → TransactionLookupBuilder.execute cache (Transaction.lookup key) s ≡ ok tx s1
      → Transaction.must_insert_or_update cache {E = CacheError} tx s1 ≡ ok true s2
      → TransactionInsertBuilder.execute_and_stream_back cache
          (entry_builder cache bodies purges key ttl tx)
          s2
        ≡ ok (from_body_handle o, f) s3
      → (L : StreamsBack cache bodies v o f) → L.received s3 ≡ []
      → (h : ℕ) × (s' : S) × (get_or_set cache bodies purges key (from_handle v) ttl s
          ≡ ok (from_handle h) s')
        × (L.content h s' ≡ L.held s3)
  unfolding get_or_set Body.move Buffer.write_loop insert_made insert_entry drop_cache_handle
  get_or_set-inserts key v ttl tx o f s s1 s2 s3 e1 e2 e3 L fresh =
      let s4 = bodies.streaming_body_append o v s3 in
      let s5 = drop_found cache bodies purges f (L.after s4) in
      (
        L.given s4,
        cache.cache_close tx.handle s5,
        rw (e1, e2, e3, fill_entry_lem v o f L s3) refl,
        L.content-close (L.given s4) tx.handle s5
            ∙ (content-drop v o f L (L.given s4) f (L.after s4)
                ∙ (L.content-given s4 ∙ rw (L.append_adds s3, fresh) refl)),
      )
