-- ===== src/Cache/Simple/Laws.antt =====
-- What the Simple Cache API returns, and what it inserts.
use compute_sdk_cpp.Prelude.{◌≡◌, ◌≢◌, refl, true, false, [], ◌∷◌, Option, none, some, Bytes}
use compute_sdk_cpp.Prelude.Int.{ℤ}
use compute_sdk_cpp.Prelude.Split.{NoneHold, split_on}
use compute_sdk_cpp.Prelude.Effects.{Run, M, ok, err, and_then, ◌>>=◌, map_error}
use compute_sdk_cpp.Prelude.Effects.{and_then-ext, on_error}
use compute_sdk_cpp.Prelude.Outcomes.{
  Yields, returned, failed, aborted, Yields-and_then, Yields-after_run, Yields-ok,
}
use compute_sdk_cpp.Host.{CacheHost}
use compute_sdk_cpp.Host.Bodies.{BodyHost}
use compute_sdk_cpp.Host.Purge.{PurgeHost, pop, global}
use compute_sdk_cpp.Http.Body
use compute_sdk_cpp.Http.Body.{Body}
use compute_sdk_cpp.Http.StreamingBody
use compute_sdk_cpp.Http.StreamingBody.{StreamingBody}
use compute_sdk_cpp.Cache.Core.Handles.{Transaction, Found, drop_cache_handle}
use compute_sdk_cpp.Cache.Core.Found
use compute_sdk_cpp.Cache.Core.Options.{write_options}
use compute_sdk_cpp.Cache.Core.Join.{join_strings, split_on-join_strings}
use compute_sdk_cpp.Cache.Core.Transaction
use compute_sdk_cpp.Cache.Core.TransactionLookupBuilder
use compute_sdk_cpp.Cache.Core.TransactionInsertBuilder
use compute_sdk_cpp.Cache.Core.TransactionInsertBuilder.{surrogate_keys}
use compute_sdk_cpp.Cache.Simple.{
  CacheError, other, get_or_set_error, drop_found, from_core_error, MakeEntry, CacheEntry,
  stream_transaction, entry_builder, fill_entry, insert_entry, insert_made, get_or_set_with,
  entry_of, or_value, get_or_set, surrogate_key_for_cache_key,
}

abbrev IsSome : {A : Type 0} → Option A → Type 0
IsSome none = ⊥
IsSome (some _) = Unit

-- Two continuations that agree on every value that a run yields give equal runs.
and_then-Yields :
    {S E A B : Type 0} {P : A → Type 0} {k l : A → M S E B} {r : Run S E A}
    → Yields P r
    → ((a : A) (s : S) → P a → k a s ≡ l a s)
    → and_then r k ≡ and_then r l
and_then-Yields (returned p) h = h _ _ p
and_then-Yields failed h = refl
and_then-Yields aborted h = refl

module _ {S Err : Type 0} (cache : CacheHost S) (bodies : BodyHost S Err)
    (purges : PurgeHost S Err) where
  stream_transaction-IsSome :
      (tx : Transaction) (s : S) → Yields IsSome (stream_transaction cache bodies purges tx s)
  unfolding stream_transaction
  stream_transaction-IsSome tx s = Yields-and_then (Transaction.found cache tx s) (elim [
    | none ↦ λ s1. failed
    | some f ↦ λ s1.
        Yields-and_then (map_error from_core_error (Found.to_stream cache f) s1) λ b s2. returned tt
  ])

  fill_entry-IsSome :
      (value : Body) (out : StreamingBody) (f : Found) (s : S)
      → Yields IsSome (fill_entry cache bodies purges value out f s)
  unfolding fill_entry
  fill_entry-IsSome v out f s = Yields-and_then (Body.move bodies v s) λ moved s1.
      Yields-and_then (StreamingBody.append bodies out moved s1) λ _ s2.
        Yields-and_then (map_error (λ _. other) (StreamingBody.finish bodies out) s2) λ _ s3.
          Yields-and_then (map_error from_core_error (Found.to_stream cache f) s3)
            λ b s4. returned tt

  insert_entry-IsSome :
      (key : Bytes) (entry : CacheEntry) (tx : Transaction) (s : S)
      → Yields IsSome (insert_entry cache bodies purges key entry tx s)
  unfolding insert_entry
  insert_entry-IsSome key entry tx s =
      Yields-and_then
        (on_error (bodies.body_drop entry.value.bod)
          (map_error from_core_error (
            TransactionInsertBuilder.execute_and_stream_back cache
              (entry_builder cache bodies purges key entry.ttl tx)))
          s)
        λ (out, f) s1.
          Yields-after_run (drop_found cache bodies purges f)
            (fill_entry-IsSome entry.value out f s1)

  insert_made-IsSome :
      (key : Bytes) (make_entry : MakeEntry S) (tx : Transaction) (s : S)
      → Yields IsSome (insert_made cache bodies purges key make_entry tx s)
  unfolding insert_made
  insert_made-IsSome key make_entry tx s =
      Yields-and_then (map_error absurd make_entry.call s)
        (elim [ none ↦ λ s1. failed | some e ↦ λ s1. insert_entry-IsSome key e tx s1 ])

  get_or_set_with-IsSome :
      (key : Bytes) (make_entry : MakeEntry S) (s : S)
      → Yields IsSome (get_or_set_with cache bodies purges key make_entry s)
  unfolding get_or_set_with
  get_or_set_with-IsSome key make_entry s =
      Yields-and_then
        (on_error make_entry.drop
          (map_error from_core_error
            (TransactionLookupBuilder.execute cache (Transaction.lookup key)))
          s)
        λ tx s1. Yields-and_then (Transaction.must_insert_or_update cache tx s1) (elim [
          | true ↦ λ s2.
              Yields-after_run (drop_cache_handle cache tx.handle)
                (insert_made-IsSome key make_entry tx s2)
          | false ↦ λ s2. Yields-after_run make_entry.drop (
              Yields-after_run (drop_cache_handle cache tx.handle)
                (stream_transaction-IsSome tx s2))
        ])

  -- With any callback, from any state, `get_or_set_with` never returns a result without a body: where
  -- it returns no error, there is one, also if the callback makes nothing. So the branch of
  -- `get_or_set` that aborts for want of a body is never taken: the function is the same with
  -- anything else in its place.
  pub get_or_set-never_missing :
      (key : Bytes) (make_entry : MakeEntry S) (body : Body) (ttl : ℤ)
      (instead : M S CacheError Body) (s s' : S)
      → (get_or_set_with cache bodies purges key make_entry s ≢ ok none s')
        × (get_or_set cache bodies purges key body ttl s
            ≡ (Body.move bodies body >>= λ val.
                  get_or_set_with cache bodies purges key (entry_of cache bodies purges val ttl)
                  >>= or_value cache bodies purges instead)
                s)
  unfolding get_or_set
  get_or_set-never_missing key make_entry b ttl instead s s' = (
    λ e.
        Yields-ok (get_or_set_with cache bodies purges key make_entry s)
          (get_or_set_with-IsSome key make_entry s) e,
    and_then-ext (Body.move bodies b s) λ val s1.
        and_then-Yields (get_or_set_with-IsSome key (entry_of cache bodies purges val ttl) s1)
          (elim [ none ↦ λ s2 missing. absurd missing | some found ↦ λ s2 _. refl ]),
  )

  -- If the transaction does not have to insert or update, the callback is not called: with another
  -- callback that is dropped alike, the whole run is the same.
  pub get_or_set_with_uncalled :
      (key : Bytes) (f g : MakeEntry S) (tx : Transaction) (s s1 s2 : S)
      → TransactionLookupBuilder.execute cache (Transaction.lookup key) s ≡ ok tx s1
      → Transaction.must_insert_or_update cache {E = CacheError} tx s1 ≡ ok false s2
      → f.drop ≡ g.drop
      → get_or_set_with cache bodies purges key f s ≡ get_or_set_with cache bodies purges key g s
  unfolding get_or_set_with
  get_or_set_with_uncalled key f g tx s s1 s2 looked_up kept same = rw (looked_up, kept, same) refl

  -- If the transaction has to insert or update and the callback makes no entry, the result of
  -- `get_or_set_with` is the error `GetOrSet`; the handle of the transaction is closed and nothing
  -- else is asked of the host.
  pub get_or_set_with_refused :
      (key : Bytes) (f : MakeEntry S) (tx : Transaction) (s s1 s2 s3 : S)
      → TransactionLookupBuilder.execute cache (Transaction.lookup key) s ≡ ok tx s1
      → Transaction.must_insert_or_update cache {E = CacheError} tx s1 ≡ ok true s2
      → f.call s2 ≡ ok none s3
      → get_or_set_with cache bodies purges key f s
        ≡ err get_or_set_error (drop_cache_handle cache tx.handle s3)
  unfolding get_or_set_with
  get_or_set_with_refused key f tx s s1 s2 s3 looked_up must refused =
      rw (looked_up, must, refused) refl

  -- An entry is inserted under the transaction with its lifetime as the maximum age, and with two
  -- surrogate keys, the key's for one POP and the key's for all, if neither holds a space; no other
  -- option is set.
  pub entry_builder_lem :
      (key : Bytes) (ttl : ℤ) (tx : Transaction)
      → let pop_key = surrogate_key_for_cache_key cache bodies purges key pop in
        let global_key = surrogate_key_for_cache_key cache bodies purges key global in
        NoneHold b' ' (pop_key ∷ global_key ∷ [])
        → (joined : Bytes) × (split_on b' ' joined ≡ pop_key ∷ global_key ∷ [])
          × (entry_builder cache bodies purges key ttl tx ≡ record {
            handle = tx.handle;
            options = record (write_options ttl) { surrogate_keys = some joined };
          })
  unfolding entry_builder surrogate_keys Transaction.insert
  entry_builder_lem key ttl tx h =
      let keys =
        surrogate_key_for_cache_key cache bodies purges key pop
        ∷ surrogate_key_for_cache_key cache bodies purges key global
        ∷ [] in
      (join_strings keys b' ', split_on-join_strings keys b' ' (λ e. cc) h, refl)
