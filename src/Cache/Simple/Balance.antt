-- ===== src/Cache/Simple/Balance.antt =====
-- The cache handles around `get_or_set_with`: what it opens it closes.
use compute_sdk_cpp.Prelude.{
  ℕ, suc, Bool, if◌then◌else◌, ◌≤◌, ◌≡◌, ◌∙◌, true, false, none, some, Bytes, length, arith,
}
use compute_sdk_cpp.Prelude.Effects.{Run, scoped, after_run}
use compute_sdk_cpp.Host.{CacheHost}
use compute_sdk_cpp.Host.Bodies.{BodyHost}
use compute_sdk_cpp.Host.Purge.{PurgeHost}
use compute_sdk_cpp.Http.Body
use compute_sdk_cpp.Http.Body.{Body}
use compute_sdk_cpp.Http.StreamingBody
use compute_sdk_cpp.Http.StreamingBody.{StreamingBody}
use compute_sdk_cpp.Cache.Core.Abi.{as_abi_lookup, as_abi_write}
use compute_sdk_cpp.Cache.Core.Handles.{Transaction, Found, drop_cache_handle}
use compute_sdk_cpp.Cache.Core.Found
use compute_sdk_cpp.Cache.Core.Transaction
use compute_sdk_cpp.Cache.Core.TransactionLookupBuilder
use compute_sdk_cpp.Cache.Core.TransactionInsertBuilder
use compute_sdk_cpp.Cache.Simple.Ends.{
  Ends, EndsAt, EndsAt-and_then, Neutral, returned, failed, Ends-and_then, Ends-map_error,
  Ends-after_run, Ends-mono, Ends-on_error_run, Neutral-at, write_loop-Neutral, cache_try-Keeps,
  cache_try-Opens, require-Keeps,
}
use compute_sdk_cpp.Cache.Simple.Handles.{CountsHandles, to_stream-Ends, drop_found_lem}
use compute_sdk_cpp.Cache.Simple.{
  CacheError, from_core_error, other, MakeEntry, CacheEntry, drop_found, stream_transaction,
  fill_entry, insert_entry, insert_made, entry_builder, get_or_set_with,
}

-- The functions on bodies leave the cache handles alone.
pub record IgnoresHandles {S Err : Type 0} (bodies : BodyHost S Err) (live : S → ℕ) : Type 0 where
  pub write_keeps : (h : ℕ) (bytes : Bytes) → Neutral live (bodies.body_write h bytes)
  pub drop_keeps : (h : ℕ) (s : S) → live (bodies.body_drop h s) ≡ live s
  pub streaming_write_keeps :
      (h : ℕ) (bytes : Bytes) → Neutral live (bodies.streaming_body_write h bytes)
  pub streaming_append_keeps :
      (h other : ℕ) (s : S) → live (bodies.streaming_body_append h other s) ≡ live s
  pub streaming_finish_keeps : (h : ℕ) → Neutral live (bodies.streaming_body_finish h)

-- A callback that leaves the cache handles alone.
pub record IsNeutral {S : Type 0} (f : MakeEntry S) (live : S → ℕ) : Type 0 where
  pub call_keeps : Neutral live f.call
  pub drop_keeps : (s : S) → live (f.drop s) ≡ live s

module _ {S Err : Type 0} (cache : CacheHost S) (bodies : BodyHost S Err) (purges : PurgeHost S Err)
    (C : CountsHandles cache) (B : IgnoresHandles bodies C.live) where
  body_overflow-Neutral :
      (E : Type 0) (b : Body) → Neutral {E = E} C.live (Body.overflow bodies none b)
  unfolding Body.overflow
  body_overflow-Neutral E b s =
      EndsAt-and_then
        (EndsAt-and_then
          (write_loop-Neutral C.live E (bodies.body_write b.bod) (B.write_keeps b.bod)
            (length b.pending) b.pending s)
          λ done s1 e. returned e)
        λ left s1 e. returned e

  move-Neutral : (E : Type 0) (b : Body) → Neutral {E = E} C.live (Body.move bodies b)
  unfolding Body.move
  move-Neutral E b s =
      EndsAt-and_then (EndsAt-and_then (body_overflow-Neutral E b s) λ r s1 e. returned e)
        λ b1 s1 e. returned e

  streaming_overflow-Neutral :
      (b : StreamingBody) → Neutral {E = Err} C.live (StreamingBody.overflow bodies none b)
  unfolding StreamingBody.overflow
  streaming_overflow-Neutral b s =
      EndsAt-and_then
        (EndsAt-and_then
          (write_loop-Neutral C.live Err (bodies.streaming_body_write b.bod)
            (B.streaming_write_keeps b.bod) (length b.pending) b.pending s)
          λ done s1 e. returned e)
        λ left s1 e. returned e

  finish-Neutral : (b : StreamingBody) → Neutral C.live (StreamingBody.finish bodies b)
  unfolding StreamingBody.finish
  finish-Neutral b s =
      EndsAt-and_then (EndsAt-and_then (streaming_overflow-Neutral b s) λ r s1 e. returned e)
        λ (_, b1) s1 e.
          Neutral-at C.live (bodies.streaming_body_finish b1.bod) (C.live s) s1
            (B.streaming_finish_keeps b1.bod) e

  fill_entry-Neutral :
      (value : Body) (out : StreamingBody) (f : Found)
      → Neutral C.live (fill_entry cache bodies purges value out f)
  unfolding fill_entry StreamingBody.append
  fill_entry-Neutral value out f s =
      EndsAt-and_then (move-Neutral CacheError value s) λ moved s1 e1.
        EndsAt-and_then
          (Ends-map_error (λ _. other)
            (Neutral-at C.live (StreamingBody.finish bodies out) (C.live s)
              (bodies.streaming_body_append out.bod moved.bod s1) (finish-Neutral out)
              (B.streaming_append_keeps out.bod moved.bod s1 ∙ e1)))
          λ _ s2 e2.
            EndsAt-and_then
              (Ends-map_error from_core_error (
                Neutral-at C.live (Found.to_stream cache f) (C.live s) s2
                  (to_stream-Ends cache bodies purges C f) e2))
              λ b s3 e3. returned e3

  -- The handle of the new entry is open until the entry was filled.
  insert_entry-Neutral :
      (key : Bytes) (entry : CacheEntry) (tx : Transaction)
      → Neutral C.live (insert_entry cache bodies purges key entry tx)
  unfolding insert_entry TransactionInsertBuilder.execute_and_stream_back
  insert_entry-Neutral key entry tx s =
      let b = entry_builder cache bodies purges key entry.ttl tx in
      let (o, mask) = as_abi_write b.options in
      Ends-and_then {P = λ _ m. m ≡ suc (C.live s)}
        (Ends-on_error_run (bodies.body_drop entry.value.bod) (B.drop_keeps entry.value.bod) (
          Ends-map_error from_core_error (
            Ends-and_then
              (cache_try-Opens (cache.cache_transaction_insert_and_stream_back b.handle mask o) s
                (C.stream_back_opens b.handle mask o))
              λ out s1 e1. returned e1)))
        λ (out, f) s1 e1.
          Ends-after_run {P = λ _ m. m ≡ suc (C.live s)} {Q = λ m. m ≡ suc (C.live s)}
            (drop_found cache bodies purges f)
            (λ _ s2 e2. omega (arith, drop_found_lem cache bodies purges C f s2, e2))
            (λ s2 e2. omega (arith, drop_found_lem cache bodies purges C f s2, e2))
            (Neutral-at C.live (fill_entry cache bodies purges entry.value out f) (suc (C.live s))
              s1 (fill_entry-Neutral entry.value out f) e1)

  insert_made-Neutral :
      (key : Bytes) (f : MakeEntry S) (tx : Transaction)
      → Neutral C.live f.call
      → Neutral C.live (insert_made cache bodies purges key f tx)
  unfolding insert_made
  insert_made-Neutral key f tx h s = EndsAt-and_then (Ends-map_error absurd (h s)) (elim [
    | none ↦ λ s1 e. failed e
    | some entry ↦ λ s1 e.
        Neutral-at C.live (insert_entry cache bodies purges key entry tx) (C.live s) s1
          (insert_entry-Neutral key entry tx) e
  ])

  stream_transaction-Neutral :
      (tx : Transaction) → Neutral C.live (stream_transaction cache bodies purges tx)
  unfolding stream_transaction Transaction.found
  stream_transaction-Neutral tx s =
      EndsAt-and_then
        (EndsAt-and_then
          (require-Keeps (cache.cache_get_state tx.handle) s (C.state_keeps tx.handle))
          λ state s1 e. returned e)
        (elim [
          | none ↦ λ s1 e. failed e
          | some f ↦ λ s1 e.
              EndsAt-and_then
                (Ends-map_error from_core_error (
                  Neutral-at C.live (Found.to_stream cache f) (C.live s) s1
                    (to_stream-Ends cache bodies purges C f) e))
                λ b s2 e2. returned e2
        ])

  lookup-Ends :
      (key : Bytes) (s : S)
      → Ends C.live
          (λ _ m. m ≡ suc (C.live s))
          (λ m. (C.live s ≤ m) × (m ≤ suc (C.live s)))
          (TransactionLookupBuilder.execute cache (Transaction.lookup key) s)
  unfolding TransactionLookupBuilder.execute
  lookup-Ends key s =
      let b = Transaction.lookup key in
      let (o, mask) = as_abi_lookup b.options in
      Ends-and_then
        (Ends-mono (λ _ _ e. e) (λ m e. omega arith)
          (cache_try-Opens (cache.cache_transaction_lookup b.key mask o) s
            (C.transaction_lookup_opens b.key mask o)))
        λ h s1 e1.
          Ends-and_then
            (Ends-mono (λ _ _ e. e) (λ m e. omega arith)
              (cache_try-Keeps (cache.cache_get_state h) s1 (C.state_keeps h)))
            λ state s2 e2. returned (omega arith)

  -- A run with the handle of the transaction open, closed behind it.
  closed-Ends :
      {A : Type 0} (n h : ℕ) {r : Run S CacheError A}
      → EndsAt C.live (suc n) r
      → EndsAt C.live n (after_run (drop_cache_handle cache h) r)
  unfolding drop_cache_handle
  closed-Ends n h e =
      Ends-after_run (cache.cache_close h) (λ _ s1 e1. omega (arith, C.close h s1, e1))
        (λ s1 e1. omega (arith, C.close h s1, e1)) e

  branches-Ends :
      (key : Bytes) (f : MakeEntry S) (N : IsNeutral f C.live) (tx : Transaction) (n : ℕ)
      (must : Bool) (s : S)
      → C.live s ≡ suc n
      → EndsAt C.live n (
          (if must
              then scoped
                  (drop_cache_handle cache tx.handle)
                  (insert_made cache bodies purges key f tx)
              else scoped f.drop (
                  scoped
                    (drop_cache_handle cache tx.handle)
                    (stream_transaction cache bodies purges tx)))
            s)
  branches-Ends key f N tx n true s e = closed-Ends n tx.handle (
      Neutral-at C.live (insert_made cache bodies purges key f tx) (suc n) s
        (insert_made-Neutral key f tx N.call_keeps) e)
  branches-Ends key f N tx n false s e =
      Ends-after_run f.drop (λ _ s1 e1. N.drop_keeps s1 ∙ e1) (λ s1 e1. N.drop_keeps s1 ∙ e1)
        (closed-Ends n tx.handle (
          Neutral-at C.live (stream_transaction cache bodies purges tx) (suc n) s
            (stream_transaction-Neutral tx) e))

  -- On a host on which a lookup and an insertion that succeed open one handle each, a close
  -- closes one and neither queries nor the functions on bodies nor the callback open or close
  -- any: a `get_or_set_with` that returns a result, of whichever branch, leaves as many handles
  -- open as it found; one that fails leaves none or one more.
  pub get_or_set_with-Ends :
      (key : Bytes) (f : MakeEntry S) (N : IsNeutral f C.live) (s : S)
      → Ends C.live
          (λ _ m. m ≡ C.live s)
          (λ m. (C.live s ≤ m) × (m ≤ suc (C.live s)))
          (get_or_set_with cache bodies purges key f s)
  unfolding get_or_set_with Transaction.must_insert_or_update
  get_or_set_with-Ends key f N s =
      Ends-and_then {P = λ _ m. m ≡ suc (C.live s)}
        (Ends-on_error_run f.drop N.drop_keeps (Ends-map_error from_core_error (lookup-Ends key s)))
        λ tx s1 e1.
          Ends-mono (λ _ _ e. e) (λ m e. omega arith)
            (Ends-and_then {P = λ _ m. m ≡ suc (C.live s)} {Q = λ m. m ≡ C.live s}
              (Ends-and_then {P = λ _ m. m ≡ C.live s1}
                (require-Keeps (cache.cache_get_state tx.handle) s1 (C.state_keeps tx.handle))
                λ state s2 e2. returned (e2 ∙ e1))
              (λ must s2 e2. branches-Ends key f N tx (C.live s) must s2 e2))
