-- ===== src/Cache/Simple/Refinement.antt =====
-- The Simple Cache of src/cpp/cache/simple.cpp is a dictionary to its clients.
mod Fetching
mod Setting
mod Purging
use compute_sdk_cpp.Prelude.{
  ℕ, ◌<◌, ◌≡◌, refl, ◌∙◌, sym, ap, subst, Bool, true, false, List, [], ◌∷◌, ◌++◌, Option, none,
  some, Bytes, length, All, if◌then◌else◌, arith,
}
use compute_sdk_cpp.Prelude.Int.{ℤ}
use compute_sdk_cpp.Prelude.Effects.{M, Run, ok, pure, ◌>>=◌}
use compute_sdk_cpp.Prelude.Outcomes.{Within-ok}
use compute_sdk_cpp.Host.{CacheHost, ok_status}
use compute_sdk_cpp.Host.Options.{CacheWriteOptions, no_get_body_options}
use compute_sdk_cpp.Host.Options.State
use compute_sdk_cpp.Host.Bodies.{BodyHost}
use compute_sdk_cpp.Host.Purge.{PurgeHost}
use compute_sdk_cpp.Http.Body
use compute_sdk_cpp.Http.Buffer
use compute_sdk_cpp.Http.StreamingBody
use compute_sdk_cpp.Http.Body.{Body, from_handle}
use compute_sdk_cpp.Http.Body.Invariants.{KeepsBodies, from_string-Keeps, take_body_string-Keeps}
use compute_sdk_cpp.Http.Body.ReadLaws.{NoEof}
use compute_sdk_cpp.Http.Body.TextLaws.{IsTextHost, from_string-content, take_body_string-content}
use compute_sdk_cpp.KvStore.Dictionary.{Dictionary, update, same_bytes}
use compute_sdk_cpp.KvStore.Refinement.{Fits, FitsAll, update-ext, Fits-either, Fits-same}
use compute_sdk_cpp.Cache.Core.Abi.{as_abi_write}
use compute_sdk_cpp.Cache.Core.Options.{default_lookup_options}
use compute_sdk_cpp.Cache.Core.Handles.{Found, cached, has_state, cache_try, drop_cache_handle}
use compute_sdk_cpp.Cache.Core.LookupBuilder
use compute_sdk_cpp.Cache.Core.Found
use compute_sdk_cpp.Cache.Simple.{
  CacheError, get, get_or_set, stream_found_opt, stream_transaction, insert_made, insert_entry,
  fill_entry, entry_builder,
}
use compute_sdk_cpp.Cache.Simple.Steps.{
  execute_lem, to_stream_lem, begin_lem, must_insert_lem, found_lem, insert_lem,
}
use compute_sdk_cpp.Cache.Simple.Objects.{KeepsObjects, InsertsObjects, PurgesObjects}
use compute_sdk_cpp.Cache.Simple.Dictionary.{
  CacheOp, fetch, fetch_or_set, drop_key, or_text, answer, kept_or_set, after, answers, after_all,
  takes_out, read_text, read_opt, run_op, run_all,
}
use compute_sdk_cpp.Cache.Simple.Refinement.Fetching.{Represents, Agrees, get-Agrees}
use compute_sdk_cpp.Cache.Simple.Refinement.Setting.{fetch_or_set-Agrees}
use compute_sdk_cpp.Cache.Simple.Refinement.Purging.{purge-Agrees}
use compute_sdk_cpp.Cache.Core.Abi.Decode.{IsInt64}

-- The text and the lifetime that an operation may put in.
abbrev pub FitsOp : ℕ → CacheOp → Type 0
FitsOp fuel (fetch key) = Unit
FitsOp fuel (fetch_or_set key text ttl) = IsInt64 ttl × Fits fuel text
FitsOp fuel (drop_key key scope) = Unit

module _ {S Err : Type 0} (cache : CacheHost S) (bodies : BodyHost S Err) (purges : PurgeHost S Err)
    (T : IsTextHost bodies) (K : KeepsObjects cache bodies T) (I : InsertsObjects cache bodies T K)
    (P : PurgesObjects cache bodies purges T K) (fuel : ℕ) where
  run_op-Agrees :
      (d : Dictionary) (op : CacheOp) (s : S)
      → FitsOp fuel op
      → FitsAll fuel d
      → Represents purges K d s
      → Agrees purges K P.pop_name fuel d op s
  run_op-Agrees d (fetch key) s h f r =
      get-Agrees cache bodies purges T K P.pop_name fuel d key s (d key) refl f r
  run_op-Agrees d (fetch_or_set key text ttl) s h f r =
      fetch_or_set-Agrees cache bodies purges T K I P fuel d key text ttl s (d key) h.0 refl h.1 f r
  run_op-Agrees d (drop_key key scope) s h f r =
      purge-Agrees cache bodies purges T K P fuel d key scope s r

  kept_or_set-FitsAll :
      (d : Dictionary) (key text : Bytes) (found : Option Bytes)
      → Fits fuel text
      → FitsAll fuel d
      → FitsAll fuel (kept_or_set found key text d)
  kept_or_set-FitsAll d key text none h f = λ k t e.
      Fits-either fuel (same_bytes k key) (some text) (d k) t (λ u. Fits-same fuel text u h) (f k) e
  kept_or_set-FitsAll d key text (some _) h f = f

  after-FitsAll :
      (d : Dictionary) (op : CacheOp)
      → FitsOp fuel op
      → FitsAll fuel d
      → FitsAll fuel (after P.pop_name op d)
  after-FitsAll d (fetch key) h f = f
  after-FitsAll d (fetch_or_set key text ttl) h f = kept_or_set-FitsAll d key text (d key) h.1 f
  after-FitsAll d (drop_key key scope) h f = λ k t e.
      Fits-either fuel (takes_out P.pop_name key scope k) none (d k) t
        (λ u q. absurd (ground arith)) (f k) e

  -- On a host whose cache keeps every inserted object until one of its surrogate keys is purged,
  -- that makes surrogate keys as src/cache.rs does with a hash without collisions, and whose bodies
  -- read as what was written to them: every sequence of `get`, `get_or_set` and `purge_with_opts` in
  -- either scope, each body read to its end, gives the answers of a dictionary that starts as the
  -- cache does, and leaves the cache as that dictionary, if every text is shorter than the fuel of the
  -- reading loop and has no byte 0xFF, and every lifetime is an `int64_t`. In the dictionary,
  -- `get_or_set` puts its text exactly where there is none, and a purge takes out its key and, as the
  -- name of the POP is hashed right behind the key, one more: in the scope of the POP the key
  -- followed by that name, in the global scope the key that is the purged one without that name at
  -- its end.
  pub run_all-Agrees :
      (ops : List CacheOp) (d : Dictionary) (s : S)
      → All (FitsOp fuel) ops
      → FitsAll fuel d
      → Represents purges K d s
      → (s' : S) × (run_all cache bodies purges fuel ops s ≡ ok (answers P.pop_name ops d) s')
        × Represents purges K (after_all P.pop_name ops d) s'
  unfolding run_all
  run_all-Agrees [] d s hs f r = (s, refl, r)
  run_all-Agrees (op ∷ ops) d s (h, hs) f r =
      let (s1, e1, r1) = run_op-Agrees d op s h f r in
      let (s2, e2, r2) =
        run_all-Agrees ops (after P.pop_name op d) s1 hs (after-FitsAll d op h f) r1 in
      (s2, rw (e1, e2) refl, r2)
