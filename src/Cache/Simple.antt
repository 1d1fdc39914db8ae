-- ===== src/Cache/Simple.antt =====
-- The Simple Cache API: include/fastly/cache/simple.h and src/cpp/cache/simple.cpp. Objects that own
-- a handle or a body box are dropped where the source's scopes end. A move of a body that has
-- nothing pending has no effect (`move_clean` of Http/Body/WriteLaws.antt) and is left out.
pub mod Laws
pub mod SurrogateKeys
pub mod Objects
pub mod Dictionary
pub mod Steps
pub mod Refinement
pub mod Ends
pub mod Handles
pub mod Balance
pub mod Insertion
use compute_sdk_cpp.Prelude.{Bool, List, [], ◌∷◌, Option, none, some, Bytes, if◌then◌else◌}
use compute_sdk_cpp.Prelude.Int.{ℤ}
use compute_sdk_cpp.Prelude.Effects.{M, pure, throw, abort_process, ◌>>=◌, ◌>>◌}
use compute_sdk_cpp.Prelude.Effects.{map_error, scoped, on_error}
use compute_sdk_cpp.Host.{CacheHost}
use compute_sdk_cpp.Host.Bodies.{BodyHost}
use compute_sdk_cpp.Host.Purge.{PurgeHost, Scope, pop, global}
use compute_sdk_cpp.Http.Body
use compute_sdk_cpp.Http.Body.{Body}
use compute_sdk_cpp.Http.StreamingBody
use compute_sdk_cpp.Http.StreamingBody.{StreamingBody}
use compute_sdk_cpp.Http.Purge
use compute_sdk_cpp.Cache.Core.Options.{
  CacheError as CoreError, limit_exceeded_error, invalid_operation, unsupported_error, unknown,
}
use compute_sdk_cpp.Cache.Core.Handles.{Transaction, Found, cached, replacing}
use compute_sdk_cpp.Cache.Core.Handles.{drop_cache_handle, drop_cache_replace_handle}
use compute_sdk_cpp.Cache.Core.LookupBuilder
use compute_sdk_cpp.Cache.Core.Transaction
use compute_sdk_cpp.Cache.Core.TransactionLookupBuilder
use compute_sdk_cpp.Cache.Core.TransactionInsertBuilder
use compute_sdk_cpp.Cache.Core.TransactionInsertBuilder.{TransactionInsertBuilder}
use compute_sdk_cpp.Cache.Core.Found

pub data CacheError : Type 0 where
  limit_exceeded invalid_op unsupported io purge_error get_or_set_error other : CacheError

unfoldable pub from_core_error : CoreError → CacheError
from_core_error limit_exceeded_error = limit_exceeded
from_core_error invalid_operation = invalid_op
from_core_error unsupported_error = unsupported
from_core_error unknown = other

pub record CacheEntry : Type 0 where
  pub value : Body
  pub ttl : ℤ

-- `PurgeOptions`
pub record PurgeOptions : Type 0 where
  pub scope : Scope

-- The callback of `get_or_set_with`: its call, and the destructor of what it holds, which has
-- nothing left to do once the callback was called.
pub record MakeEntry (S : Type 0) : Type 0 where
  pub call : M S ⊥ (Option CacheEntry)
  pub drop : S → S

module _ {S Err : Type 0} (cache : CacheHost S) (bodies : BodyHost S Err)
    (purges : PurgeHost S Err) where
  -- The destructor of the last owner of the handle.
  abbrev pub drop_found : Found → S → S
  drop_found (cached h) = drop_cache_handle cache h
  drop_found (replacing h) = drop_cache_replace_handle cache h

  unfoldable pub surrogate_key_for_cache_key : Bytes → Scope → Bytes
  surrogate_key_for_cache_key = purges.cache_surrogate_key_for_cache_key

  -- `get`, once the lookup has returned. The two copies of the found object share its handle.
  unfoldable pub stream_found_opt : Option Found → M S CacheError (Option Body)
  stream_found_opt none = pure none
  stream_found_opt (some found) =
      scoped (drop_found found)
        (do stream ← map_error from_core_error (Found.to_stream cache found); pure (some stream))

  unfoldable pub get : Bytes → M S CacheError (Option Body)
  unfolding stream_found_opt
  get key = do
    found_opt ← map_error from_core_error (LookupBuilder.execute cache (LookupBuilder.lookup key))
    stream_found_opt found_opt

  -- `get_or_set_with`, the branch in which nothing has to be inserted.
  unfoldable pub stream_transaction : Transaction → M S CacheError (Option Body)
  stream_transaction lookup_tx = do
    found ← Transaction.found cache lookup_tx
    elim found [
      | none ↦ throw invalid_op
      | some f ↦ (do
        stream ← map_error from_core_error (Found.to_stream cache f)
        pure (some stream))
    ]

  -- The builder chain `std::move(lookup_tx).insert(…).surrogate_keys(…)`.
  unfoldable pub entry_builder : Bytes → ℤ → Transaction → TransactionInsertBuilder
  unfolding surrogate_key_for_cache_key
  entry_builder key ttl lookup_tx =
      let surrogate_keys =
        surrogate_key_for_cache_key key pop ∷ surrogate_key_for_cache_key key global ∷ [] in
      TransactionInsertBuilder.surrogate_keys surrogate_keys (Transaction.insert ttl lookup_tx)

  -- From `insert_body.append(…)` to the end.
  unfoldable pub fill_entry : Body → StreamingBody → Found → M S CacheError (Option Body)
  fill_entry value insert_body found = do
    moved ← Body.move bodies value
    StreamingBody.append bodies insert_body moved
    map_error (λ _. other) (StreamingBody.finish bodies insert_body)
    stream ← map_error from_core_error (Found.to_stream cache found)
    pure (some stream)

  unfoldable pub insert_entry : Bytes → CacheEntry → Transaction → M S CacheError (Option Body)
  unfolding entry_builder fill_entry
  insert_entry key entry lookup_tx = do
    (insert_body, found) ← on_error (bodies.body_drop entry.value.bod) (
        map_error from_core_error (
          TransactionInsertBuilder.execute_and_stream_back cache
            (entry_builder key entry.ttl lookup_tx)))
    scoped (drop_found found) (fill_entry entry.value insert_body found)

  -- `get_or_set_with`, from the call of the callback on.
  unfoldable pub insert_made : Bytes → MakeEntry S → Transaction → M S CacheError (Option Body)
  unfolding insert_entry
  insert_made key make_entry lookup_tx = do
    entry ← map_error absurd make_entry.call
    elim entry [ none ↦ throw get_or_set_error | some e ↦ insert_entry key e lookup_tx ]

  unfoldable pub get_or_set_with : Bytes → MakeEntry S → M S CacheError (Option Body)
  unfolding stream_transaction insert_made
  get_or_set_with key make_entry = do
    lookup_tx ← on_error make_entry.drop (
        map_error from_core_error (TransactionLookupBuilder.execute cache (Transaction.lookup key)))
    must ← Transaction.must_insert_or_update cache lookup_tx
    let close = drop_cache_handle cache lookup_tx.handle
    if must
        then scoped close (insert_made key make_entry lookup_tx)
        else scoped make_entry.drop (scoped close (stream_transaction lookup_tx))

  -- The callback of `get_or_set`, over the body that it captured.
  unfoldable pub entry_of : Body → ℤ → MakeEntry S
  entry_of val ttl = record {
    call = (do v ← Body.move bodies val; pure (some (record { value = v; ttl = ttl })));
    drop = bodies.body_drop val.bod;
  }

  unfoldable pub or_value : M S CacheError Body → Option Body → M S CacheError Body
  or_value missing none = missing
  or_value missing (some body) = pure body

  unfoldable pub get_or_set : Bytes → Body → ℤ → M S CacheError Body
  unfolding get_or_set_with entry_of or_value
  get_or_set key value ttl = do
    val ← Body.move bodies value
    opt ← get_or_set_with key (entry_of val ttl)
    or_value abort_process opt

  unfoldable pub purge_with_opts : Bytes → PurgeOptions → M S CacheError (Unit {0})
  unfolding surrogate_key_for_cache_key
  purge_with_opts key opts =
      map_error (λ _. purge_error)
        (Purge.purge_surrogate_key purges (surrogate_key_for_cache_key key opts.scope))

  unfoldable pub purge : Bytes → M S CacheError (Unit {0})
  unfolding purge_with_opts
  purge key = purge_with_opts key (record { scope = pop })
