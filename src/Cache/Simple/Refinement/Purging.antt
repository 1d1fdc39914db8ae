-- ===== src/Cache/Simple/Refinement/Purging.antt =====
-- `purge_with_opts` of src/cpp/cache/simple.cpp takes keys out of the dictionary.
use compute_sdk_cpp.Prelude.{
  ℕ, ◌≡◌, refl, ◌∙◌, ap, Bool, true, false, ◌||◌, ◌++◌, Option, none, some, Bytes, if◌then◌else◌,
}
use compute_sdk_cpp.Host.{CacheHost}
use compute_sdk_cpp.Host.Bodies.{BodyHost}
use compute_sdk_cpp.Host.Purge.{PurgeHost, Scope, pop, global}
use compute_sdk_cpp.Http.Body.TextLaws.{IsTextHost}
use compute_sdk_cpp.Http.Purge.{purge_surrogate_key}
use compute_sdk_cpp.KvStore.Dictionary.{Dictionary, same_bytes}
use compute_sdk_cpp.Cache.Simple.{purge_with_opts, surrogate_key_for_cache_key}
use compute_sdk_cpp.Cache.Simple.Objects.{
  KeepsObjects, PurgesObjects, has_key, without, keys_for, with_keys,
}
use compute_sdk_cpp.Cache.Simple.Dictionary.{drop_key, run_op, takes_out}
use compute_sdk_cpp.Cache.Simple.SurrogateKeys.{hashed, surrogate_key_same}
use compute_sdk_cpp.Cache.Simple.Refinement.Fetching.{Represents, Agrees}

or_false : (a b : Bool) → (a || (b || false)) ≡ (a || b)
or_false true b = refl
or_false false true = refl
or_false false false = refl

module _ {S Err : Type 0} (cache : CacheHost S) (bodies : BodyHost S Err) (purges : PurgeHost S Err)
    (T : IsTextHost bodies) (K : KeepsObjects cache bodies T)
    (P : PurgesObjects cache bodies purges T K) (fuel : ℕ) where
  -- The surrogate keys of `k` have that of `key` exactly if a purge of `key` takes `k` out.
  has_key-keys_for :
      (key k : Bytes) (scope : Scope)
      → has_key (purges.cache_surrogate_key_for_cache_key key scope) (keys_for purges k)
        ≡ takes_out P.pop_name key scope k
  has_key-keys_for key k scope =
      rw
        (
          P.surrogate_key_lem key scope,
          P.surrogate_key_lem k pop,
          P.surrogate_key_lem k global,
          surrogate_key_same P.sha256 P.pop_name P.no_collision key k scope pop,
          surrogate_key_same P.sha256 P.pop_name P.no_collision key k scope global,
        )
        (or_false (same_bytes (hashed P.pop_name key scope) (k ++ P.pop_name))
          (same_bytes (hashed P.pop_name key scope) k))

  if_none : (b : Bool) (k : Bytes) → none ≡ with_keys purges k (if b then none else none)
  if_none true k = refl
  if_none false k = refl

  if_some :
      (b : Bool) (k text : Bytes)
      → (if b then none else some (text, keys_for purges k))
        ≡ with_keys purges k (if b then none else some text)
  if_some true k text = refl
  if_some false k text = refl

  without-with_keys :
      (key k : Bytes) (scope : Scope) (o : Option Bytes)
      → without (purges.cache_surrogate_key_for_cache_key key scope) (with_keys purges k o)
        ≡ with_keys purges k (if takes_out P.pop_name key scope k then none else o)
  without-with_keys key k scope none = if_none (takes_out P.pop_name key scope k) k
  without-with_keys key k scope (some text) =
      rw (has_key-keys_for key k scope) (if_some (takes_out P.pop_name key scope k) k text)

  pub purge-Agrees :
      (d : Dictionary) (key : Bytes) (scope : Scope) (s : S)
      → Represents purges K d s
      → Agrees purges K P.pop_name fuel d (drop_key key scope) s
  unfolding run_op purge_with_opts surrogate_key_for_cache_key purge_surrogate_key
  purge-Agrees d key scope s r =
      let digest = purges.cache_surrogate_key_for_cache_key key scope in
      (
        P.purged digest s,
        rw (P.purge_lem digest s) refl,
        λ k.
            P.stored-purged digest s k
            ∙ (ap (without digest) (r k) ∙ without-with_keys key k scope (d k)),
      )
