-- ===== src/Cache/Simple/Objects.antt =====
-- What the documentation of the cache promises where nothing expires, in terms of the objects that are
-- stored, with their surrogate keys, and of what handles and streaming bodies stand for.
use compute_sdk_cpp.Prelude.{
  ℕ, ◌≡◌, Bool, true, false, ◌||◌, List, [], ◌∷◌, ◌++◌, Option, none, some, Bytes, if◌then◌else◌,
}
use compute_sdk_cpp.Prelude.Effects.{ok}
use compute_sdk_cpp.Host.{CacheHost, ok_status}
use compute_sdk_cpp.Host.Options.{CacheWriteOptions, no_get_body_options}
use compute_sdk_cpp.Host.Options.State
use compute_sdk_cpp.Host.Bodies.{BodyHost}
use compute_sdk_cpp.Http.Body.Invariants.{KeepsBodies}
use compute_sdk_cpp.Http.Body.TextLaws.{IsTextHost}
use compute_sdk_cpp.Host.Purge.{PurgeHost, Scope, pop, global}
use compute_sdk_cpp.Prelude.Split.{split_on}
use compute_sdk_cpp.Cache.Simple.SurrogateKeys.{surrogate_key}
use compute_sdk_cpp.KvStore.Dictionary.{same_bytes}
use compute_sdk_cpp.Cache.Core.Abi.{as_abi_lookup}
use compute_sdk_cpp.Cache.Core.Abi.Decode.{decode_write}
use compute_sdk_cpp.Cache.Core.Options.{default_lookup_options}
use compute_sdk_cpp.Cache.Core.Handles.{cached, has_state}
use compute_sdk_cpp.Cache.Core.Found

-- The text of an object, and its surrogate keys.
abbrev pub Tagged : Type 0
Tagged = Bytes × List Bytes

abbrev pub is_some : {A : Type 0} → Option A → Bool
is_some none = false
is_some (some _) = true

abbrev pub is_none : {A : Type 0} → Option A → Bool
is_none none = true
is_none (some _) = false

-- The surrogate keys in the options of an insertion, between spaces.
abbrev pub keys_in : Option Bytes → List Bytes
keys_in none = []
keys_in (some joined) = split_on b' ' joined

abbrev pub has_key : Bytes → List Bytes → Bool
has_key key [] = false
has_key key (k ∷ keys) = same_bytes key k || has_key key keys

-- What is left of an object after a purge of the surrogate key.
abbrev pub without : Bytes → Option Tagged → Option Tagged
without key none = none
without key (some object) = if has_key key object.1 then none else some object

-- The surrogate keys of an entry: its key's for one POP, and its key's for all.
abbrev pub keys_for : {S Err : Type 0} → PurgeHost S Err → Bytes → List Bytes
keys_for purges key =
    purges.cache_surrogate_key_for_cache_key key pop
    ∷ purges.cache_surrogate_key_for_cache_key key global
    ∷ []

-- The object that stands for a text of the dictionary.
abbrev pub with_keys : {S Err : Type 0} → PurgeHost S Err → Bytes → Option Bytes → Option Tagged
with_keys purges key none = none
with_keys purges key (some text) = some (text, keys_for purges key)

-- A host whose cache keeps every object that was inserted, over bodies that read as what was written
-- to them. A lookup gives a handle to the object under its key, if there is one. Closing and dropping
-- take nothing away.
pub record KeepsObjects {S Err : Type 0} (cache : CacheHost S) (bodies : BodyHost S Err)
    (T : IsTextHost bodies) : Type 0 where
  pub stored : S → Bytes → Option Tagged
  -- the state bits of a handle, whether it has an object, and what that holds
  pub state_of : ℕ → S → ℕ
  pub has_object : ℕ → S → Bool
  pub object : ℕ → S → Bytes
  pub get_state_lem : (h : ℕ) (s : S) → cache.cache_get_state h s ≡ (ok_status, state_of h s, s)
  -- lookups
  pub looked_up : Bytes → S → ℕ × S
  pub cache_lookup_lem :
      (key : Bytes) (s : S)
      → let (o, mask) = as_abi_lookup default_lookup_options in
        cache.cache_lookup key mask o s ≡ (ok_status, (looked_up key s).0, (looked_up key s).1)
  pub stored-looked_up :
      (key : Bytes) (s : S) (k : Bytes) → stored (looked_up key s).1 k ≡ stored s k
  pub found-looked_up :
      (key : Bytes) (s : S)
      → let (h, s1) = looked_up key s in
        has_state (state_of h s1) State.found ≡ is_some (stored s key)
  pub object-looked_up :
      (key : Bytes) (o : Tagged) (s : S)
      → stored s key ≡ some o
      → let (h, s1) = looked_up key s in (has_object h s1 ≡ true) × (object h s1 ≡ o.0)
  -- bodies of objects
  pub streamed : ℕ → S → ℕ × S
  pub get_body_lem :
      (h : ℕ) (s : S)
      → has_object h s ≡ true
      → (Found.get_body cache (cached h) 0 no_get_body_options s
          ≡ (ok_status, (streamed h s).0, (streamed h s).1))
        × (T.reads.content (streamed h s).0 (streamed h s).1 ≡ object h s)
  pub stored-streamed : (h : ℕ) (s : S) (k : Bytes) → stored (streamed h s).1 k ≡ stored s k
  pub stored-close : (h : ℕ) (s : S) (k : Bytes) → stored (cache.cache_close h s) k ≡ stored s k
  pub content-close :
      (b h : ℕ) (s : S) → T.reads.content b (cache.cache_close h s) ≡ T.reads.content b s
  pub stored-drop : (h : ℕ) (s : S) (k : Bytes) → stored (bodies.body_drop h s) k ≡ stored s k
  pub content-drop :
      (b h : ℕ) (s : S) → T.reads.content b (bodies.body_drop h s) ≡ T.reads.content b s
  pub bodies_keep :
      (d : Bytes → Option Tagged) → KeepsBodies bodies (λ s. (k : Bytes) → stored s k ≡ d k)

-- The same for insertions. A transaction has to insert exactly if there is no object; an insertion is
-- finished with its streaming body, and the handle that was given with it reads the object back.
pub record InsertsObjects {S Err : Type 0} (cache : CacheHost S) (bodies : BodyHost S Err)
    (T : IsTextHost bodies) (K : KeepsObjects cache bodies T) : Type 0 where
  -- the key that a transaction has to insert
  pub wants : ℕ → S → Option Bytes
  -- the key, the surrogate keys and the bytes of a streaming body, and the streaming body that a
  -- handle waits for
  pub target : ℕ → S → Bytes
  pub keys : ℕ → S → List Bytes
  pub received : ℕ → S → Bytes
  pub waits_for : ℕ → S → ℕ
  -- transactions
  pub began : Bytes → S → ℕ × S
  pub transaction_lookup_lem :
      (key : Bytes) (s : S)
      → let (o, mask) = as_abi_lookup default_lookup_options in
        cache.cache_transaction_lookup key mask o s ≡ (ok_status, (began key s).0, (began key s).1)
  pub stored-began : (key : Bytes) (s : S) (k : Bytes) → K.stored (began key s).1 k ≡ K.stored s k
  pub content-began :
      (key : Bytes) (b : ℕ) (s : S) → T.reads.content b (began key s).1 ≡ T.reads.content b s
  pub found-began :
      (key : Bytes) (s : S)
      → let (h, s1) = began key s in
        has_state (K.state_of h s1) State.found ≡ is_some (K.stored s key)
  pub must_insert-began :
      (key : Bytes) (s : S)
      → let (h, s1) = began key s in
        has_state (K.state_of h s1) State.must_insert_or_update ≡ is_none (K.stored s key)
  pub object-began :
      (key : Bytes) (o : Tagged) (s : S)
      → K.stored s key ≡ some o
      → let (h, s1) = began key s in (K.has_object h s1 ≡ true) × (K.object h s1 ≡ o.0)
  pub wants-began :
      (key : Bytes) (s : S)
      → K.stored s key ≡ none
      → let (h, s1) = began key s in wants h s1 ≡ some key
  -- insertions
  pub inserting : ℕ → List Bytes → S → (ℕ × ℕ) × S
  pub insert_lem :
      (h mask : ℕ) (o : CacheWriteOptions) (key : Bytes) (s : S)
      → wants h s ≡ some key
      → let ((out, f), s1) = inserting h (keys_in (decode_write (o, mask)).surrogate_keys) s in
        cache.cache_transaction_insert_and_stream_back h mask o s ≡ (ok_status, (out, f), s1)
  pub inserting_lem :
      (h : ℕ) (tags : List Bytes) (key : Bytes) (s : S)
      → wants h s ≡ some key
      → let ((out, f), s1) = inserting h tags s in
        (target out s1 ≡ key)
        × (keys out s1 ≡ tags)
        × (received out s1 ≡ [])
        × (waits_for f s1 ≡ out)
  pub stored-inserting :
      (h : ℕ) (tags : List Bytes) (s : S) (k : Bytes)
      → K.stored (inserting h tags s).1 k ≡ K.stored s k
  pub content-inserting :
      (h : ℕ) (tags : List Bytes) (b : ℕ) (s : S)
      → T.reads.content b (inserting h tags s).1 ≡ T.reads.content b s
  -- streaming bodies
  pub append_lem :
      (out v f : ℕ) (s : S)
      → let s1 = bodies.streaming_body_append out v s in
        (received out s1 ≡ received out s ++ T.reads.content v s)
        × (target out s1 ≡ target out s)
        × (keys out s1 ≡ keys out s)
        × (waits_for f s1 ≡ waits_for f s)
        × ((k : Bytes) → K.stored s1 k ≡ K.stored s k)
  pub finished : ℕ → S → S
  pub finish_lem :
      (out f : ℕ) (s : S)
      → waits_for f s ≡ out
      → let s1 = finished out s in
        (bodies.streaming_body_finish out s ≡ ok tt s1)
        × (K.has_object f s1 ≡ true)
        × (K.object f s1 ≡ received out s)
        × ((k : Bytes)
            → K.stored s1 k ≡ (
                if same_bytes k (target out s)
                then some (received out s, keys out s)
                else K.stored s k))

-- The same for purges: an object goes exactly if it has the surrogate key. The bridge makes surrogate
-- keys as src/cache.rs does; SHA-256 has no collisions.
pub record PurgesObjects {S Err : Type 0} (cache : CacheHost S) (bodies : BodyHost S Err)
    (purges : PurgeHost S Err) (T : IsTextHost bodies) (K : KeepsObjects cache bodies T)
    : Type 0 where
  pub purged : Bytes → S → S
  pub purge_lem : (key : Bytes) (s : S) → purges.purge_surrogate_key key s ≡ ok tt (purged key s)
  pub stored-purged :
      (key : Bytes) (s : S) (k : Bytes) → K.stored (purged key s) k ≡ without key (K.stored s k)
  pub sha256 : Bytes → Bytes
  pub pop_name : Bytes
  pub surrogate_key_lem :
      (key : Bytes) (scope : Scope)
      → purges.cache_surrogate_key_for_cache_key key scope ≡ surrogate_key sha256 pop_name key scope
  pub no_collision : (x y : Bytes) → same_bytes (sha256 x) (sha256 y) ≡ same_bytes x y
