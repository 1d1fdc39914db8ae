-- ===== src/Cache/Simple/Refinement/Fetching.antt =====
-- `get` of src/cpp/cache/simple.cpp, and the reading of its body, answer as a dictionary does.
use compute_sdk_cpp.Prelude.{ℕ, ◌≡◌, refl, ◌∙◌, ap, Option, none, some, Bytes}
use compute_sdk_cpp.Prelude.Effects.{ok}
use compute_sdk_cpp.Prelude.Outcomes.{Within-ok}
use compute_sdk_cpp.Host.{CacheHost}
use compute_sdk_cpp.Host.Bodies.{BodyHost}
use compute_sdk_cpp.Host.Purge.{PurgeHost}
use compute_sdk_cpp.Http.Body
use compute_sdk_cpp.Http.Body.{Body, from_handle}
use compute_sdk_cpp.Http.Body.Invariants.{take_body_string-Keeps}
use compute_sdk_cpp.Http.Body.TextLaws.{IsTextHost, take_body_string-content}
use compute_sdk_cpp.KvStore.Dictionary.{Dictionary}
use compute_sdk_cpp.KvStore.Refinement.{Fits, FitsAll}
use compute_sdk_cpp.Cache.Core.Handles.{drop_cache_handle}
use compute_sdk_cpp.Cache.Simple.{CacheError, get, stream_found_opt}
use compute_sdk_cpp.Cache.Simple.Steps.{execute_lem, to_stream_lem}
use compute_sdk_cpp.Cache.Simple.Objects.{KeepsObjects, Tagged, keys_for, with_keys}
use compute_sdk_cpp.Cache.Simple.Dictionary.{
  CacheOp, fetch, answer, after, read_text, read_opt, run_op,
}

module _ {S Err : Type 0} {cache : CacheHost S} {bodies : BodyHost S Err}
    {T : IsTextHost bodies} where
  -- What the cache stores is the dictionary, each text with the surrogate keys of its key.
  abbrev pub Represents : PurgeHost S Err → KeepsObjects cache bodies T → Dictionary → S → Type 0
  Represents purges K d s = (k : Bytes) → K.stored s k ≡ with_keys purges k (d k)

  -- One operation answers as the dictionary does.
  abbrev pub Agrees :
      PurgeHost S Err → KeepsObjects cache bodies T → Bytes → ℕ → Dictionary → CacheOp → S → Type 0
  Agrees purges K pop_name fuel d op s =
      (s' : S) × (run_op cache bodies purges fuel op s ≡ ok (answer op d) s')
      × Represents purges K (after pop_name op d) s'

module _ {S Err : Type 0} (cache : CacheHost S) (bodies : BodyHost S Err) (purges : PurgeHost S Err)
    (T : IsTextHost bodies) (K : KeepsObjects cache bodies T) (pop_name : Bytes) (fuel : ℕ) where
  -- Reading a body whose content fits gives it, and leaves the cache alone.
  pub read_text_lem :
      (d : Dictionary) (h : ℕ) (text : Bytes) (s : S)
      → T.reads.content h s ≡ text
      → Fits fuel text
      → Represents purges K d s
      → (s' : S) × (read_text cache bodies purges fuel (from_handle h) s ≡ ok (some text) s')
        × Represents purges K d s'
  unfolding read_text
  read_text_lem d h text s e (few, bytes) r =
      let (s1, e1) = take_body_string-content bodies T CacheError fuel h text s e few bytes in
      (
        s1,
        rw e1 refl,
        Within-ok (Body.take_body_string bodies fuel (from_handle h) s)
            (take_body_string-Keeps bodies (Represents purges K d)
              (K.bodies_keep (λ k. with_keys purges k (d k))) CacheError fuel (from_handle h) s r)
            e1,
      )

  get_missing :
      (d : Dictionary) (key : Bytes) (s : S)
      → d key ≡ none
      → Represents purges K d s
      → Agrees purges K pop_name fuel d (fetch key) s
  unfolding run_op get stream_found_opt read_opt
  get_missing d key s missing r =
      let absent : K.stored s key ≡ none = r key ∙ ap (with_keys purges key) missing in
      (
        (K.looked_up key s).1,
        rw (execute_lem cache bodies purges T K key s, absent, missing) refl,
        λ k. K.stored-looked_up key s k ∙ r k,
      )

  get_found :
      (d : Dictionary) (key text : Bytes) (s : S)
      → d key ≡ some text
      → Fits fuel text
      → Represents purges K d s
      → Agrees purges K pop_name fuel d (fetch key) s
  unfolding run_op get stream_found_opt read_opt drop_cache_handle
  get_found d key text s there fits r =
      let (h, s1) = K.looked_up key s in
      let o : Tagged = (text, keys_for purges key) in
      let present : K.stored s key ≡ some o = r key ∙ ap (with_keys purges key) there in
      let (holds, q1) = K.object-looked_up key o s present in
      let (_, q2) = K.get_body_lem h s1 holds in
      let (b, s2) = K.streamed h s1 in
      let (s4, e4, r4) =
        read_text_lem d b text (cache.cache_close h s2) (K.content-close b h s2 ∙ (q2 ∙ q1)) fits
          (λ k.
            K.stored-close h s2 k
            ∙ (K.stored-streamed h s1 k ∙ (K.stored-looked_up key s k ∙ r k))) in
      (
        s4,
        rw
            (
              execute_lem cache bodies purges T K key s,
              present,
              to_stream_lem cache bodies purges T K h s1 holds,
              e4,
              there,
            )
            refl,
        r4,
      )

  pub get-Agrees :
      (d : Dictionary) (key : Bytes) (s : S) (found : Option Bytes)
      → d key ≡ found
      → FitsAll fuel d
      → Represents purges K d s
      → Agrees purges K pop_name fuel d (fetch key) s
  get-Agrees d key s none e f r = get_missing d key s e r
  get-Agrees d key s (some text) e f r = get_found d key text s e (f key text e) r
