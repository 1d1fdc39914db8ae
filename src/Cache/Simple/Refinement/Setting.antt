-- ===== src/Cache/Simple/Refinement/Setting.antt =====
-- `get_or_set` of src/cpp/cache/simple.cpp, and the reading of its body, answer as a dictionary does.
use compute_sdk_cpp.Prelude.{
  ℕ, ◌≡◌, refl, ◌∙◌, sym, ap, subst, true, Bool-cases, inl, inr, [], ◌∷◌, Option, none, some, Bytes,
  if◌then◌else◌, arith,
}
use compute_sdk_cpp.Prelude.Int.{ℤ}
use compute_sdk_cpp.Prelude.Effects.{ok}
use compute_sdk_cpp.Prelude.Outcomes.{Within-ok}
use compute_sdk_cpp.Host.{CacheHost}
use compute_sdk_cpp.Host.Bodies.{BodyHost}
use compute_sdk_cpp.Host.Purge.{PurgeHost}
use compute_sdk_cpp.Http.Body
use compute_sdk_cpp.Http.Buffer
use compute_sdk_cpp.Http.StreamingBody
use compute_sdk_cpp.Http.Body.{Body, from_handle}
use compute_sdk_cpp.Http.Body.Invariants.{from_string-Keeps}
use compute_sdk_cpp.Http.Body.TextLaws.{IsTextHost, from_string-content}
use compute_sdk_cpp.KvStore.Dictionary.{Dictionary, update, same_bytes}
use compute_sdk_cpp.KvStore.Refinement.{Fits, FitsAll}
use compute_sdk_cpp.Cache.Core.Abi.Decode.{IsInt64}
use compute_sdk_cpp.Cache.Core.Handles.{drop_cache_handle}
use compute_sdk_cpp.Cache.Simple.{
  CacheError, get_or_set, stream_transaction, insert_made, insert_entry, fill_entry,
}
use compute_sdk_cpp.Cache.Simple.Steps.{
  to_stream_lem, begin_lem, must_insert_lem, found_lem, insert_lem,
}
use compute_sdk_cpp.Cache.Simple.Objects.{
  KeepsObjects, InsertsObjects, PurgesObjects, Tagged, keys_for, with_keys,
}
use compute_sdk_cpp.Cache.Simple.Dictionary.{fetch_or_set, or_text, kept_or_set, read_text, run_op}
use compute_sdk_cpp.Cache.Simple.Refinement.Fetching.{Represents, Agrees, read_text_lem}

same_bytes_lem : (x y : Bytes) → same_bytes x y ≡ true → x ≡ y
same_bytes_lem [] [] e = refl
same_bytes_lem [] (b ∷ y) e = cc
same_bytes_lem (a ∷ x) [] e = cc
same_bytes_lem (a ∷ x) (b ∷ y) e = ground (arith, same_bytes_lem x y)

-- Storing the text with its surrogate keys stands for the update of the dictionary.
with_keys-update :
    {S Err : Type 0} (purges : PurgeHost S Err) (d : Dictionary) (key text k : Bytes)
    (o : Option Tagged)
    → o ≡ with_keys purges k (d k)
    → (if same_bytes k key then some (text, keys_for purges key) else o)
      ≡ with_keys purges k (update key (some text) d k)
with_keys-update purges d key text k o e = elim (Bool-cases (same_bytes k key)) [
  | inl same ↦ rw (same, same_bytes_lem k key same) refl
  | inr other ↦ rw other e
]

module _ {S Err : Type 0} (cache : CacheHost S) (bodies : BodyHost S Err) (purges : PurgeHost S Err)
    (T : IsTextHost bodies) (K : KeepsObjects cache bodies T) (I : InsertsObjects cache bodies T K)
    (P : PurgesObjects cache bodies purges T K) (fuel : ℕ) where
  -- The body of the text that a client gives, and what its making leaves alone.
  given_body :
      (d : Dictionary) (text : Bytes) (s : S)
      → Represents purges K d s
      → let h = (bodies.body_new s).0 in
        (s1 : S) × (Body.from_string bodies {E = CacheError} text s ≡ ok (from_handle h) s1)
        × (T.reads.content h s1 ≡ text)
        × Represents purges K d s1
  given_body d text s r =
      let (s1, e1, q1) = from_string-content bodies T CacheError text s in
      (
        s1,
        e1,
        q1,
        Within-ok (Body.from_string bodies text s)
            (from_string-Keeps bodies (Represents purges K d)
              (K.bodies_keep (λ k. with_keys purges k (d k))) CacheError text s r)
            e1,
      )

  set_found :
      (d : Dictionary) (key text found : Bytes) (ttl : ℤ) (s : S)
      → d key ≡ some found
      → Fits fuel found
      → Represents purges K d s
      → Agrees purges K P.pop_name fuel d (fetch_or_set key text ttl) s
  unfolding run_op get_or_set Body.move Buffer.write_loop stream_transaction drop_cache_handle
  set_found d key text found ttl s there fits r =
      let v = (bodies.body_new s).0 in
      let (s1, e1, q1, r1) = given_body d text s r in
      let (h, s2) = I.began key s1 in
      let o : Tagged = (found, keys_for purges key) in
      let present : K.stored s1 key ≡ some o = r1 key ∙ ap (with_keys purges key) there in
      let (holds, p1) = I.object-began key o s1 present in
      let (_, p2) = K.get_body_lem h s2 holds in
      let (b, s3) = K.streamed h s2 in
      let s4 = cache.cache_close h s3 in
      let (s5, e5, r5) =
        read_text_lem cache bodies purges T K P.pop_name fuel d b found (bodies.body_drop v s4)
          (K.content-drop b v s4 ∙ (K.content-close b h s3 ∙ (p2 ∙ p1))) fits
          (λ k.
            K.stored-drop v s4 k
            ∙ (K.stored-close h s3 k
                ∙ (K.stored-streamed h s2 k ∙ (I.stored-began key s1 k ∙ r1 k)))) in
      (
        s5,
        rw
            (
              e1,
              begin_lem cache bodies purges T K I key s1,
              must_insert_lem cache bodies purges T K I {E = CacheError} key s1,
              present,
              found_lem cache bodies purges T K I {E = CacheError} key s1,
              present,
              to_stream_lem cache bodies purges T K h s2 holds,
              e5,
              there,
            )
            refl,
        rw there r5,
      )

  -- The run of `get_or_set` and of the reading of its body, where there is nothing under the key.
  set_missing_run :
      (key text : Bytes) (ttl : ℤ) (s s1 s9 : S)
      → let v = (bodies.body_new s).0 in
        let (h, s2) = I.began key s1 in
        let ((out, f), s3) = I.inserting h (keys_for purges key) s2 in
        let s4 = bodies.streaming_body_append out v s3 in
        let (b, s6) = K.streamed f (I.finished out s4) in
        IsInt64 ttl
        → Body.from_string bodies {E = CacheError} text s ≡ ok (from_handle v) s1
        → K.stored s1 key ≡ none
        → I.waits_for f s4 ≡ out
        → read_text cache bodies purges fuel
            (from_handle b)
            (cache.cache_close h (cache.cache_close f s6))
          ≡ ok (some text) s9
        → run_op cache bodies purges fuel (fetch_or_set key text ttl) s ≡ ok (some text) s9
  unfolding run_op get_or_set Body.move Buffer.write_loop insert_made insert_entry fill_entry
      StreamingBody.append StreamingBody.finish drop_cache_handle
  set_missing_run key text ttl s s1 s9 int e1 absent waits e9 =
      let v = (bodies.body_new s).0 in
      let (h, s2) = I.began key s1 in
      let wanted = I.wants-began key s1 absent in
      let ((out, f), s3) = I.inserting h (keys_for purges key) s2 in
      let s4 = bodies.streaming_body_append out v s3 in
      let (e5, o5, _, _) = I.finish_lem out f s4 waits in
      rw
        (
          e1,
          begin_lem cache bodies purges T K I key s1,
          must_insert_lem cache bodies purges T K I {E = CacheError} key s1,
          absent,
          insert_lem cache bodies purges T K I P h key ttl s2 int wanted,
          e5,
          to_stream_lem cache bodies purges T K f (I.finished out s4) o5,
          e9,
        )
        refl

  set_missing :
      (d : Dictionary) (key text : Bytes) (ttl : ℤ) (s : S)
      → IsInt64 ttl
      → d key ≡ none
      → Fits fuel text
      → Represents purges K d s
      → Agrees purges K P.pop_name fuel d (fetch_or_set key text ttl) s
  set_missing d key text ttl s int missing fits r =
      let v = (bodies.body_new s).0 in
      let (s1, e1, q1, r1) = given_body d text s r in
      let absent : K.stored s1 key ≡ none = r1 key ∙ ap (with_keys purges key) missing in
      let (h, s2) = I.began key s1 in
      let wanted = I.wants-began key s1 absent in
      let ((out, f), s3) = I.inserting h (keys_for purges key) s2 in
      let (t3, g3, w3, f3) = I.inserting_lem h (keys_for purges key) key s2 wanted in
      let s4 = bodies.streaming_body_append out v s3 in
      let (w4, t4, g4, f4, k4) = I.append_lem out v f s3 in
      let waits : I.waits_for f s4 ≡ out = f4 ∙ f3 in
      let s5 = I.finished out s4 in
      let (e5, o5, c5, k5) = I.finish_lem out f s4 waits in
      let held : I.received out s4 ≡ text =
        w4
        ∙ rw (w3, I.content-inserting h (keys_for purges key) v s2, I.content-began key v s1, q1)
            refl in
      let aimed : I.target out s4 ≡ key = t4 ∙ t3 in
      let tagged : I.keys out s4 ≡ keys_for purges key = g4 ∙ g3 in
      let (_, p6) = K.get_body_lem f s5 o5 in
      let (b, s6) = K.streamed f s5 in
      let s7 = cache.cache_close f s6 in
      let s8 = cache.cache_close h s7 in
      let kept : Represents purges K d s4 = λ k.
        k4 k
        ∙ (I.stored-inserting h (keys_for purges key) s2 k ∙ (I.stored-began key s1 k ∙ r1 k)) in
      let stores : Represents purges K (update key (some text) d) s8 = λ k.
        K.stored-close h s7 k
        ∙ (K.stored-close f s6 k
            ∙ (K.stored-streamed f s5 k
                ∙ (k5 k
                    ∙ rw (held, aimed, tagged)
                        (with_keys-update purges d key text k (K.stored s4 k) (kept k))))) in
      let (s9, e9, r9) =
        read_text_lem cache bodies purges T K P.pop_name fuel (update key (some text) d) b text s8
          (K.content-close b h s7 ∙ (K.content-close b f s6 ∙ (p6 ∙ (c5 ∙ held)))) fits stores in
      (
        s9,
        set_missing_run key text ttl s s1 s9 int e1 absent waits e9
            ∙ ap (λ x. ok (some (or_text x text)) s9) (sym missing),
        subst (λ x. Represents purges K (kept_or_set x key text d) s9) (sym missing) r9,
      )

  pub fetch_or_set-Agrees :
      (d : Dictionary) (key text : Bytes) (ttl : ℤ) (s : S) (found : Option Bytes)
      → IsInt64 ttl
      → d key ≡ found
      → Fits fuel text
      → FitsAll fuel d
      → Represents purges K d s
      → Agrees purges K P.pop_name fuel d (fetch_or_set key text ttl) s
  fetch_or_set-Agrees d key text ttl s none int e h f r = set_missing d key text ttl s int e h r
  fetch_or_set-Agrees d key text ttl s (some found) int e h f r =
      set_found d key text found ttl s e (f key found e) r
