-- ===== src/KvStore/Refinement.antt =====
-- A store is a dictionary to its clients.
use compute_sdk_cpp.Prelude.{
  ℕ, ◌<◌, ◌≡◌, refl, ◌∙◌, ap, Bool, true, false, List, [], ◌∷◌, Option, none, some, Bytes, length,
  All, if◌then◌else◌, arith,
}
use compute_sdk_cpp.Prelude.Effects.{ok, err}
use compute_sdk_cpp.Prelude.Outcomes.{Within-ok}
use compute_sdk_cpp.Host.Bodies.{BodyHost}
use compute_sdk_cpp.Host.KvStores.{KvStoreHost, LookupResponseHost}
use compute_sdk_cpp.Http.Body
use compute_sdk_cpp.Http.Body.Invariants.{KeepsBodies, from_string-Keeps, take_body_string-Keeps}
use compute_sdk_cpp.Http.Body.ReadLaws.{NoEof}
use compute_sdk_cpp.Http.Body.TextLaws.{IsTextHost, from_string-content, take_body_string-content}
use compute_sdk_cpp.KvStore.{KvStore, insert, lookup, erase, take_body}
use compute_sdk_cpp.KvStore.Dictionary.{
  Dictionary, update, KvOp, put, look, remove, answer, after, answers, after_all, run_op, run_all,
  answer_of_lookup, text_of, same_bytes,
}

pub update-ext :
    (key : Bytes) (v : Option Bytes) (d d1 : Dictionary) (k : Bytes)
    → d k ≡ d1 k
    → update key v d k ≡ update key v d1 k
update-ext key v d d1 k e = ap (λ x. if same_bytes k key then v else x) e

-- A text that the reading loop reads to its end.
abbrev pub Fits : ℕ → Bytes → Type 0
Fits fuel text = (length text < fuel) × NoEof text

-- The dictionary's texts, and those that an operation puts in.
abbrev pub FitsAll : ℕ → Dictionary → Type 0
FitsAll fuel d = (key text : Bytes) → d key ≡ some text → Fits fuel text

pub Fits-either :
    (fuel : ℕ) (b : Bool) (v w : Option Bytes) (text : Bytes)
    → ((t : Bytes) → v ≡ some t → Fits fuel t)
    → ((t : Bytes) → w ≡ some t → Fits fuel t)
    → (if b then v else w) ≡ some text
    → Fits fuel text
Fits-either fuel true v w text hv hw e = hv text e
Fits-either fuel false v w text hv hw e = hw text e

pub Fits-same : (fuel : ℕ) (text t : Bytes) → Fits fuel text → some text ≡ some t → Fits fuel t
Fits-same fuel text t h e = let same : text ≡ t = ground arith in rw same at h

abbrev pub FitsOp : ℕ → KvOp → Type 0
FitsOp fuel (put key text) = Fits fuel text
FitsOp fuel (look key) = Unit
FitsOp fuel (remove key) = Unit

module _ {S Err : Type 0} (host : KvStoreHost S Err) (responses : LookupResponseHost S)
    (bodies : BodyHost S Err) (T : IsTextHost bodies) (store : ℕ) where
  -- A host that keeps under each key of the store the content of the body that was inserted last, and
  -- whose functions on bodies leave the store alone.
  pub record IsDictionary : Type 0 where
    pub stored : S → Dictionary
    pub inserted : Bytes → ℕ → S → S
    pub found : Bytes → S → ℕ × S
    pub missed : Bytes → S → Err × S
    pub erased : Bytes → S → S
    pub insert_lem :
        (key : Bytes) (h : ℕ) (s : S) → host.insert store key h s ≡ ok tt (inserted key h s)
    pub stored-inserted :
        (key : Bytes) (h : ℕ) (s : S) (k : Bytes)
        → stored (inserted key h s) k ≡ update key (some (T.reads.content h s)) (stored s) k
    pub lookup_lem :
        (key text : Bytes) (s : S)
        → stored s key ≡ some text
        → let (r, s1) = found key s in
          let (h, s2) = responses.take_body r s1 in
          (host.lookup store key s ≡ ok r s1)
          × (T.reads.content h s2 ≡ text)
          × ((k : Bytes) → stored s2 k ≡ stored s k)
    pub missing_lem :
        (key : Bytes) (s : S)
        → stored s key ≡ none
        → let (e, s1) = missed key s in
          (host.lookup store key s ≡ err e s1) × ((k : Bytes) → stored s1 k ≡ stored s k)
    pub erase_lem : (key : Bytes) (s : S) → host.erase store key s ≡ ok tt (erased key s)
    pub stored-erased :
        (key : Bytes) (s : S) (k : Bytes) → stored (erased key s) k ≡ update key none (stored s) k
    pub bodies_keep : (d : Dictionary) → KeepsBodies bodies (λ s. (k : Bytes) → stored s k ≡ d k)

  module _ (D : IsDictionary) (fuel : ℕ) where
    abbrev pub Represents : Dictionary → S → Type 0
    Represents d s = (k : Bytes) → D.stored s k ≡ d k

    abbrev some_store : KvStore
    some_store = record { store = store }

    -- One operation answers as the dictionary does.
    abbrev Agrees : Dictionary → KvOp → S → Type 0
    Agrees d op s =
        (s' : S) × (run_op host responses bodies fuel some_store op s ≡ ok (answer op d) s')
        × Represents (after op d) s'

    put-Agrees :
        (d : Dictionary) (key text : Bytes) (s : S) → Represents d s → Agrees d (put key text) s
    unfolding run_op insert
    put-Agrees d key text s r =
        let h = (bodies.body_new s).0 in
        let (s1, e1, q1) = from_string-content bodies T Err text s in
        let kept : Represents d s1 =
          Within-ok (Body.from_string bodies text s)
            (from_string-Keeps bodies (Represents d) (D.bodies_keep d) Err text s r) e1 in
        (
          D.inserted key h s1,
          rw (e1, D.insert_lem key h s1) refl,
          λ k.
              D.stored-inserted key h s1 k
              ∙ rw q1 (update-ext key (some text) (D.stored s1) d k (kept k)),
        )

    remove-Agrees :
        (d : Dictionary) (key : Bytes) (s : S) → Represents d s → Agrees d (remove key) s
    unfolding run_op erase
    remove-Agrees d key s r = (
      D.erased key s,
      rw (D.erase_lem key s) refl,
      λ k. D.stored-erased key s k ∙ update-ext key none (D.stored s) d k (r k),
    )

    look_found :
        (d : Dictionary) (key text : Bytes) (s : S)
        → d key ≡ some text
        → Fits fuel text
        → Represents d s
        → Agrees d (look key) s
    unfolding run_op lookup answer_of_lookup text_of take_body
    look_found d key text s there (few, bytes) r =
        let (e1, q1, kept1) = D.lookup_lem key text s (r key ∙ there) in
        let (box, s1) = D.found key s in
        let (h, s2) = responses.take_body box s1 in
        let (s3, e3) = take_body_string-content bodies T Err fuel h text s2 q1 few bytes in
        (
          s3,
          rw (e1, e3, there) refl,
          Within-ok (Body.take_body_string bodies fuel (Body.from_handle h) s2)
              (take_body_string-Keeps bodies (Represents d) (D.bodies_keep d) Err fuel
                (Body.from_handle h) s2 (λ k. kept1 k ∙ r k))
              e3,
        )

    look_missing :
        (d : Dictionary) (key : Bytes) (s : S)
        → d key ≡ none
        → Represents d s
        → Agrees d (look key) s
    unfolding run_op lookup answer_of_lookup
    look_missing d key s missing r =
        let (e1, kept1) = D.missing_lem key s (r key ∙ missing) in
        ((D.missed key s).1, rw (e1, missing) refl, λ k. kept1 k ∙ r k)

    look-Agrees :
        (d : Dictionary) (key : Bytes) (s : S) (found : Option Bytes)
        → d key ≡ found
        → FitsAll fuel d
        → Represents d s
        → Agrees d (look key) s
    look-Agrees d key s none e f r = look_missing d key s e r
    look-Agrees d key s (some text) e f r = look_found d key text s e (f key text e) r

    run_op-Agrees :
        (d : Dictionary) (op : KvOp) (s : S) → FitsAll fuel d → Represents d s → Agrees d op s
    run_op-Agrees d (put key text) s f r = put-Agrees d key text s r
    run_op-Agrees d (look key) s f r = look-Agrees d key s (d key) refl f r
    run_op-Agrees d (remove key) s f r = remove-Agrees d key s r

    after-FitsAll :
        (d : Dictionary) (op : KvOp) → FitsOp fuel op → FitsAll fuel d → FitsAll fuel (after op d)
    after-FitsAll d (put key text) h f = λ k t e.
        Fits-either fuel (same_bytes k key) (some text) (d k) t (λ u. Fits-same fuel text u h) (f k)
          e
    after-FitsAll d (look key) h f = f
    after-FitsAll d (remove key) h f = λ k t e.
        Fits-either fuel (same_bytes k key) none (d k) t (λ u q. absurd (ground arith)) (f k) e

    -- On a host whose bodies read as what was written to them, and that keeps under each key the
    -- content of the body inserted last: every sequence of insertions, lookups and erasures of texts,
    -- done with `KVStore` and `Body`, gives the answers of a dictionary that starts as the store
    -- does, and leaves the store as that dictionary, if every text is shorter than the fuel of the
    -- reading loop and has no byte 0xFF.
    pub run_all-refines :
        (ops : List KvOp) (d : Dictionary) (s : S)
        → All (FitsOp fuel) ops
        → FitsAll fuel d
        → Represents d s
        → (s' : S) × (run_all host responses bodies fuel some_store ops s ≡ ok (answers ops d) s')
          × Represents (after_all ops d) s'
    unfolding run_all
    run_all-refines [] d s hs f r = (s, refl, r)
    run_all-refines (op ∷ ops) d s (h, hs) f r =
        let (s1, e1, r1) = run_op-Agrees d op s f r in
        let (s2, e2, r2) = run_all-refines ops (after op d) s1 hs (after-FitsAll d op h f) r1 in
        (s2, rw (e1, e2) refl, r2)
