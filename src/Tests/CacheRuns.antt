-- ===== src/Tests/CacheRuns.antt =====
-- A run of a Simple Cache that is a dictionary.
use compute_sdk_cpp.Prelude.{
  ℕ, ◌≡◌, refl, List, [], ◌∷◌, ◌++◌, Option, none, some, Bytes, length, if◌then◌else◌, arith,
}
use compute_sdk_cpp.Prelude.Int.{pos}
use compute_sdk_cpp.Prelude.Effects.{M, ok, pure}
use compute_sdk_cpp.Prelude.Outcomes
use compute_sdk_cpp.Host.{CacheHost, ok_status}
use compute_sdk_cpp.Host.Options.{no_get_body_options}
use compute_sdk_cpp.Host.Options.State
use compute_sdk_cpp.Host.Bodies.{BodyHost}
use compute_sdk_cpp.Host.Purge.{PurgeHost, pop, global}
use compute_sdk_cpp.Cache.Simple.SurrogateKeys.{surrogate_key}
use compute_sdk_cpp.Cache.Core.Abi.Decode.{decode_write}
use compute_sdk_cpp.Http.Body.ReadLaws.{IsReader}
use compute_sdk_cpp.Http.Body.TextLaws.{IsTextHost}
use compute_sdk_cpp.Http.Buffer.Laws.{IsWriter}
use compute_sdk_cpp.KvStore.Dictionary.{same_bytes}
use compute_sdk_cpp.Cache.Core.Handles.{cached, has_state}
use compute_sdk_cpp.Cache.Core.Found.{get_body}
use compute_sdk_cpp.Cache.Simple.Dictionary.{
  CacheOp, fetch, fetch_or_set, drop_key, answers, after_all, run_all,
}
use compute_sdk_cpp.Cache.Simple.Objects.{
  KeepsObjects, InsertsObjects, PurgesObjects, Tagged, is_some, is_none, keys_in, without,
  with_keys,
}
use compute_sdk_cpp.Cache.Simple.Refinement.{run_all-Agrees}
use compute_sdk_cpp.Tests.Toys.{any_cache, taken, first_byte, rest_bytes, first_byte-nil}
use compute_sdk_cpp.Tests.DictionaryRuns.{content-rest, nothing}

-- The cached objects, the content of the one body, the object of the last handle, the key of the last
-- transaction, the surrogate keys of its insertion, and what its streaming body received.
record Shelf : Type 0 where
  objects : Bytes → Option Tagged
  content : Bytes
  object : Option Tagged
  key : Bytes
  keys : List Bytes
  received : Bytes

abbrev shelf_write : Bytes → M Shelf (Unit {0}) ℕ
shelf_write bytes s = ok (length (taken bytes)) (record s { content = s.content ++ taken bytes })

abbrev finish_shelf : Shelf → Shelf
finish_shelf s = record s {
  objects = λ k. if same_bytes k s.key then some (s.received, s.keys) else s.objects k;
  object = some (s.received, s.keys);
}

abbrev shelf_bodies : BodyHost Shelf (Unit {0})
shelf_bodies = record {
  body_new = λ s. (0, record s { content = [] });
  body_read = λ _ n s. ok (first_byte n s.content) (record s { content = rest_bytes n s.content });
  body_write = λ _. shelf_write;
  body_append = λ _ _ s. s;
  body_append_trailer = λ _ _ _. pure tt;
  body_drop = λ _ s. s;
  streaming_body_write = λ _ bytes s. ok (length bytes) s;
  streaming_body_append = λ _ _ s. record s { received = s.received ++ s.content };
  streaming_body_append_trailer = λ _ _ _. pure tt;
  streaming_body_finish = λ _ s. ok tt (finish_shelf s);
}

abbrev shelf_write-IsWriter : IsWriter shelf_write
shelf_write-IsWriter = record {
  sent = λ s. s.content;
  extra = λ _. elim [ [] ↦ λ s. 0 | d ∷ ds ↦ λ s. 1 ];
  after = λ c cs s. record s { content = s.content ++ taken (c ∷ cs) };
  extra_le = λ c. elim [ [] ↦ λ s. omega arith | d ∷ ds ↦ λ s. omega arith ];
  write_lem = λ c. elim [ [] ↦ λ s. refl | d ∷ ds ↦ λ s. refl ];
  sent-after = λ c. elim [ [] ↦ λ s. refl | d ∷ ds ↦ λ s. refl ];
}

abbrev shelf_bodies-IsReader : IsReader shelf_bodies
shelf_bodies-IsReader = record {
  content = λ _ s. s.content;
  chunk = λ _ n s. first_byte n s.content;
  after = λ _ n s. record s { content = rest_bytes n s.content };
  read_lem = λ _ n s. refl;
  content-after = λ _ n s. content-rest n s.content;
  chunk-nil = λ _ n s e. first_byte-nil n s.content e;
}

abbrev shelf_bodies-IsTextHost : IsTextHost shelf_bodies
shelf_bodies-IsTextHost = record {
  reads = shelf_bodies-IsReader;
  writes = λ _. shelf_write-IsWriter;
  sent_content = λ _ s. refl;
  content-new = λ s. refl;
}

abbrev text_of : Option Tagged → Bytes
text_of none = []
text_of (some (text, keys)) = text

-- The state of a handle whose object is this.
abbrev state_bits : Option Tagged → ℕ
state_bits none = State.must_insert_or_update
state_bits (some x) = State.found

found-state_bits : (o : Option Tagged) → has_state (state_bits o) State.found ≡ is_some o
found-state_bits none = refl
found-state_bits (some x) = refl

must_insert-state_bits :
    (o : Option Tagged) → has_state (state_bits o) State.must_insert_or_update ≡ is_none o
must_insert-state_bits none = refl
must_insert-state_bits (some x) = refl

abbrev wanted : Option Tagged → Bytes → Option Bytes
wanted none key = some key
wanted (some text) key = none

wanted_key : (o : Option Tagged) (k key : Bytes) → wanted o k ≡ some key → k ≡ key
wanted_key none k key e = ground arith
wanted_key (some text) k key e = absurd (ground arith)

abbrev shelf : CacheHost Shelf
shelf = record (any_cache (λ s. s) (λ s. s) 0 []) {
  cache_lookup = λ key _ _ s. (ok_status, 4, record s { object = s.objects key });
  cache_transaction_lookup =
      λ key _ _ s. (ok_status, 4, record s { object = s.objects key; key = key });
  cache_get_state = λ _ s. (ok_status, state_bits s.object, s);
  cache_get_body = λ _ _ _ s. (ok_status, 9, record s { content = text_of s.object });
  cache_transaction_insert_and_stream_back = λ _ mask o s. (
    ok_status,
    (8, 5),
    record s { received = []; keys = keys_in (decode_write (o, mask)).surrogate_keys },
  );
}

get_body_object :
    (h : ℕ) (s : Shelf)
    → get_body shelf (cached h) 0 no_get_body_options s
      ≡ (ok_status, 9, record s { content = text_of s.object })
unfolding get_body
get_body_object h s = refl

abbrev shelf-KeepsObjects : KeepsObjects shelf shelf_bodies shelf_bodies-IsTextHost
shelf-KeepsObjects = record {
  stored = λ s. s.objects;
  state_of = λ _ s. state_bits s.object;
  has_object = λ _ s. is_some s.object;
  object = λ _ s. text_of s.object;
  get_state_lem = λ _ s. refl;
  looked_up = λ key s. (4, record s { object = s.objects key });
  cache_lookup_lem = λ key s. refl;
  stored-looked_up = λ key s k. refl;
  found-looked_up = λ key s. found-state_bits (s.objects key);
  object-looked_up = λ key o s e. (rw e refl, rw e refl);
  streamed = λ _ s. (9, record s { content = text_of s.object });
  get_body_lem = λ h s e. (get_body_object h s, refl);
  stored-streamed = λ _ s k. refl;
  stored-close = λ _ s k. refl;
  content-close = λ _ _ s. refl;
  stored-drop = λ _ s k. refl;
  content-drop = λ _ _ s. refl;
  bodies_keep = λ d. record {
    new_keeps = λ s p. p;
    write_keeps = λ h c cs s p. Outcomes.returned p;
    read_keeps = λ h n s p. Outcomes.returned p;
  };
}

abbrev shelf-InsertsObjects :
    InsertsObjects shelf shelf_bodies shelf_bodies-IsTextHost shelf-KeepsObjects
shelf-InsertsObjects = record {
  wants = λ _ s. wanted s.object s.key;
  target = λ _ s. s.key;
  keys = λ _ s. s.keys;
  received = λ _ s. s.received;
  waits_for = λ _ s. 8;
  began = λ key s. (4, record s { object = s.objects key; key = key });
  transaction_lookup_lem = λ key s. refl;
  stored-began = λ key s k. refl;
  content-began = λ key b s. refl;
  found-began = λ key s. found-state_bits (s.objects key);
  must_insert-began = λ key s. must_insert-state_bits (s.objects key);
  object-began = λ key o s e. (rw e refl, rw e refl);
  wants-began = λ key s e. rw e refl;
  inserting = λ _ keys s. ((8, 5), record s { received = []; keys = keys });
  insert_lem = λ h mask o key s e. refl;
  inserting_lem = λ h keys key s e. (wanted_key s.object s.key key e, refl, refl, refl);
  stored-inserting = λ h keys s k. refl;
  content-inserting = λ h keys b s. refl;
  append_lem = λ out v f s. (refl, refl, refl, refl, λ k. refl);
  finished = λ _ s. finish_shelf s;
  finish_lem = λ out f s e. (refl, refl, refl, λ k. refl);
}

-- A POP, and the identity in place of the hash.
abbrev pop_name : Bytes
pop_name = b'L' ∷ []

abbrev shelf_purges : PurgeHost Shelf (Unit {0})
shelf_purges = record {
  cache_surrogate_key_for_cache_key = surrogate_key (λ x. x) pop_name;
  purge_surrogate_key = λ key s. ok tt (record s { objects = λ k. without key (s.objects k) });
  soft_purge_surrogate_key = λ _. pure tt;
}

abbrev shelf-PurgesObjects :
    PurgesObjects shelf shelf_bodies shelf_purges shelf_bodies-IsTextHost shelf-KeepsObjects
shelf-PurgesObjects = record {
  purged = λ key s. record s { objects = λ k. without key (s.objects k) };
  purge_lem = λ key s. refl;
  stored-purged = λ key s k. refl;
  sha256 = λ x. x;
  pop_name = pop_name;
  surrogate_key_lem = λ key scope. refl;
  no_collision = λ x y. refl;
}

abbrev empty_shelf : Shelf
empty_shelf = record {
  objects = λ k. none;
  content = [];
  object = none;
  key = [];
  keys = [];
  received = [];
}

abbrev five_ops : List CacheOp
five_ops =
    fetch (b'k' ∷ [])
    ∷ fetch_or_set (b'k' ∷ []) (b'v' ∷ b'w' ∷ []) (pos 60)
    ∷ fetch_or_set (b'k' ∷ []) (b'x' ∷ []) (pos 60)
    ∷ drop_key (b'k' ∷ []) global
    ∷ fetch (b'k' ∷ [])
    ∷ []

run_all-Agrees_example :
    (s' : Shelf) × (run_all shelf shelf_bodies shelf_purges 9 five_ops empty_shelf
      ≡ ok (answers pop_name five_ops nothing) s')
    × ((k : Bytes)
        → s'.objects k ≡ with_keys shelf_purges k (after_all pop_name five_ops nothing k))
run_all-Agrees_example =
    run_all-Agrees shelf shelf_bodies shelf_purges shelf_bodies-IsTextHost shelf-KeepsObjects
      shelf-InsertsObjects shelf-PurgesObjects 9 five_ops nothing empty_shelf
      (
        tt,
        (
          (omega arith, (omega arith, (omega arith, (omega arith, tt)))),
          ((omega arith, (omega arith, (omega arith, tt))), (tt, (tt, tt))),
        ),
      )
      (λ k t e. absurd (ground arith)) (λ k. refl)

-- The second `get_or_set` gives the text of the first; after the purge there is none.
answers-five_ops :
    answers pop_name five_ops nothing
    ≡ none ∷ some (b'v' ∷ b'w' ∷ []) ∷ some (b'v' ∷ b'w' ∷ []) ∷ none ∷ none ∷ []
answers-five_ops = refl

-- A purge of `k` at the POP `L` takes out the object under `kL` too, and leaves that under `m`.
answers-purge_at_pop :
    answers pop_name
      (fetch_or_set (b'k' ∷ b'L' ∷ []) (b'v' ∷ []) (pos 60)
        ∷ fetch_or_set (b'm' ∷ []) (b'w' ∷ []) (pos 60)
        ∷ drop_key (b'k' ∷ []) pop
        ∷ fetch (b'k' ∷ b'L' ∷ [])
        ∷ fetch (b'm' ∷ [])
        ∷ [])
      nothing
    ≡ some (b'v' ∷ []) ∷ some (b'w' ∷ []) ∷ none ∷ none ∷ some (b'w' ∷ []) ∷ []
answers-purge_at_pop = refl
