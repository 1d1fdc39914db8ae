-- ===== src/Tests/DictionaryRuns.antt =====
-- A run of a KV store that is a dictionary.
use compute_sdk_cpp.Prelude.{
  ℕ, zero, suc, ◌≡◌, refl, List, [], ◌∷◌, ◌++◌, Option, none, some, inr, Bytes, length, true, arith,
}
use compute_sdk_cpp.Prelude.Effects.{M, ok, err, pure}
use compute_sdk_cpp.Prelude.Outcomes
use compute_sdk_cpp.Prelude.Outcomes.{Within}
use compute_sdk_cpp.Host.Bodies.{BodyHost}
use compute_sdk_cpp.Host.KvStores.{KvStoreHost, LookupResponseHost}
use compute_sdk_cpp.Http.Body.ReadLaws.{IsReader}
use compute_sdk_cpp.Http.Body.TextLaws.{IsTextHost}
use compute_sdk_cpp.Http.Buffer.Laws.{IsWriter}
use compute_sdk_cpp.KvStore.{write_open}
use compute_sdk_cpp.KvStore.Dictionary.{
  Dictionary, update, KvOp, put, look, remove, answers, after_all, run_all,
}
use compute_sdk_cpp.KvStore.Refinement.{IsDictionary, run_all-refines}
use compute_sdk_cpp.Tests.Toys.{taken, first_byte, rest_bytes, first_byte-nil}

-- The stored texts, and the content of the one body.
abbrev Shop : Type 0
Shop = Dictionary × Bytes

abbrev shop_bodies : BodyHost Shop (Unit {0})
shop_bodies = record {
  body_new = λ s. (0, (s.0, []));
  body_read = λ _ n s. ok (first_byte n s.1) (s.0, rest_bytes n s.1);
  body_write = λ _ bytes s. ok (length (taken bytes)) (s.0, s.1 ++ taken bytes);
  body_append = λ _ _ s. s;
  body_append_trailer = λ _ _ _. pure tt;
  body_drop = λ _ s. s;
  streaming_body_write = λ _ bytes s. ok (length bytes) s;
  streaming_body_append = λ _ _ s. s;
  streaming_body_append_trailer = λ _ _ _. pure tt;
  streaming_body_finish = λ _. pure tt;
}

abbrev shop_write : Bytes → M Shop (Unit {0}) ℕ
shop_write bytes s = ok (length (taken bytes)) (s.0, s.1 ++ taken bytes)

abbrev shop_write-IsWriter : IsWriter shop_write
shop_write-IsWriter = record {
  sent = λ s. s.1;
  extra = λ _. elim [ [] ↦ λ s. 0 | d ∷ ds ↦ λ s. 1 ];
  after = λ c cs s. (s.0, s.1 ++ taken (c ∷ cs));
  extra_le = λ c. elim [ [] ↦ λ s. omega arith | d ∷ ds ↦ λ s. omega arith ];
  write_lem = λ c. elim [ [] ↦ λ s. refl | d ∷ ds ↦ λ s. refl ];
  sent-after = λ c. elim [ [] ↦ λ s. refl | d ∷ ds ↦ λ s. refl ];
}

pub content-rest : (n : ℕ) (s : Bytes) → s ≡ first_byte n s ++ rest_bytes n s
content-rest zero s = refl
content-rest (suc n) [] = refl
content-rest (suc n) (c ∷ s) = refl

abbrev shop_bodies-IsReader : IsReader shop_bodies
shop_bodies-IsReader = record {
  content = λ _ s. s.1;
  chunk = λ _ n s. first_byte n s.1;
  after = λ _ n s. (s.0, rest_bytes n s.1);
  read_lem = λ _ n s. refl;
  content-after = λ _ n s. content-rest n s.1;
  chunk-nil = λ _ n s e. first_byte-nil n s.1 e;
}

abbrev shop_bodies-IsTextHost : IsTextHost shop_bodies
shop_bodies-IsTextHost = record {
  reads = shop_bodies-IsReader;
  writes = λ _. shop_write-IsWriter;
  sent_content = λ _ s. refl;
  content-new = λ s. refl;
}

abbrev text_or_nil : Option Bytes → Bytes
text_or_nil none = []
text_or_nil (some text) = text

abbrev shop : KvStoreHost Shop (Unit {0})
shop = record {
  kv_store_open = λ _ s. (write_open (inr (some 1)) 9, s);
  lookup = λ _ key s. elim (s.0 key) [ none ↦ err tt s | some text ↦ ok 5 (s.0, text) ];
  build_lookup = λ _ s. (6, s);
  pending_lookup_wait = λ _ _. pure 5;
  insert = λ _ key _ s. ok tt (update key (some s.1) s.0, s.1);
  build_insert = λ _ s. (7, s);
  pending_insert_wait = λ _ _. pure tt;
  erase = λ _ key s. ok tt (update key none s.0, s.1);
  build_erase = λ _ s. (8, s);
  pending_erase_wait = λ _ _. pure tt;
  list = λ _. pure 4;
  build_list = λ _ s. (9, s);
  pending_list_wait = λ _ _. pure 4;
}

abbrev shop_responses : LookupResponseHost Shop
shop_responses = record {
  take_body = λ _ s. (3, s);
  try_take_body = λ _ s. ((true, 3), s);
  take_body_bytes = λ _ s. (s.1, s);
  metadata = λ _ s. ((true, []), s);
  current_generation = λ _ s. (1, s);
}

abbrev shop-IsDictionary : IsDictionary shop shop_responses shop_bodies shop_bodies-IsTextHost 1
shop-IsDictionary = record {
  stored = λ s. s.0;
  inserted = λ key _ s. (update key (some s.1) s.0, s.1);
  found = λ key s. (5, (s.0, text_or_nil (s.0 key)));
  missed = λ _ s. (tt, s);
  erased = λ key s. (update key none s.0, s.1);
  insert_lem = λ _ _ _. refl;
  stored-inserted = λ _ _ _ _. refl;
  lookup_lem = λ key text s e. (rw e refl, rw e refl, λ k. refl);
  missing_lem = λ key s e. (rw e refl, λ k. refl);
  erase_lem = λ _ _. refl;
  stored-erased = λ _ _ _. refl;
  bodies_keep = λ d. record {
    new_keeps = λ s p. p;
    write_keeps = λ h c cs s p. Outcomes.returned p;
    read_keeps = λ h n s p. Outcomes.returned p;
  };
}

abbrev four_ops : List KvOp
four_ops =
    put (b'k' ∷ []) (b'v' ∷ b'w' ∷ [])
    ∷ look (b'k' ∷ [])
    ∷ remove (b'k' ∷ [])
    ∷ look (b'k' ∷ [])
    ∷ []

abbrev pub nothing : Dictionary
nothing k = none

run_all-refines_example :
    (s' : Shop) × (run_all shop shop_responses shop_bodies 9
        (record { store = 1 })
        four_ops
        (nothing, [])
      ≡ ok (answers four_ops nothing) s')
    × ((k : Bytes) → s'.0 k ≡ after_all four_ops nothing k)
run_all-refines_example =
    run_all-refines shop shop_responses shop_bodies shop_bodies-IsTextHost 1 shop-IsDictionary 9
      four_ops nothing (nothing, [])
      ((omega arith, (omega arith, (omega arith, tt))), (tt, (tt, (tt, tt))))
      (λ k t e. absurd (ground arith)) (λ k. refl)

-- What the four operations answer.
answers_lem : answers four_ops nothing ≡ none ∷ some (b'v' ∷ b'w' ∷ []) ∷ none ∷ none ∷ []
answers_lem = refl
