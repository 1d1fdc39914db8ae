-- ===== src/Tests/KvRuns.antt =====
-- Runs of the models of src/cpp/kv_store.cpp.
use compute_sdk_cpp.Prelude.{
  ℕ, ◌≡◌, refl, Bool, false, List, [], ◌∷◌, Option, none, some, inl, inr, Bytes, map, arith,
}
use compute_sdk_cpp.Prelude.Effects.{ok, pure}
use compute_sdk_cpp.Host.Calls.{Expected}
use compute_sdk_cpp.Host.KvStores.{KvStoreHost, KvListHost, ListModeType}
use compute_sdk_cpp.Http.RustIteratorRange
use compute_sdk_cpp.KvStore.{open_store, write_open}
use compute_sdk_cpp.KvStore.Laws.{store_of, open_store_lem, page_of, next-for_each}
use compute_sdk_cpp.KvStore.Listing
use compute_sdk_cpp.KvStore.Listing.{ListResponse, write_next}

-- Stores over any state. There is no store of the empty name.
abbrev toy_store : KvStoreHost Bytes (Unit {0})
toy_store = record {
  kv_store_open = λ name s. elim name [
    | [] ↦ (write_open (inr none) 9, s)
    | c ∷ cs ↦ (write_open (inr (some 1)) 9, s)
  ];
  lookup = λ _ _. pure 5;
  build_lookup = λ _ s. (6, s);
  pending_lookup_wait = λ _ _. pure 5;
  insert = λ _ _ _. pure tt;
  build_insert = λ _ s. (7, s);
  pending_insert_wait = λ _ _. pure tt;
  erase = λ _ _. pure tt;
  build_erase = λ _ s. (8, s);
  pending_erase_wait = λ _ _. pure tt;
  list = λ _. pure 4;
  build_list = λ _ s. (9, s);
  pending_list_wait = λ _ _. pure 4;
}

open_store_example : open_store toy_store [] (b'x' ∷ []) ≡ store_of (inr none) (b'x' ∷ [])
open_store_example = open_store_lem toy_store [] (inr none) 9 (b'x' ∷ []) (b'x' ∷ []) refl

-- Lists over a state that is what the crate's iterator has left.
abbrev Items : Type 0
Items = List (Expected (Unit {0}) ℕ)

abbrev next_of : Items → (Bool × ℕ × Option (Unit {0})) × Items
next_of [] = (write_next none 0, [])
next_of (x ∷ xs) = (write_next (some x) 0, xs)

abbrev rest_of : Items → Items
rest_of [] = []
rest_of (x ∷ xs) = xs

abbrev toy_lists : KvListHost Items (Unit {0})
toy_lists = record {
  list_eventual_consistency = λ b s. (b, s);
  list_cursor = λ b _ s. (b, s);
  list_limit = λ b _ s. (b, s);
  list_prefix = λ b _ s. (b, s);
  list_execute = λ _. pure 4;
  list_iter = λ _ s. (2, s);
  list_execute_async = λ _. pure 3;
  list_response_next = λ _ s. next_of s;
  page_keys = λ _ s. ([], s);
  page_into_keys = λ _ s. ([], s);
  page_next_cursor = λ _ s. ((false, []), s);
  page_prefix = λ _ s. ((false, []), s);
  page_limit = λ _ s. (10, s);
  page_mode = λ _ s. (1, s);
  mode_code = λ _ s. (ListModeType.strong, s);
  mode_other_string = λ _ s. ([], s);
}

next_of_nil : (s : Items) → s ≡ [] → next_of s ≡ (write_next none 0, rest_of s)
next_of_nil [] e = refl
next_of_nil (x ∷ xs) e = cc

next_of_cons :
    (x : Expected (Unit {0}) ℕ) (xs s : Items)
    → s ≡ x ∷ xs
    → (next_of s ≡ (write_next (some x) 0, rest_of s)) × (rest_of s ≡ xs)
next_of_cons x xs [] e = cc
next_of_cons x xs (y ∷ ys) e = (cc, cc)

abbrev three_items : Items
three_items = inr 5 ∷ inl tt ∷ inr 6 ∷ []

next-for_each_example :
    (s' : Items) × (RustIteratorRange.for_each
        (Listing.next toy_lists (record { iter = 2 }))
        {E = Unit {0}}
        4
        three_items
      ≡ ok (map page_of three_items) s')
next-for_each_example =
    next-for_each toy_lists (record { iter = 2 }) (λ _. 0)
      (record { items = λ s. s; after = rest_of; next-nil = next_of_nil; next-cons = next_of_cons })
      (Unit {0}) 4 three_items (omega arith)
