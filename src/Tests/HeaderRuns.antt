-- ===== src/Tests/HeaderRuns.antt =====
-- A run of the loops over the headers of a response.
use compute_sdk_cpp.Prelude.{◌≡◌, refl, true, false, List, [], ◌∷◌, map, Option, none, some, arith}
use compute_sdk_cpp.Prelude.Effects.{ok, pure}
use compute_sdk_cpp.Host.Requests
use compute_sdk_cpp.Host.Responses.{ResponseOriginHost}
use compute_sdk_cpp.Http.Ranges.{IteratorHost}
use compute_sdk_cpp.Http.Ranges.Laws.{
  Value, Named, value_of, named_of, write_value, write_named, all_values, all_headers,
  all_values-all_headers,
}
use compute_sdk_cpp.Http.RustIteratorRange.Bridged.{WritesItems}

-- What the two iterators have left.
abbrev Left : Type 0
Left = List Value × List Named

abbrev no_value : Left → Value
no_value s = ([], false)

abbrev no_named : Left → Named
no_named s = ([], [], false)

abbrev toy_origins : ResponseOriginHost Left (Unit {0})
toy_origins = record {
  get_header_all = λ _ _. pure 1;
  get_headers = λ _ s. (2, s);
  get_header_names = λ _ s. (3, s);
  get_backend = λ _ s. (none, s);
  take_backend_request = λ _ s. (none, s);
  get_version = λ _ s. (Requests.http_11, s);
  set_version = λ _ _ s. s;
}

abbrev first_of : {A : Type 0} → List A → Option A
first_of [] = none
first_of (x ∷ xs) = some x

abbrev rest_of : {A : Type 0} → List A → List A
rest_of [] = []
rest_of (x ∷ xs) = xs

abbrev toy_iterators : IteratorHost Left
toy_iterators = record {
  header_values_next = λ _ s. (write_value no_value (first_of s.0) s, (rest_of s.0, s.1));
  headers_next = λ _ s. (write_named no_named (first_of s.1) s, (s.0, rest_of s.1));
  header_names_next = λ _ s. ((false, []), s);
  original_header_names_next = λ _ s. ((false, []), s);
}

first_of-cons : {A : Type 0} (x : A) (xs s : List A) → s ≡ x ∷ xs → first_of s ≡ some x
first_of-cons x xs s e = rw e refl

rest_of-cons : {A : Type 0} (x : A) (xs s : List A) → s ≡ x ∷ xs → rest_of s ≡ xs
rest_of-cons x xs s e = rw e refl

first_of-nil : {A : Type 0} (s : List A) → s ≡ [] → first_of s ≡ none
first_of-nil s e = rw e refl

abbrev values-WritesItems : WritesItems (toy_iterators.header_values_next 1) (write_value no_value)
values-WritesItems = record {
  items = λ s. s.0;
  after = λ s. (rest_of s.0, s.1);
  next-nil = λ s e. rw (first_of-nil s.0 e) refl;
  next-cons = λ x xs s e. (rw (first_of-cons x xs s.0 e) refl, rest_of-cons x xs s.0 e);
}

abbrev headers-WritesItems : WritesItems (toy_iterators.headers_next 2) (write_named no_named)
headers-WritesItems = record {
  items = λ s. s.1;
  after = λ s. (s.0, rest_of s.1);
  next-nil = λ s e. rw (first_of-nil s.1 e) refl;
  next-cons = λ x xs s e. (rw (first_of-cons x xs s.1 e) refl, rest_of-cons x xs s.1 e);
}

abbrev some_left : Left
some_left = ((b'v' ∷ [], false) ∷ (b'w' ∷ [], true) ∷ [], (b'n' ∷ [], b'v' ∷ [], true) ∷ [])

all_values-all_headers_example :
    ((s' : Left) × (all_values toy_origins toy_iterators 3
          (b'n' ∷ [])
          (record { res = 7 })
          some_left
        ≡ ok (map value_of some_left.0) s'))
    × ((s' : Left) × (all_headers toy_origins toy_iterators 3 (record { res = 7 }) some_left
          ≡ ok (map named_of some_left.1) s'))
all_values-all_headers_example =
    all_values-all_headers toy_origins toy_iterators 3 (b'n' ∷ []) (record { res = 7 }) 1 2 no_value
      no_named some_left some_left refl refl values-WritesItems headers-WritesItems (omega arith)
      (omega arith)
