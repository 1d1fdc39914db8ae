-- ===== src/Http/Ranges/Laws.antt =====
-- A range-based `for` over the headers of a response, of src/cpp/http/response.cpp and
-- include/fastly/http/header.h.
use compute_sdk_cpp.Prelude.{
  ℕ, ◌<◌, ◌≡◌, refl, Bool, true, false, List, map, Option, none, some, Bytes, length, if◌then◌else◌,
}
use compute_sdk_cpp.Prelude.Effects.{M, ok, ◌>>=◌}
use compute_sdk_cpp.Host.Responses.{ResponseOriginHost}
use compute_sdk_cpp.Http.Header
use compute_sdk_cpp.Http.Header.{HeaderValue}
use compute_sdk_cpp.Http.Ranges.{IteratorHost, values_next, headers_next}
use compute_sdk_cpp.Http.Response.{Response}
use compute_sdk_cpp.Http.Response.Origin.{get_header_all, get_headers}
use compute_sdk_cpp.Http.RustIteratorRange.{for_each}
use compute_sdk_cpp.Http.RustIteratorRange.Bridged.{WritesItems, for_each-decoded}

-- A value of the crate with its mark, and the same with its name.
abbrev pub Value : Type 0
Value = Bytes × Bool

abbrev pub Named : Type 0
Named = Bytes × Bytes × Bool

abbrev pub value_of : Value → HeaderValue
value_of (bytes, sensitive) = record { value = bytes; is_sensitive = sensitive }

abbrev pub named_of : Named → Bytes × HeaderValue
named_of (name, bytes, sensitive) = (name, record { value = bytes; is_sensitive = sensitive })

-- The answers of src/http/header.rs. An iterator at its end leaves the out parameters as they were.
abbrev pub write_value : {S : Type 0} → (S → Value) → Option Value → S → Bool × Bytes × Bool
write_value old none s = (false, (old s).0, (old s).1)
write_value old (some x) s = (true, x.0, x.1)

abbrev pub write_named : {S : Type 0} → (S → Named) → Option Named → S → Bool × Bytes × Bytes × Bool
write_named old none s = (false, (old s).0, (old s).1, (old s).2)
write_named old (some x) s = (true, x.0, x.1, x.2)

abbrev pub read_value : Bool × Bytes × Bool → Option HeaderValue
read_value (has, value, is_sensitive) =
    if has then some (record { value = value; is_sensitive = is_sensitive }) else none

abbrev pub read_named : Bool × Bytes × Bytes × Bool → Option (Bytes × HeaderValue)
read_named (has, name, value, is_sensitive) =
    if has then some (name, record { value = value; is_sensitive = is_sensitive }) else none

module _ {S Err : Type 0} (host : ResponseOriginHost S Err) (iterators : IteratorHost S) where
  -- `for (auto v : *response.get_header_all(name)) …`
  unfoldable pub all_values : ℕ → Bytes → Response → M S Err (List HeaderValue)
  all_values fuel name r = do
    range ← get_header_all host r name
    for_each (values_next iterators range) fuel

  -- `for (auto [name, v] : response.get_headers()) …`
  unfoldable pub all_headers : ℕ → Response → M S Err (List (Bytes × HeaderValue))
  all_headers fuel r = do range ← get_headers host r; for_each (headers_next iterators range) fuel

  -- If the bridge gives an iterator that writes its items in order, each with its mark, and then
  -- says that there is none, whatever it leaves in the out parameters: a `for` loop over
  -- `get_header_all` visits the values of the header, in order and once each with its mark, and one
  -- over `get_headers` the names with their values, with more rounds than there are items.
  pub all_values-all_headers :
      (fuel : ℕ) (name : Bytes) (r : Response) (box box1 : ℕ) (old : S → Value) (old1 : S → Named)
      (s s1 : S)
      → host.get_header_all r.res name s ≡ ok box s1
      → (host.get_headers r.res s).0 ≡ box1
      → (V : WritesItems (iterators.header_values_next box) (write_value old))
      → (H : WritesItems (iterators.headers_next box1) (write_named old1))
      → length (V.items s1) < fuel
      → length (H.items (host.get_headers r.res s).1) < fuel
      → ((s' : S) × (all_values fuel name r s ≡ ok (map value_of (V.items s1)) s'))
        × ((s' : S) × (all_headers fuel r s
              ≡ ok (map named_of (H.items (host.get_headers r.res s).1)) s'))
  unfolding all_values all_headers get_header_all get_headers values_next headers_next
      Header.next_value Header.next_header
  all_values-all_headers fuel name r box box1 old old1 s s1 e e1 V H few few1 =
      let s2 = (host.get_headers r.res s).1 in
      let (s3, q3) =
        for_each-decoded (iterators.header_values_next box) (write_value old) read_value value_of V
          (λ s. refl) (λ x s. refl) Err fuel s1 few in
      let (s4, q4) =
        for_each-decoded (iterators.headers_next box1) (write_named old1) read_named named_of H
          (λ s. refl) (λ x s. refl) Err fuel s2 few1 in
      ((s3, rw e q3), (s4, rw e1 q4))
