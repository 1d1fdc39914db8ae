-- ===== src/Http/Ranges.antt =====
-- The four header ranges of include/fastly/http/header.h: each owns the box of a Rust iterator, and is
-- a range of include/fastly/detail/rust_iterator_range.h by its `next`.
pub mod Laws
use compute_sdk_cpp.Prelude.{ℕ, Bool, Bytes, Option}
use compute_sdk_cpp.Http.Header.{HeaderValue}
use compute_sdk_cpp.Http.Header

pub record HeaderValuesRange : Type 0 where
  pub iter : ℕ

pub record HeadersRange : Type 0 where
  pub iter : ℕ

pub record HeaderNamesRange : Type 0 where
  pub iter : ℕ

pub record OriginalHeaderNamesRange : Type 0 where
  pub iter : ℕ

-- The `next` of the four Rust iterators: whether there was an item, and the out parameters.
pub record IteratorHost (S : Type 0) : Type 0 where
  pub header_values_next : ℕ → S → (Bool × Bytes × Bool) × S
  pub headers_next : ℕ → S → (Bool × Bytes × Bytes × Bool) × S
  pub header_names_next : ℕ → S → (Bool × Bytes) × S
  pub original_header_names_next : ℕ → S → (Bool × Bytes) × S

module _ {S : Type 0} (host : IteratorHost S) where
  unfoldable pub values_next : HeaderValuesRange → S → Option HeaderValue × S
  values_next range = Header.next_value (host.header_values_next range.iter)

  unfoldable pub headers_next : HeadersRange → S → Option (Bytes × HeaderValue) × S
  headers_next range = Header.next_header (host.headers_next range.iter)

  unfoldable pub names_next : HeaderNamesRange → S → Option Bytes × S
  names_next range = Header.next_name (host.header_names_next range.iter)

  unfoldable pub original_names_next : OriginalHeaderNamesRange → S → Option Bytes × S
  original_names_next range = Header.next_name (host.original_header_names_next range.iter)
