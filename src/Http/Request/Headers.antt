-- ===== src/Http/Request/Headers.antt =====
-- src/cpp/http/request.cpp: the headers of a request.
use compute_sdk_cpp.Prelude.{ℕ, Bool, Option, none, some, Bytes}
use compute_sdk_cpp.Prelude.Effects.{M, pure, ◌>>=◌}
use compute_sdk_cpp.Host.Calls.{read, optional, some_if, effect, then_this}
use compute_sdk_cpp.Host.Requests.{RequestHeadersHost}
use compute_sdk_cpp.Http.Header.{HeaderValue}
use compute_sdk_cpp.Http.Ranges.{
  HeaderValuesRange, HeadersRange, HeaderNamesRange, OriginalHeaderNamesRange,
}
use compute_sdk_cpp.Http.Request.{Request}

module _ {S Err : Type 0} (host : RequestHeadersHost S Err) where
  unfoldable pub get_content_type : {E : Type 0} → Request → M S E (Option Bytes)
  get_content_type r = optional (host.get_content_type r.req)

  unfoldable pub set_content_type : {E : Type 0} → Request → Bytes → M S E (Unit {0})
  set_content_type r mime = effect (host.set_content_type r.req mime)

  unfoldable pub with_content_type : {E : Type 0} → Bytes → Request → M S E Request
  unfolding set_content_type
  with_content_type mime r = then_this r (set_content_type r mime)

  unfoldable pub get_content_length : {E : Type 0} → Request → M S E (Option ℕ)
  get_content_length r = optional (host.get_content_length r.req)

  unfoldable pub contains_header : Request → Bytes → M S Err Bool
  contains_header r name = host.contains_header r.req name

  unfoldable pub get_header : Request → Bytes → M S Err (Option HeaderValue)
  get_header r name = do
    (has_header, value, is_sensitive) ← host.get_header r.req name
    pure (some_if has_header (record { value = value; is_sensitive = is_sensitive }))

  unfoldable pub get_header_all : Request → Bytes → M S Err HeaderValuesRange
  get_header_all r name = do box ← host.get_header_all r.req name; pure (record { iter = box })

  unfoldable pub get_headers : {E : Type 0} → Request → M S E HeadersRange
  get_headers r = do box ← read (host.get_headers r.req); pure (record { iter = box })

  unfoldable pub get_header_names : {E : Type 0} → Request → M S E HeaderNamesRange
  get_header_names r = do box ← read (host.get_header_names r.req); pure (record { iter = box })

  unfoldable pub set_header : Request → Bytes → Bytes → M S Err (Unit {0})
  set_header r name value = host.set_header r.req name value

  unfoldable pub append_header : Request → Bytes → Bytes → M S Err (Unit {0})
  append_header r name value = host.append_header r.req name value

  unfoldable pub with_header : Bytes → Bytes → Request → M S Err Request
  unfolding append_header
  with_header name value r = then_this r (append_header r name value)

  unfoldable pub with_set_header : Bytes → Bytes → Request → M S Err Request
  unfolding set_header
  with_set_header name value r = then_this r (set_header r name value)

  unfoldable pub remove_header : Request → Bytes → M S Err (Option Bytes)
  remove_header r name = do
    (has_header, out) ← host.remove_header r.req name
    pure (some_if has_header out)

  -- The range over a box that is not null.
  unfoldable pub original_names_of : Option ℕ → Option OriginalHeaderNamesRange
  original_names_of none = none
  original_names_of (some box) = some (record { iter = box })

  unfoldable pub get_original_header_names :
      {E : Type 0} → Request → M S E (Option OriginalHeaderNamesRange)
  unfolding original_names_of
  get_original_header_names r = do
    box ← read (host.get_original_header_names r.req)
    pure (original_names_of box)

  unfoldable pub get_original_header_count : {E : Type 0} → Request → M S E (Option ℕ)
  get_original_header_count r = optional (host.get_original_header_count r.req)
