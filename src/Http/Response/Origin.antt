-- ===== src/Http/Response/Origin.antt =====
-- src/cpp/http/response.cpp: the header ranges of a response, where it comes from, and its version.
use compute_sdk_cpp.Backend.{Backend}
use compute_sdk_cpp.Prelude.{ℕ, Option, none, some, Bytes}
use compute_sdk_cpp.Prelude.Effects.{M, pure, ◌>>=◌}
use compute_sdk_cpp.Host.Calls.{read, effect, then_this}
use compute_sdk_cpp.Host.Requests.{Version}
use compute_sdk_cpp.Host.Responses.{ResponseOriginHost}
use compute_sdk_cpp.Http.Ranges.{HeaderValuesRange, HeadersRange, HeaderNamesRange}
use compute_sdk_cpp.Http.Request.{Request}
use compute_sdk_cpp.Http.Response.{Response}

-- A backend, and a request, over a box that is not null.
unfoldable pub backend_of : Option ℕ → Option Backend
backend_of none = none
backend_of (some box) = some (record { backend = box })

unfoldable pub request_of : Option ℕ → Option Request
request_of none = none
request_of (some box) = some (record { req = box })

module _ {S Err : Type 0} (host : ResponseOriginHost S Err) where
  unfoldable pub get_header_all : Response → Bytes → M S Err HeaderValuesRange
  get_header_all r name = do box ← host.get_header_all r.res name; pure (record { iter = box })

  unfoldable pub get_headers : {E : Type 0} → Response → M S E HeadersRange
  get_headers r = do box ← read (host.get_headers r.res); pure (record { iter = box })

  unfoldable pub get_header_names : {E : Type 0} → Response → M S E HeaderNamesRange
  get_header_names r = do box ← read (host.get_header_names r.res); pure (record { iter = box })

  unfoldable pub get_backend : {E : Type 0} → Response → M S E (Option Backend)
  unfolding backend_of
  get_backend r = do box ← read (host.get_backend r.res); pure (backend_of box)

  unfoldable pub take_backend_request : {E : Type 0} → Response → M S E (Option Request)
  unfolding request_of
  take_backend_request r = do box ← read (host.take_backend_request r.res); pure (request_of box)

  unfoldable pub get_version : {E : Type 0} → Response → M S E Version
  get_version r = read (host.get_version r.res)

  unfoldable pub set_version : {E : Type 0} → Response → Version → M S E (Unit {0})
  set_version r version = effect (host.set_version r.res version)

  unfoldable pub with_version : {E : Type 0} → Version → Response → M S E Response
  unfolding set_version
  with_version version r = then_this r (set_version r version)
