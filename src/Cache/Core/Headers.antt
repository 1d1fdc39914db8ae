-- ===== src/Cache/Core/Headers.antt =====
-- `detail::RequestHandle` and `set_request_header_values` of src/cpp/cache/core.cpp. The class
-- declares a destructor and so has no move constructor: the assignment of a temporary handle to
-- `request_headers` copies the number, and the temporary then closes it.
pub mod Laws
use compute_sdk_cpp.Prelude.{ℕ, Bool, true, false, List, [], ◌∷◌, ◌++◌, Option, none, some, Bytes}
use compute_sdk_cpp.Prelude.{if◌then◌else◌}
use compute_sdk_cpp.Prelude.Effects.{Run, ok, abort, M}
use compute_sdk_cpp.Host.{RequestHost, is_ok}

-- The values one after the other, each with a zero byte behind it.
unfoldable pub value_bytes : Bytes → List Bytes → Bytes
value_bytes bytes [] = bytes
value_bytes bytes (value ∷ values) = value_bytes ((bytes ++ value) ++ 0 ∷ []) values

module _ {S : Type 0} (host : RequestHost S) where
  -- `RequestHandle::~RequestHandle`
  unfoldable pub drop_request_handle : ℕ → S → S
  drop_request_handle = host.http_req_close

  -- `RequestHandle::make`
  unfoldable pub make_request_handle : {E : Type 0} → M S E ℕ
  make_request_handle s =
      let (status, handle, s1) = host.http_req_new s in
      if is_ok status then ok handle s1 else abort s1

  -- The last two statements, which ignore the host's status.
  unfoldable pub set_values : {E : Type 0} → ℕ → Bytes → List Bytes → M S E (Option ℕ)
  unfolding value_bytes
  set_values handle name values s =
      ok (some handle) (host.http_req_header_values_set handle name (value_bytes [] values) s).2

  unfoldable pub set_request_header_values :
      {E : Type 0} → Option ℕ → Bytes → List Bytes → M S E (Option ℕ)
  unfolding set_values drop_request_handle
  set_request_header_values (some handle) name values s = set_values handle name values s
  set_request_header_values none name values s =
      let (status, handle, s1) = host.http_req_new s in
      if is_ok status
      then set_values handle name values (drop_request_handle handle s1)
      else abort s1
