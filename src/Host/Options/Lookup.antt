-- ===== src/Host/Options/Lookup.antt =====
-- The mask bits of `CacheLookupOptions` in src/cpp/fastly.h.
use compute_sdk_cpp.Prelude.{ℕ}

abbrev pub reserved : ℕ
reserved = 1

abbrev pub request_headers : ℕ
request_headers = 2

abbrev pub service : ℕ
service = 4

abbrev pub always_use_requested_range : ℕ
always_use_requested_range = 8
