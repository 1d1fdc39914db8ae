-- ===== src/Host/Options/Replace.antt =====
-- The mask bits of `CacheReplaceOptions` in src/cpp/fastly.h.
use compute_sdk_cpp.Prelude.{ℕ}

abbrev pub reserved : ℕ
reserved = 1

abbrev pub request_headers : ℕ
request_headers = 2

abbrev pub replace_strategy : ℕ
replace_strategy = 4

abbrev pub service : ℕ
service = 8

abbrev pub always_use_requested_range : ℕ
always_use_requested_range = 16
