-- ===== src/Host/Options/Write.antt =====
-- The mask bits of `CacheWriteOptions` in src/cpp/fastly.h.
use compute_sdk_cpp.Prelude.{ℕ}

abbrev pub reserved : ℕ
reserved = 1

abbrev pub request_headers : ℕ
request_headers = 2

abbrev pub vary_rule : ℕ
vary_rule = 4

abbrev pub initial_age_ns : ℕ
initial_age_ns = 8

abbrev pub stale_while_revalidate_ns : ℕ
stale_while_revalidate_ns = 16

abbrev pub surrogate_keys : ℕ
surrogate_keys = 32

abbrev pub length : ℕ
length = 64

abbrev pub user_metadata : ℕ
user_metadata = 128

abbrev pub sensitive_data : ℕ
sensitive_data = 256

abbrev pub edge_max_age_ns : ℕ
edge_max_age_ns = 512

abbrev pub service : ℕ
service = 1024
