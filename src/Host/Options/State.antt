-- ===== src/Host/Options/State.antt =====
-- The bits of a lookup state and of the mask of
-- `CacheGetBodyOptions`.
use compute_sdk_cpp.Prelude.{ℕ}

abbrev pub found : ℕ
found = 1

abbrev pub usable : ℕ
usable = 2

abbrev pub stale : ℕ
stale = 4

abbrev pub must_insert_or_update : ℕ
must_insert_or_update = 8

abbrev pub body_from : ℕ
body_from = 2

abbrev pub body_to : ℕ
body_to = 4
