-- ===== src/Http/Body.antt =====
-- `Body` of include/fastly/http/body.h and src/cpp/http/body.cpp. A body is its box and the two
-- stream areas: `pending` lies between `pbase` and `pptr`, `unread` between `gptr` and `egptr`. An
-- `int` that a stream function returns is an integer, and `eof` is -1. A `char` is signed on wasm32.
mod Read
mod Write
pub mod ReadLaws
pub mod WriteLaws
pub mod TextLaws
pub mod Invariants
pub mod Trace
unfoldable pub use Read.*
unfoldable pub use Write.*
