-- ===== src/Http.antt =====
-- HTTP bodies and status codes: src/cpp/http/body.cpp, src/cpp/http/status_code.cpp and their headers.
pub mod Buffer
pub mod Purge
pub mod Body
pub mod StreamingBody
pub mod StatusCode
pub mod Response
pub mod Request
pub mod Header
pub mod Ranges
pub mod RustIteratorRange
