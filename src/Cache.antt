-- ===== src/Cache.antt =====
-- The cache APIs: src/cpp/cache/core.cpp and src/cpp/cache/simple.cpp with their headers.
pub mod Core
pub mod Simple
