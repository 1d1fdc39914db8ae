-- ===== src/Cache/Core.antt =====
-- The Core Cache API: include/fastly/cache/core.h and src/cpp/cache/core.cpp.
pub mod Options
pub mod Abi
pub mod Join
pub mod Headers
pub mod Handles
pub mod Found
pub mod LookupBuilder
pub mod InsertBuilder
pub mod Replace
pub mod ReplaceBuilder
pub mod TransactionLookupBuilder
pub mod TransactionUpdateBuilder
pub mod TransactionInsertBuilder
pub mod Transaction
