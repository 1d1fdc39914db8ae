-- ===== src/Tests.antt =====
-- Concrete hosts, and runs of the models of src/cpp/ on them.
mod Toys
mod CoreRuns
mod SimpleRuns
mod BodyRuns
mod HttpRuns
mod RequestRuns
mod KvRuns
mod DictionaryRuns
mod CacheRuns
mod ErlRuns
mod HeaderRuns
