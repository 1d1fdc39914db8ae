-- ===== src/Host/Purge.antt =====
-- The bridge functions of src/cache.rs and src/http/purge.rs. What the first makes is in
-- Cache/Simple/SurrogateKeys.antt; the purge itself is the work of a crate that is not part of the
-- repository.
use compute_sdk_cpp.Prelude.{Bytes}
use compute_sdk_cpp.Prelude.Effects.{M}

-- `PurgeOptions::Scope` of include/fastly/cache/simple.h, which `PurgeScope` repeats.
pub data Scope : Type 0 where
  pop global : Scope

pub record PurgeHost (S Err : Type 0) : Type 0 where
  pub cache_surrogate_key_for_cache_key : Bytes → Scope → Bytes
  pub purge_surrogate_key : Bytes → M S Err (Unit {0})
  pub soft_purge_surrogate_key : Bytes → M S Err (Unit {0})
