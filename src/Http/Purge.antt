-- ===== src/Http/Purge.antt =====
-- src/cpp/http/purge.cpp.
use compute_sdk_cpp.Prelude.{Bytes}
use compute_sdk_cpp.Prelude.Effects.{M}
use compute_sdk_cpp.Host.Purge.{PurgeHost}

module _ {S Err : Type 0} (host : PurgeHost S Err) where
  unfoldable pub purge_surrogate_key : Bytes → M S Err (Unit {0})
  purge_surrogate_key surrogate_key = host.purge_surrogate_key surrogate_key

  unfoldable pub soft_purge_surrogate_key : Bytes → M S Err (Unit {0})
  soft_purge_surrogate_key surrogate_key = host.soft_purge_surrogate_key surrogate_key
