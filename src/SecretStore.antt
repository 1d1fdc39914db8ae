-- ===== src/SecretStore.antt =====
-- `Secret` and `SecretStore` of include/fastly/secret_store.h and src/cpp/secret_store.cpp, over the
-- bridge.
use compute_sdk_cpp.Prelude.{ℕ, Bool, Option, none, some, Bytes}
use compute_sdk_cpp.Prelude.Effects.{M, pure, ◌>>=◌}
use compute_sdk_cpp.Host.Calls.{read}
use compute_sdk_cpp.Host.Lookups.{SecretStoreHost}

pub record Secret : Type 0 where
  pub s : ℕ

pub record SecretStore : Type 0 where
  pub ss : ℕ

-- A secret over a box that is not null.
unfoldable pub secret_of : Option ℕ → Option Secret
secret_of none = none
secret_of (some box) = some (record { s = box })

module _ {S Err : Type 0} (host : SecretStoreHost S Err) where
  unfoldable pub from_bytes : Bytes → M S Err Secret
  from_bytes bytes = do box ← host.secret_from_bytes bytes; pure (record { s = box })

  unfoldable pub plaintext : {E : Type 0} → Secret → M S E Bytes
  plaintext secret = read (host.secret_plaintext secret.s)

  -- `SecretStore::open`
  unfoldable pub open_store : Bytes → M S Err SecretStore
  open_store name = do box ← host.secret_store_open name; pure (record { ss = box })

  unfoldable pub get : SecretStore → Bytes → M S Err (Option Secret)
  unfolding secret_of
  get store key = do box ← host.get store.ss key; pure (secret_of box)

  unfoldable pub contains : SecretStore → Bytes → M S Err Bool
  contains store key = host.contains store.ss key
