-- ===== src/KvStore/Inserting.antt =====
-- `InsertBuilder` of include/fastly/kv_store.h and src/cpp/kv_store.cpp.
use compute_sdk_cpp.Prelude.{ℕ, Bytes}
use compute_sdk_cpp.Prelude.Int.{ℤ}
use compute_sdk_cpp.Prelude.Effects.{M, pure, ◌>>=◌}
use compute_sdk_cpp.Host.Calls.{read, to_u32}
use compute_sdk_cpp.Host.KvStores.{KvBuilderHost, InsertMode}
use compute_sdk_cpp.Http.Body.{Body}
use compute_sdk_cpp.KvStore.Handles.{PendingInsertHandle}

pub record InsertBuilder : Type 0 where
  pub builder : ℕ

-- `builder_ = f(std::move(builder_), ...); return std::move(*this);`
abbrev rebuilt : {S E : Type 0} → (S → ℕ × S) → M S E InsertBuilder
rebuilt call = do box ← read call; pure (record { builder = box })

module _ {S Err : Type 0} (host : KvBuilderHost S Err) where
  unfoldable pub mode : {E : Type 0} → InsertMode → InsertBuilder → M S E InsertBuilder
  mode m b = rebuilt (host.insert_mode b.builder m)

  unfoldable pub background_fetch : {E : Type 0} → InsertBuilder → M S E InsertBuilder
  background_fetch b = rebuilt (host.insert_background_fetch b.builder)

  unfoldable pub if_generation_match : {E : Type 0} → ℕ → InsertBuilder → M S E InsertBuilder
  if_generation_match gen b = rebuilt (host.insert_if_generation_match b.builder gen)

  unfoldable pub metadata : {E : Type 0} → Bytes → InsertBuilder → M S E InsertBuilder
  metadata bytes b = rebuilt (host.insert_metadata b.builder bytes)

  -- In milliseconds, which are cut to 32 bits on their way.
  unfoldable pub time_to_live : {E : Type 0} → ℤ → InsertBuilder → M S E InsertBuilder
  time_to_live ttl b = rebuilt (host.insert_time_to_live b.builder (to_u32 ttl))

  unfoldable pub execute : Bytes → Body → InsertBuilder → M S Err (Unit {0})
  execute key body b = host.insert_execute b.builder key body.bod

  unfoldable pub execute_async : Bytes → Body → InsertBuilder → M S Err PendingInsertHandle
  execute_async key body b = do
    handle ← host.insert_execute_async b.builder key body.bod
    pure (record { handle = handle })
