-- ===== src/KvStore/Listing.antt =====
-- `ListBuilder` and `ListResponse` of include/fastly/kv_store.h and src/cpp/kv_store.cpp. `ListResponse`
-- is a range of include/fastly/detail/rust_iterator_range.h by its `next`.
use compute_sdk_cpp.Prelude.{ℕ, Bool, true, false, Option, none, some, inl, inr, Bytes}
use compute_sdk_cpp.Prelude.Effects.{M, pure, ◌>>=◌}
use compute_sdk_cpp.Host.Calls.{read, Expected}
use compute_sdk_cpp.Host.KvStores.{KvListHost}
use compute_sdk_cpp.KvStore.Handles.{PendingListHandle}
use compute_sdk_cpp.KvStore.Pages.{ListPage}

pub record ListResponse : Type 0 where
  pub iter : ℕ

pub record ListBuilder : Type 0 where
  pub builder : ℕ

-- `builder_ = f(std::move(builder_), ...); return std::move(*this);`
abbrev rebuilt : {S E : Type 0} → (S → ℕ × S) → M S E ListBuilder
rebuilt call = do box ← read call; pure (record { builder = box })

-- What `ListResponse::next` makes of the Boolean and the out parameters `page` and `err`.
unfoldable pub next_page : {Err : Type 0} → Bool → ℕ → Option Err → Option (Expected Err ListPage)
next_page true box none = some (inr (record { page = box }))
next_page true box (some e) = some (inl e)
next_page false box _ = none

-- `ListResponse::next` of src/kv_store.rs: the Boolean and the out parameters for an item of the crate's
-- iterator. `page` keeps what it held where it is not set.
unfoldable pub write_next : {Err : Type 0} → Option (Expected Err ℕ) → ℕ → Bool × ℕ × Option Err
write_next (some (inr box)) page = (true, box, none)
write_next (some (inl e)) page = (true, page, some e)
write_next none page = (false, page, none)

module _ {S Err : Type 0} (host : KvListHost S Err) where
  unfoldable pub next : ListResponse → S → Option (Expected Err ListPage) × S
  unfolding next_page
  next range s =
      let ((more, box, e), s1) = host.list_response_next range.iter s in (next_page more box e, s1)

  unfoldable pub eventual_consistency : {E : Type 0} → ListBuilder → M S E ListBuilder
  eventual_consistency b = rebuilt (host.list_eventual_consistency b.builder)

  unfoldable pub cursor : {E : Type 0} → Bytes → ListBuilder → M S E ListBuilder
  cursor from b = rebuilt (host.list_cursor b.builder from)

  unfoldable pub limit : {E : Type 0} → ℕ → ListBuilder → M S E ListBuilder
  limit count b = rebuilt (host.list_limit b.builder count)

  unfoldable pub prefix : {E : Type 0} → Bytes → ListBuilder → M S E ListBuilder
  prefix text b = rebuilt (host.list_prefix b.builder text)

  unfoldable pub execute : ListBuilder → M S Err ListPage
  execute b = do box ← host.list_execute b.builder; pure (record { page = box })

  unfoldable pub iter : {E : Type 0} → ListBuilder → M S E ListResponse
  iter b = do box ← read (host.list_iter b.builder); pure (record { iter = box })

  unfoldable pub execute_async : ListBuilder → M S Err PendingListHandle
  execute_async b = do handle ← host.list_execute_async b.builder; pure (record { handle = handle })
