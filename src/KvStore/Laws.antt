-- ===== src/KvStore/Laws.antt =====
-- What opening a store tells, and the pages of a list.
use compute_sdk_cpp.Prelude.{ℕ, ◌<◌, ◌≡◌, refl, map, Option, none, some, inl, inr, Bytes, length}
use compute_sdk_cpp.Prelude.Effects.{M, pure, throw, ok}
use compute_sdk_cpp.Host.Calls.{Expected}
use compute_sdk_cpp.Host.KvStores.{KvStoreHost, KvListHost}
use compute_sdk_cpp.Http.RustIteratorRange.{for_each}
use compute_sdk_cpp.Http.RustIteratorRange.Bridged.{WritesItems, for_each-decoded}
use compute_sdk_cpp.KvStore.{KvStore, open_store, opened, write_open}
use compute_sdk_cpp.KvStore.Listing.{ListResponse, next, next_page, write_next}
use compute_sdk_cpp.KvStore.Pages.{ListPage}

-- What the crate's `open` gives, as the result of `KVStore::open`.
abbrev pub store_of : {S Err : Type 0} → Expected Err (Option ℕ) → M S Err (Option KvStore)
store_of (inr (some box)) = pure (some (record { store = box }))
store_of (inr none) = pure none
store_of (inl e) = throw e

-- `KVStore::open` tells a store, no store and an error apart as the crate does, if the bridge writes
-- its Boolean and its out parameters as src/kv_store.rs does, whatever `store` held before.
pub open_store_lem :
    {S Err : Type 0} (host : KvStoreHost S Err) (name : Bytes) (given : Expected Err (Option ℕ))
    (store : ℕ) (s s1 : S)
    → host.kv_store_open name s ≡ (write_open given store, s1)
    → open_store host name s ≡ store_of given s1
unfolding open_store opened write_open
open_store_lem host name (inr (some box)) store s s1 e = rw e refl
open_store_lem host name (inr none) store s s1 e = rw e refl
open_store_lem host name (inl x) store s s1 e = rw e refl

abbrev pub page_of : {Err : Type 0} → Expected Err ℕ → Expected Err ListPage
page_of (inr box) = inr (record { page = box })
page_of (inl e) = inl e

next_page-write_next :
    {Err : Type 0} (item : Expected Err ℕ) (page : ℕ)
    → let (more, box, e) = write_next (some item) page in next_page more box e ≡ some (page_of item)
unfolding next_page write_next
next_page-write_next (inr box) page = refl
next_page-write_next (inl e) page = refl

next_page-nothing :
    {Err : Type 0} (page : ℕ)
    → let (more, box, e) = write_next {Err = Err} none page in next_page more box e ≡ none
unfolding next_page write_next
next_page-nothing page = refl

-- A bridge that writes the items of the crate's iterator, pages and errors, and then that there is
-- none, as src/kv_store.rs does; `page` is what the out parameter held before.
abbrev pub ListsPages : {S Err : Type 0} → KvListHost S Err → ℕ → (S → ℕ) → Type 0
ListsPages host iter page =
    WritesItems (host.list_response_next iter) (λ item s. write_next item (page s))

module _ {S Err : Type 0} (host : KvListHost S Err) (range : ListResponse) (page : S → ℕ)
    (P : ListsPages host range.iter page) where
  -- A loop over the range of `ListBuilder::iter` visits the pages and the errors of the crate's
  -- iterator, in order and once each, with more rounds than there are items, if the bridge writes
  -- its Boolean and its out parameters as src/kv_store.rs does.
  pub next-for_each :
      (E : Type 0) (fuel : ℕ) (s : S)
      → length (P.items s) < fuel
      → (s' : S) × (for_each (next host range) {E = E} fuel s ≡ ok (map page_of (P.items s)) s')
  unfolding next
  next-for_each E fuel s few =
      for_each-decoded (host.list_response_next range.iter) (λ item s. write_next item (page s))
        (λ answer. next_page answer.0 answer.1 answer.2) page_of P (λ s. next_page-nothing (page s))
        (λ x s. next_page-write_next x (page s)) E fuel s few
