-- ===== src/KvStore.antt =====
-- `KVStore` and `LookupResponse` of include/fastly/kv_store.h and src/cpp/kv_store.cpp, over the bridge.
-- Each is its box. A body that is passed by value was moved into the parameter, which flushed it.
pub mod Handles
pub mod Inserting
pub mod LookingUp
pub mod Erasing
pub mod Pages
pub mod Listing
pub mod Laws
pub mod Dictionary
pub mod Refinement
use compute_sdk_cpp.Prelude.{ℕ, Bool, true, false, Option, none, some, inl, inr, Bytes}
use compute_sdk_cpp.Prelude.Effects.{M, pure, throw, ◌>>=◌}
use compute_sdk_cpp.Host.Calls.{read, optional, Expected}
use compute_sdk_cpp.Host.KvStores.{KvStoreHost, LookupResponseHost}
use compute_sdk_cpp.Http.Body
use compute_sdk_cpp.Http.Body.{Body}
use Handles.{PendingInsertHandle, PendingLookupHandle, PendingEraseHandle, PendingListHandle}
use Inserting.{InsertBuilder}
use LookingUp.{LookupBuilder, LookupResponse}
use Erasing.{EraseBuilder}
use Pages.{ListPage}
use Listing.{ListBuilder}

pub record KvStore : Type 0 where
  pub store : ℕ

-- `m_static_kv_store_kv_store_open` of src/kv_store.rs: the Boolean and the out parameters for what the
-- crate's `open` gives. `store` keeps what it held where it is not set.
unfoldable pub write_open : {Err : Type 0} → Expected Err (Option ℕ) → ℕ → Bool × ℕ × Option Err
write_open (inr (some box)) store = (true, box, none)
write_open (inr none) store = (false, store, none)
write_open (inl e) store = (false, store, some e)

module _ {S Err : Type 0} (host : KvStoreHost S Err) where
  -- The branches of `KVStore::open`.
  unfoldable pub opened : Bool → ℕ → Option Err → M S Err (Option KvStore)
  opened true store e = pure (some (record { store = store }))
  opened false store (some e) = throw e
  opened false store none = pure none

  -- `KVStore::open`
  unfoldable pub open_store : Bytes → M S Err (Option KvStore)
  unfolding opened
  open_store name s =
      let ((found, store, e), s1) = host.kv_store_open name s in opened found store e s1

  unfoldable pub lookup : KvStore → Bytes → M S Err LookupResponse
  lookup st key = do box ← host.lookup st.store key; pure (record { response = box })

  unfoldable pub build_lookup : {E : Type 0} → KvStore → M S E LookupBuilder
  build_lookup st = do box ← read (host.build_lookup st.store); pure (record { builder = box })

  unfoldable pub pending_lookup_wait : KvStore → PendingLookupHandle → M S Err LookupResponse
  pending_lookup_wait st pending = do
    box ← host.pending_lookup_wait st.store pending.handle
    pure (record { response = box })

  unfoldable pub insert : KvStore → Bytes → Body → M S Err (Unit {0})
  insert st key value = host.insert st.store key value.bod

  unfoldable pub build_insert : {E : Type 0} → KvStore → M S E InsertBuilder
  build_insert st = do box ← read (host.build_insert st.store); pure (record { builder = box })

  unfoldable pub pending_insert_wait : KvStore → PendingInsertHandle → M S Err (Unit {0})
  pending_insert_wait st pending = host.pending_insert_wait st.store pending.handle

  unfoldable pub erase : KvStore → Bytes → M S Err (Unit {0})
  erase st key = host.erase st.store key

  unfoldable pub build_erase : {E : Type 0} → KvStore → M S E EraseBuilder
  build_erase st = do box ← read (host.build_erase st.store); pure (record { builder = box })

  unfoldable pub pending_erase_wait : KvStore → PendingEraseHandle → M S Err (Unit {0})
  pending_erase_wait st pending = host.pending_erase_wait st.store pending.handle

  unfoldable pub list : KvStore → M S Err ListPage
  list st = do box ← host.list st.store; pure (record { page = box })

  unfoldable pub build_list : {E : Type 0} → KvStore → M S E ListBuilder
  build_list st = do box ← read (host.build_list st.store); pure (record { builder = box })

  unfoldable pub pending_list_wait : KvStore → PendingListHandle → M S Err ListPage
  pending_list_wait st pending = do
    box ← host.pending_list_wait st.store pending.handle
    pure (record { page = box })

module _ {S : Type 0} (host : LookupResponseHost S) where
  unfoldable pub take_body : {E : Type 0} → LookupResponse → M S E Body
  take_body r = do box ← read (host.take_body r.response); pure (Body.from_handle box)

  -- `Body` over a box, if there is one.
  unfoldable pub body_of : Option ℕ → Option Body
  body_of none = none
  body_of (some box) = some (Body.from_handle box)

  unfoldable pub try_take_body : {E : Type 0} → LookupResponse → M S E (Option Body)
  unfolding body_of
  try_take_body r = do box ← optional (host.try_take_body r.response); pure (body_of box)

  unfoldable pub take_body_bytes : {E : Type 0} → LookupResponse → M S E Bytes
  take_body_bytes r = read (host.take_body_bytes r.response)

  unfoldable pub metadata : {E : Type 0} → LookupResponse → M S E (Option Bytes)
  metadata r = optional (host.metadata r.response)

  unfoldable pub current_generation : {E : Type 0} → LookupResponse → M S E ℕ
  current_generation r = read (host.current_generation r.response)
