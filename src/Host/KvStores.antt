-- ===== src/Host/KvStores.antt =====
-- The functions behind the boxes of fastly::sys::kv_store, which src/kv_store.rs forwards to the
-- fastly crate, by theme. A box is a number, and `Err` is a box of `KVStoreError`.
use compute_sdk_cpp.Prelude.{ℕ, Bool, Bytes, List, Option}
use compute_sdk_cpp.Prelude.Effects.{M}

-- src/lib.rs
pub data InsertMode : Type 0 where
  overwrite : InsertMode
  add : InsertMode
  append : InsertMode
  prepend : InsertMode

-- A `ListModeType`, or a number that is none.
pub data ListModeType : Type 0 where
  strong : ListModeType
  eventual : ListModeType
  other : ListModeType
  unlisted : ℕ → ListModeType

pub record KvStoreHost (S Err : Type 0) : Type 0 where
  -- the Boolean, and the out parameters `store` and `err`
  pub kv_store_open : Bytes → S → (Bool × ℕ × Option Err) × S
  pub lookup : ℕ → Bytes → M S Err ℕ
  pub build_lookup : ℕ → S → ℕ × S
  pub pending_lookup_wait : ℕ → ℕ → M S Err ℕ
  pub insert : ℕ → Bytes → ℕ → M S Err (Unit {0})
  pub build_insert : ℕ → S → ℕ × S
  pub pending_insert_wait : ℕ → ℕ → M S Err (Unit {0})
  pub erase : ℕ → Bytes → M S Err (Unit {0})
  pub build_erase : ℕ → S → ℕ × S
  pub pending_erase_wait : ℕ → ℕ → M S Err (Unit {0})
  pub list : ℕ → M S Err ℕ
  pub build_list : ℕ → S → ℕ × S
  pub pending_list_wait : ℕ → ℕ → M S Err ℕ

-- `LookupResponse`
pub record LookupResponseHost (S : Type 0) : Type 0 where
  pub take_body : ℕ → S → ℕ × S
  pub try_take_body : ℕ → S → (Bool × ℕ) × S
  pub take_body_bytes : ℕ → S → Bytes × S
  pub metadata : ℕ → S → (Bool × Bytes) × S
  pub current_generation : ℕ → S → ℕ × S

-- The builders but that of lists.
pub record KvBuilderHost (S Err : Type 0) : Type 0 where
  pub insert_mode : ℕ → InsertMode → S → ℕ × S
  pub insert_background_fetch : ℕ → S → ℕ × S
  pub insert_if_generation_match : ℕ → ℕ → S → ℕ × S
  pub insert_metadata : ℕ → Bytes → S → ℕ × S
  pub insert_time_to_live : ℕ → ℕ → S → ℕ × S
  pub insert_execute : ℕ → Bytes → ℕ → M S Err (Unit {0})
  pub insert_execute_async : ℕ → Bytes → ℕ → M S Err ℕ
  pub lookup_execute : ℕ → Bytes → M S Err ℕ
  pub lookup_execute_async : ℕ → Bytes → M S Err ℕ
  pub erase_execute : ℕ → Bytes → M S Err (Unit {0})
  pub erase_execute_async : ℕ → Bytes → M S Err ℕ

-- Lists and their pages.
pub record KvListHost (S Err : Type 0) : Type 0 where
  pub list_eventual_consistency : ℕ → S → ℕ × S
  pub list_cursor : ℕ → Bytes → S → ℕ × S
  pub list_limit : ℕ → ℕ → S → ℕ × S
  pub list_prefix : ℕ → Bytes → S → ℕ × S
  pub list_execute : ℕ → M S Err ℕ
  pub list_iter : ℕ → S → ℕ × S
  pub list_execute_async : ℕ → M S Err ℕ
  -- the Boolean, and the out parameters `page` and `err`
  pub list_response_next : ℕ → S → (Bool × ℕ × Option Err) × S
  pub page_keys : ℕ → S → List Bytes × S
  pub page_into_keys : ℕ → S → List Bytes × S
  pub page_next_cursor : ℕ → S → (Bool × Bytes) × S
  pub page_prefix : ℕ → S → (Bool × Bytes) × S
  pub page_limit : ℕ → S → ℕ × S
  pub page_mode : ℕ → S → ℕ × S
  pub mode_code : ℕ → S → ListModeType × S
  pub mode_other_string : ℕ → S → Bytes × S
