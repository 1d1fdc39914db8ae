-- ===== src/KvStore/Pages.antt =====
-- `ListPage` and the modes of a list, of include/fastly/kv_store.h and src/cpp/kv_store.cpp.
use compute_sdk_cpp.Prelude.{ℕ, Option, Bytes, List, [], ◌∷◌, ◌++◌}
use compute_sdk_cpp.Prelude.Effects.{M, pure, abort_process, ◌>>=◌}
use compute_sdk_cpp.Host.Calls.{read, optional}
use compute_sdk_cpp.Host.KvStores.{KvListHost, ListModeType}

pub record ListPage : Type 0 where
  pub page : ℕ

-- `std::variant<ListModeStrong, ListModeEventual, ListModeOther>`
pub data ListMode : Type 0 where
  strong : ListMode
  eventual : ListMode
  other : Bytes → ListMode

-- The loop that copies the keys into `result`.
unfoldable pub copy_keys : List Bytes → List Bytes → List Bytes
copy_keys result [] = result
copy_keys result (key ∷ keys) = copy_keys (result ++ key ∷ []) keys

module _ {S Err : Type 0} (host : KvListHost S Err) where
  unfoldable pub keys : {E : Type 0} → ListPage → M S E (List Bytes)
  unfolding copy_keys
  keys p = do names ← read (host.page_keys p.page); pure (copy_keys [] names)

  unfoldable pub into_keys : {E : Type 0} → ListPage → M S E (List Bytes)
  unfolding copy_keys
  into_keys p = do names ← read (host.page_into_keys p.page); pure (copy_keys [] names)

  unfoldable pub next_cursor : {E : Type 0} → ListPage → M S E (Option Bytes)
  next_cursor p = optional (host.page_next_cursor p.page)

  unfoldable pub prefix : {E : Type 0} → ListPage → M S E (Option Bytes)
  prefix p = optional (host.page_prefix p.page)

  unfoldable pub limit : {E : Type 0} → ListPage → M S E ℕ
  limit p = read (host.page_limit p.page)

  -- The `switch` of `ListPage::mode`, which terminates on a code that it does not know.
  unfoldable pub mode_of : {E : Type 0} → ℕ → ListModeType → M S E ListMode
  mode_of m ListModeType.strong = pure strong
  mode_of m ListModeType.eventual = pure eventual
  mode_of m ListModeType.other = do text ← read (host.mode_other_string m); pure (other text)
  mode_of m (ListModeType.unlisted _) = abort_process

  unfoldable pub mode : {E : Type 0} → ListPage → M S E ListMode
  unfolding mode_of
  mode p = do m ← read (host.page_mode p.page); code ← read (host.mode_code m); mode_of m code
