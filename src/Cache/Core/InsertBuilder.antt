-- ===== src/Cache/Core/InsertBuilder.antt =====
-- `insert` and `InsertBuilder` of src/cpp/cache/core.cpp.
pub mod Laws
use compute_sdk_cpp.Prelude.{ℕ, Bool, List, [], ◌∷◌, Option, none, some, Bytes, true, if◌then◌else◌}
use compute_sdk_cpp.Prelude.Int.{ℤ, pos}
use compute_sdk_cpp.Prelude.Effects.{M, pure, ok, err, ◌>>=◌, ◌>>◌}
use compute_sdk_cpp.Host.{CacheHost, RequestHost, is_ok}
use compute_sdk_cpp.Host.Options.State
use compute_sdk_cpp.Http.StreamingBody.{StreamingBody, from_body_handle}
use compute_sdk_cpp.Cache.Core.Options.{CacheError, from_status, WriteOptions, write_options}
use compute_sdk_cpp.Cache.Core.Options.{LookupOptions, default_lookup_options, ReplaceOptions}
use compute_sdk_cpp.Cache.Core.Options.{default_replace_options, ReplaceStrategy}
use compute_sdk_cpp.Cache.Core.Abi.{as_abi_lookup, as_abi_write, as_abi_replace}
use compute_sdk_cpp.Cache.Core.Join.{join_strings}
use compute_sdk_cpp.Cache.Core.Headers.{set_request_header_values}
use compute_sdk_cpp.Cache.Core.Handles.{Found, cached, replacing, Transaction, PendingTransaction}
use compute_sdk_cpp.Cache.Core.Handles.{cache_try, has_state, drop_cache_replace_handle}

pub record InsertBuilder : Type 0 where
  pub key : Bytes
  pub options : WriteOptions

unfoldable pub insert : Bytes → ℤ → InsertBuilder
insert key max_age = record { key = key; options = write_options max_age }

module _ {S : Type 0} (host : RequestHost S) where
  unfoldable pub header_values :
      {E : Type 0} → Bytes → List Bytes → InsertBuilder → M S E InsertBuilder
  header_values name values b = do
    request_headers ← set_request_header_values host b.options.request_headers name values
    pure (record b { options = record (b.options) { request_headers = request_headers } })

  unfoldable pub header : {E : Type 0} → Bytes → Bytes → InsertBuilder → M S E InsertBuilder
  unfolding header_values
  header name value b = header_values name (value ∷ []) b

unfoldable pub vary_by : List Bytes → InsertBuilder → InsertBuilder
vary_by [] b = b
vary_by (header ∷ headers) b =
    let rule = join_strings (header ∷ headers) b' ' in
    record b { options = record (b.options) { vary_rule = some rule } }

unfoldable pub initial_age : ℤ → InsertBuilder → InsertBuilder
initial_age age_ns b = record b { options = record (b.options) { initial_age = some age_ns } }

unfoldable pub stale_while_revalidate : ℤ → InsertBuilder → InsertBuilder
stale_while_revalidate duration b = record b {
  options = record (b.options) { stale_while_revalidate = some duration };
}

unfoldable pub surrogate_keys : List Bytes → InsertBuilder → InsertBuilder
surrogate_keys [] b = b
surrogate_keys (key ∷ keys) b =
    let joined = join_strings (key ∷ keys) b' ' in
    record b { options = record (b.options) { surrogate_keys = some joined } }

unfoldable pub known_length : ℕ → InsertBuilder → InsertBuilder
known_length length b = record b { options = record (b.options) { length = some length } }

unfoldable pub user_metadata : Bytes → InsertBuilder → InsertBuilder
user_metadata metadata b = record b {
  options = record (b.options) { user_metadata = some metadata };
}

unfoldable pub sensitive_data : Bool → InsertBuilder → InsertBuilder
sensitive_data is_sensitive b = record b {
  options = record (b.options) { sensitive_data = is_sensitive };
}

unfoldable pub deliver_node_max_age : ℤ → InsertBuilder → InsertBuilder
deliver_node_max_age duration b = record b {
  options = record (b.options) { edge_max_age = some duration };
}

unfoldable pub on_behalf_of : Bytes → InsertBuilder → InsertBuilder
on_behalf_of service b = record b { options = record (b.options) { service = some service } }

module _ {S : Type 0} (host : CacheHost S) where
  unfoldable pub execute : InsertBuilder → M S CacheError StreamingBody
  execute b = do
    let (options, options_mask) = as_abi_write b.options
    body_handle ← cache_try (host.cache_insert b.key options_mask options)
    pure (from_body_handle body_handle)
