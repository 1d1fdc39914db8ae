-- ===== src/Cache/Core/Replace.antt =====
-- `Replace` of src/cpp/cache/core.cpp. Its handle is shared with the object that was found, if any,
-- so dropping that object closes nothing.
use compute_sdk_cpp.Prelude.{ℕ, Bool, List, [], ◌∷◌, Option, none, some, Bytes}
use compute_sdk_cpp.Prelude.Int.{ℤ, pos}
use compute_sdk_cpp.Prelude.Effects.{M, pure, ◌>>=◌}
use compute_sdk_cpp.Host.{CacheHost, RequestHost}
use compute_sdk_cpp.Http.StreamingBody.{StreamingBody, from_body_handle}
use compute_sdk_cpp.Cache.Core.Options.{CacheError, WriteOptions, write_options}
use compute_sdk_cpp.Cache.Core.Abi.{as_abi_write}
use compute_sdk_cpp.Cache.Core.Join.{join_strings}
use compute_sdk_cpp.Cache.Core.Headers.{set_request_header_values}
use compute_sdk_cpp.Cache.Core.Handles.{Found}
use compute_sdk_cpp.Cache.Core.Handles.{cache_try}

pub record Replace : Type 0 where
  pub handle : ℕ
  pub existing_object : Option Found
  pub options : WriteOptions

-- The constructor.
abbrev pub make_replace : ℕ → Option Found → Replace
make_replace handle existing_object = record {
  handle = handle;
  existing_object = existing_object;
  options = write_options (pos 0);
}

module _ {S : Type 0} (host : RequestHost S) where
  unfoldable pub header_values : {E : Type 0} → Bytes → List Bytes → Replace → M S E Replace
  header_values name values b = do
    request_headers ← set_request_header_values host b.options.request_headers name values
    pure (record b { options = record (b.options) { request_headers = request_headers } })

  unfoldable pub header : {E : Type 0} → Bytes → Bytes → Replace → M S E Replace
  unfolding header_values
  header name value b = header_values name (value ∷ []) b

unfoldable pub vary_by : List Bytes → Replace → Replace
vary_by [] b = b
vary_by (header ∷ headers) b =
    let rule = join_strings (header ∷ headers) b' ' in
    record b { options = record (b.options) { vary_rule = some rule } }

unfoldable pub initial_age : ℤ → Replace → Replace
initial_age age_ns b = record b { options = record (b.options) { initial_age = some age_ns } }

unfoldable pub stale_while_revalidate : ℤ → Replace → Replace
stale_while_revalidate duration b = record b {
  options = record (b.options) { stale_while_revalidate = some duration };
}

unfoldable pub surrogate_keys : List Bytes → Replace → Replace
surrogate_keys [] b = b
surrogate_keys (key ∷ keys) b =
    let joined = join_strings (key ∷ keys) b' ' in
    record b { options = record (b.options) { surrogate_keys = some joined } }

unfoldable pub known_length : ℕ → Replace → Replace
known_length length b = record b { options = record (b.options) { length = some length } }

unfoldable pub user_metadata : Bytes → Replace → Replace
user_metadata metadata b = record b {
  options = record (b.options) { user_metadata = some metadata };
}

unfoldable pub sensitive_data : Bool → Replace → Replace
sensitive_data is_sensitive b = record b {
  options = record (b.options) { sensitive_data = is_sensitive };
}

unfoldable pub deliver_node_max_age : ℤ → Replace → Replace
deliver_node_max_age duration b = record b {
  options = record (b.options) { edge_max_age = some duration };
}

module _ {S : Type 0} (host : CacheHost S) where
  unfoldable pub execute : ℤ → Replace → M S CacheError StreamingBody
  execute max_age r = do
    let r1 : Replace = record r {
      options = record (r.options) { max_age = max_age };
      existing_object = none;
    }
    let (options, options_mask) = as_abi_write r1.options
    body_handle ← cache_try (host.cache_replace_insert r1.handle options_mask options)
    pure (from_body_handle body_handle)
