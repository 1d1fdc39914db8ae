-- ===== src/Tests/CoreRuns.antt =====
-- Runs of the models of src/cpp/cache/core.cpp and src/cpp/erl.cpp.
use compute_sdk_cpp.Cache.Core.ReplaceBuilder.{replace}
use compute_sdk_cpp.Cache.Core.ReplaceBuilder.Balance.{
  CountsReplacing, replace_once, replace_once-Ends,
}
use compute_sdk_cpp.Cache.Simple.Ends.{EndsAt}
use compute_sdk_cpp.Prelude.{ℕ, ◌≡◌, refl, true, false, List, [], ◌∷◌, none, some, Bytes, replicate}
use compute_sdk_cpp.Prelude.{arith}
use compute_sdk_cpp.Prelude.Int.{pos, negsuc}
use compute_sdk_cpp.Prelude.Split.{split_on}
use compute_sdk_cpp.Prelude.Effects.{ok}
use compute_sdk_cpp.Cache.Core.Options.{
  CacheError, LookupOptions, ReplaceOptions, WriteOptions, immediate_force_miss, write_options,
}
use compute_sdk_cpp.Cache.Core.Abi.{as_abi_write, as_abi_replace}
use compute_sdk_cpp.Cache.Core.Abi.Decode.{decode_write, decode_replace}
use compute_sdk_cpp.Cache.Core.Abi.Laws.{decode-as_abi_write, decode-as_abi_replace}
use compute_sdk_cpp.Cache.Core.Join.{join_strings, split_on-join_strings}
use compute_sdk_cpp.Cache.Core.Headers.{set_request_header_values}
use compute_sdk_cpp.Cache.Core.Headers.Laws.{set_request_header_values_lost}
use compute_sdk_cpp.Cache.Core.Handles.{cached}
use compute_sdk_cpp.Cache.Core.Found
use compute_sdk_cpp.Cache.Core.Found.Laws.{user_metadata_lem}
use compute_sdk_cpp.Cache.Core.InsertBuilder.{insert}
use compute_sdk_cpp.Cache.Core.InsertBuilder.Laws.{
  Setting, vary, age, surrogates, known, apply_all, configured, apply_all-configured,
}
use compute_sdk_cpp.Tests.Toys.{
  toy_cache, toy_cache-HasMetadata, toy_requests, toy_requests-IsRequestHost,
}

abbrev some_lookup : LookupOptions
some_lookup = record {
  request_headers = some 3;
  service = some (b's' ∷ b'v' ∷ b'c' ∷ []);
  always_use_requested_range = true;
}

abbrev some_replace : ReplaceOptions
some_replace = record {
  request_headers = none;
  replace_strategy = immediate_force_miss;
  service = some (b's' ∷ b'v' ∷ b'c' ∷ []);
  always_use_requested_range = true;
}

decode-as_abi_replace_example : decode_replace (as_abi_replace some_replace) ≡ some_replace
decode-as_abi_replace_example = decode-as_abi_replace some_replace

-- A negative age, and five of the options set.
abbrev some_write : WriteOptions
some_write = record (write_options (pos 60000000000)) {
  initial_age = some (negsuc 4);
  surrogate_keys = some (b'a' ∷ b' ' ∷ b'b' ∷ []);
  length = some 12;
  sensitive_data = true;
  service = some (b's' ∷ b'v' ∷ b'c' ∷ []);
}

decode-as_abi_write_example : decode_write (as_abi_write some_write) ≡ some_write
decode-as_abi_write_example = decode-as_abi_write some_write (record {
  max_age = omega arith;
  initial_age = omega arith;
  stale_while_revalidate = tt;
  edge_max_age = tt;
})

split_on-join_strings_example :
    split_on b' ' (join_strings ((b'a' ∷ []) ∷ [] ∷ (b'b' ∷ b'c' ∷ []) ∷ []) b' ')
    ≡ (b'a' ∷ []) ∷ [] ∷ (b'b' ∷ b'c' ∷ []) ∷ []
split_on-join_strings_example =
    split_on-join_strings ((b'a' ∷ []) ∷ [] ∷ (b'b' ∷ b'c' ∷ []) ∷ []) b' ' (λ e. cc)
      (refl, (refl, (refl, tt)))

set_request_header_values_lost_example :
    let closed = toy_requests.http_req_close 7 (toy_requests.http_req_new ((λ _. false), [])).2 in
    (set_request_header_values toy_requests {E = CacheError} none
        (b'a' ∷ b'c' ∷ b'c' ∷ b'e' ∷ b'p' ∷ b't' ∷ [])
        ((b'g' ∷ b'z' ∷ b'i' ∷ b'p' ∷ []) ∷ [])
        ((λ _. false), [])
      ≡ ok (some 7) closed)
    × (closed.0 7 ≡ false)
    × (set_request_header_values toy_requests {E = CacheError}
          (some 7)
          (b't' ∷ b'e' ∷ [])
          ((b'x' ∷ []) ∷ [])
          closed
        ≡ ok (some 7) closed)
set_request_header_values_lost_example =
    set_request_header_values_lost toy_requests toy_requests-IsRequestHost
      (b'a' ∷ b'c' ∷ b'c' ∷ b'e' ∷ b'p' ∷ b't' ∷ []) (b't' ∷ b'e' ∷ [])
      ((b'g' ∷ b'z' ∷ b'i' ∷ b'p' ∷ []) ∷ []) ((b'x' ∷ []) ∷ []) ((λ _. false), [])
      (toy_requests.http_req_new ((λ _. false), [])).2 7 refl

-- More metadata than fits the first buffer.
abbrev long_metadata : Bytes
long_metadata = replicate 17000 7

user_metadata_example :
    Found.user_metadata (toy_cache 3 long_metadata) {E = CacheError} (cached 4) 1
    ≡ ok long_metadata 1
unfolding toy_cache-HasMetadata
user_metadata_example =
    user_metadata_lem (toy_cache 3 long_metadata) CacheError (cached 4)
      (toy_cache-HasMetadata 3 long_metadata) 1

abbrev some_settings : List Setting
some_settings =
    age (pos 5)
    ∷ vary ((b'a' ∷ b'c' ∷ b'c' ∷ b'e' ∷ b'p' ∷ b't' ∷ []) ∷ [])
    ∷ surrogates ((b'a' ∷ []) ∷ (b'b' ∷ []) ∷ [])
    ∷ vary []
    ∷ known 3
    ∷ age (pos 6)
    ∷ []

apply_all-configured_example :
    apply_all some_settings (insert (b'k' ∷ b'e' ∷ b'y' ∷ []) (pos 9)) ≡ record {
      key = (b'k' ∷ b'e' ∷ b'y' ∷ []);
      options = configured some_settings (write_options (pos 9));
    }
unfolding insert
apply_all-configured_example =
    apply_all-configured some_settings (insert (b'k' ∷ b'e' ∷ b'y' ∷ []) (pos 9))

abbrev toy_cache-CountsReplacing :
    (state : ℕ) (bytes : Bytes) → CountsReplacing (toy_cache state bytes)
toy_cache-CountsReplacing state bytes = record {
  live = λ n. n;
  replace_opens = λ _ _ _ s. refl;
  state_keeps = λ _ s. refl;
  insert_keeps = λ _ _ _ s. refl;
  close = λ _ s. refl;
}

replace_once-Ends_example :
    EndsAt (λ n. n) 2 (replace_once (toy_cache 1 []) (pos 60) (replace (b'k' ∷ [])) 2)
replace_once-Ends_example =
    replace_once-Ends (toy_cache 1 []) (toy_cache-CountsReplacing 1 []) (pos 60)
      (replace (b'k' ∷ [])) 2
