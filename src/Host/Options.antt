-- ===== src/Host/Options.antt =====
-- The option structs of src/cpp/fastly.h and their mask bits. A pointer and its
-- length are two fields, as there: `none` is a null pointer, `some` holds the bytes pointed at.
pub mod Write
pub mod Lookup
pub mod Replace
pub mod State
use compute_sdk_cpp.Prelude.{ℕ, Bytes, Option, none}

pub record CacheWriteOptions : Type 0 where
  pub max_age_ns : ℕ
  pub request_headers : ℕ
  pub vary_rule_ptr : Option Bytes
  pub vary_rule_len : ℕ
  pub initial_age_ns : ℕ
  pub stale_while_revalidate_ns : ℕ
  pub surrogate_keys_ptr : Option Bytes
  pub surrogate_keys_len : ℕ
  pub length : ℕ
  pub user_metadata_ptr : Option Bytes
  pub user_metadata_len : ℕ
  pub edge_max_age_ns : ℕ
  pub service : Option Bytes
  pub service_len : ℕ

pub record CacheLookupOptions : Type 0 where
  pub request_headers : ℕ
  pub service : Option Bytes
  pub service_len : ℕ

pub record CacheReplaceOptions : Type 0 where
  pub request_headers : ℕ
  pub replace_strategy : ℕ
  pub service : Option Bytes
  pub service_len : ℕ

pub record CacheGetBodyOptions : Type 0 where
  pub from : ℕ
  pub to : ℕ

-- `fastly::CacheWriteOptions host_opt{};`
abbrev pub no_write_options : CacheWriteOptions
no_write_options = record {
  max_age_ns = 0;
  request_headers = 0;
  vary_rule_ptr = none;
  vary_rule_len = 0;
  initial_age_ns = 0;
  stale_while_revalidate_ns = 0;
  surrogate_keys_ptr = none;
  surrogate_keys_len = 0;
  length = 0;
  user_metadata_ptr = none;
  user_metadata_len = 0;
  edge_max_age_ns = 0;
  service = none;
  service_len = 0;
}

abbrev pub no_lookup_options : CacheLookupOptions
no_lookup_options = record { request_headers = 0; service = none; service_len = 0 }

abbrev pub no_replace_options : CacheReplaceOptions
no_replace_options = record {
  request_headers = 0;
  replace_strategy = 0;
  service = none;
  service_len = 0;
}

abbrev pub no_get_body_options : CacheGetBodyOptions
no_get_body_options = record { from = 0; to = 0 }
