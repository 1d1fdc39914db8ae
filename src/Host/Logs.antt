-- ===== src/Host/Logs.antt =====
-- The functions of fastly::sys::log, which src/log.rs forwards to the log and fastly crates. A box is a
-- number.
use compute_sdk_cpp.Prelude.{ℕ, Bool, Bytes}
use compute_sdk_cpp.Prelude.Effects.{M}

-- src/lib.rs
pub data LogLevel : Type 0 where
  error : LogLevel
  warn : LogLevel
  info : LogLevel
  debug : LogLevel
  trace : LogLevel

pub data LogLevelFilter : Type 0 where
  off : LogLevelFilter
  error : LogLevelFilter
  warn : LogLevelFilter
  info : LogLevelFilter
  debug : LogLevelFilter
  trace : LogLevelFilter

pub record LogHost (S Err : Type 0) : Type 0 where
  pub log_log : LogLevel → Bytes → S → S
  pub log_log_to : Bytes → LogLevel → Bytes → S → S
  pub log_max_level : S → LogLevelFilter × S
  pub log_set_max_level : LogLevelFilter → S → S
  pub endpoint_name : ℕ → S → Bytes × S
  pub endpoint_try_from_name : Bytes → M S Err ℕ
  pub log_init_simple : ℕ → LogLevelFilter → S → S
  pub logger_builder_new : S → ℕ × S
  pub endpoint : ℕ → ℕ → S → S
  pub endpoint_level : ℕ → ℕ → LogLevelFilter → S → S
  pub default_endpoint : ℕ → ℕ → S → S
  pub default_level_endpoint : ℕ → ℕ → LogLevel → S → S
  pub max_level : ℕ → LogLevelFilter → S → S
  pub echo_stdout : ℕ → Bool → S → S
  pub echo_stderr : ℕ → Bool → S → S
  pub init : ℕ → S → S
