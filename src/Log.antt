-- ===== src/Log.antt =====
-- Logging, of include/fastly/log.h and src/cpp/log.cpp, over the bridge. `text` is what `std::format`
-- makes of the format and the arguments. `value()` on an `expected` that holds an error throws
-- where exceptions are on and aborts on this target, which has none.
use compute_sdk_cpp.Prelude.{ℕ, Bool, Bytes}
use compute_sdk_cpp.Prelude.Effects.{M, pure, ◌>>=◌, or_abort}
use compute_sdk_cpp.Host.Calls.{read, effect, then_this}
use compute_sdk_cpp.Host.Logs.{LogHost, LogLevel, LogLevelFilter}

pub record Endpoint : Type 0 where
  pub ep : ℕ

pub record LoggerBuilder : Type 0 where
  pub lb : ℕ

module _ {S Err : Type 0} (host : LogHost S Err) where
  unfoldable pub error : {E : Type 0} → Bytes → M S E (Unit {0})
  error text = effect (host.log_log LogLevel.error text)

  unfoldable pub error_to : {E : Type 0} → Bytes → Bytes → M S E (Unit {0})
  error_to dest text = effect (host.log_log_to dest LogLevel.error text)

  unfoldable pub warn : {E : Type 0} → Bytes → M S E (Unit {0})
  warn text = effect (host.log_log LogLevel.warn text)

  unfoldable pub warn_to : {E : Type 0} → Bytes → Bytes → M S E (Unit {0})
  warn_to dest text = effect (host.log_log_to dest LogLevel.warn text)

  unfoldable pub info : {E : Type 0} → Bytes → M S E (Unit {0})
  info text = effect (host.log_log LogLevel.info text)

  unfoldable pub info_to : {E : Type 0} → Bytes → Bytes → M S E (Unit {0})
  info_to dest text = effect (host.log_log_to dest LogLevel.info text)

  unfoldable pub debug : {E : Type 0} → Bytes → M S E (Unit {0})
  debug text = effect (host.log_log LogLevel.debug text)

  unfoldable pub debug_to : {E : Type 0} → Bytes → Bytes → M S E (Unit {0})
  debug_to dest text = effect (host.log_log_to dest LogLevel.debug text)

  unfoldable pub trace : {E : Type 0} → Bytes → M S E (Unit {0})
  trace text = effect (host.log_log LogLevel.trace text)

  unfoldable pub trace_to : {E : Type 0} → Bytes → Bytes → M S E (Unit {0})
  trace_to dest text = effect (host.log_log_to dest LogLevel.trace text)

  unfoldable pub max_level : {E : Type 0} → M S E LogLevelFilter
  max_level = read host.log_max_level

  unfoldable pub set_max_level : {E : Type 0} → LogLevelFilter → M S E (Unit {0})
  set_max_level level = effect (host.log_set_max_level level)

  -- `Endpoint::name`
  unfoldable pub name : {E : Type 0} → Endpoint → M S E Bytes
  name endpoint = read (host.endpoint_name endpoint.ep)

  -- `Endpoint::from_name`
  unfoldable pub from_name : Bytes → M S Err Endpoint
  from_name name = do box ← host.endpoint_try_from_name name; pure (record { ep = box })

  unfoldable pub init_simple : {E : Type 0} → Endpoint → LogLevelFilter → M S E (Unit {0})
  init_simple endpoint level = effect (host.log_init_simple endpoint.ep level)

  unfoldable pub init_simple_named : {E : Type 0} → Bytes → LogLevelFilter → M S E (Unit {0})
  unfolding from_name init_simple
  init_simple_named endpoint level = do ep ← or_abort (from_name endpoint); init_simple ep level

  unfoldable pub init_simple_info : {E : Type 0} → Endpoint → M S E (Unit {0})
  unfolding init_simple
  init_simple_info endpoint = init_simple endpoint LogLevelFilter.info

  unfoldable pub init_simple_named_info : {E : Type 0} → Bytes → M S E (Unit {0})
  unfolding init_simple_named
  init_simple_named_info endpoint = init_simple_named endpoint LogLevelFilter.info

  -- `LoggerBuilder()`
  unfoldable pub new_builder : {E : Type 0} → M S E LoggerBuilder
  new_builder = do box ← read host.logger_builder_new; pure (record { lb = box })

  unfoldable pub endpoint : {E : Type 0} → Endpoint → LoggerBuilder → M S E LoggerBuilder
  endpoint ep b = then_this b (effect (host.endpoint b.lb ep.ep))

  unfoldable pub endpoint_named : {E : Type 0} → Bytes → LoggerBuilder → M S E LoggerBuilder
  unfolding from_name endpoint
  endpoint_named ep b = do found ← or_abort (from_name ep); endpoint found b

  unfoldable pub endpoint_level :
      {E : Type 0} → Endpoint → LogLevelFilter → LoggerBuilder → M S E LoggerBuilder
  endpoint_level ep level b = then_this b (effect (host.endpoint_level b.lb ep.ep level))

  unfoldable pub endpoint_level_named :
      {E : Type 0} → Bytes → LogLevelFilter → LoggerBuilder → M S E LoggerBuilder
  unfolding from_name endpoint_level
  endpoint_level_named ep level b = do found ← or_abort (from_name ep); endpoint_level found level b

  unfoldable pub default_endpoint : {E : Type 0} → Endpoint → LoggerBuilder → M S E LoggerBuilder
  default_endpoint ep b = then_this b (effect (host.default_endpoint b.lb ep.ep))

  unfoldable pub default_endpoint_named : {E : Type 0} → Bytes → LoggerBuilder → M S E LoggerBuilder
  unfolding from_name default_endpoint
  default_endpoint_named ep b = do found ← or_abort (from_name ep); default_endpoint found b

  unfoldable pub default_level_endpoint :
      {E : Type 0} → Endpoint → LogLevel → LoggerBuilder → M S E LoggerBuilder
  default_level_endpoint ep level b =
      then_this b (effect (host.default_level_endpoint b.lb ep.ep level))

  unfoldable pub default_level_endpoint_named :
      {E : Type 0} → Bytes → LogLevel → LoggerBuilder → M S E LoggerBuilder
  unfolding from_name default_level_endpoint
  default_level_endpoint_named ep level b = do
    found ← or_abort (from_name ep)
    default_level_endpoint found level b

  -- `LoggerBuilder::max_level`
  unfoldable pub builder_max_level :
      {E : Type 0} → LogLevelFilter → LoggerBuilder → M S E LoggerBuilder
  builder_max_level level b = then_this b (effect (host.max_level b.lb level))

  unfoldable pub echo_stdout : {E : Type 0} → Bool → LoggerBuilder → M S E LoggerBuilder
  echo_stdout enabled b = then_this b (effect (host.echo_stdout b.lb enabled))

  unfoldable pub echo_stderr : {E : Type 0} → Bool → LoggerBuilder → M S E LoggerBuilder
  echo_stderr enabled b = then_this b (effect (host.echo_stderr b.lb enabled))

  unfoldable pub init : {E : Type 0} → LoggerBuilder → M S E (Unit {0})
  init b = effect (host.init b.lb)
