-- ===== src/Http/Request/Target.antt =====
-- src/cpp/http/request.cpp: the method, the address and the version of a request.
use compute_sdk_cpp.Prelude.{Option, Bytes}
use compute_sdk_cpp.Prelude.Effects.{M, ◌>>=◌}
use compute_sdk_cpp.Host.Calls.{read, optional, effect, then_this, try_fe, test_err}
use compute_sdk_cpp.Host.Requests.{RequestTargetHost, Method, Version}
use compute_sdk_cpp.Http.Request.{Request}

module _ {S Err : Type 0} (host : RequestTargetHost S Err) where
  unfoldable pub get_method : {E : Type 0} → Request → M S E Method
  get_method r = read (host.get_method r.req)

  unfoldable pub get_method_str : {E : Type 0} → Request → M S E Bytes
  get_method_str r = read (host.get_method_str r.req)

  unfoldable pub set_method : {E : Type 0} → Request → Method → M S E (Unit {0})
  set_method r method = effect (host.set_method r.req method)

  unfoldable pub with_method : {E : Type 0} → Method → Request → M S E Request
  unfolding set_method
  with_method method r = then_this r (set_method r method)

  -- `set_method(std::string_view)`: `err` is not initialised; `stale` is what it holds.
  unfoldable pub set_method_str : Option Err → Request → Bytes → M S Err (Unit {0})
  set_method_str stale r method = do
    answer ← λ s. try_fe stale (host.set_method_str r.req method s)
    test_err answer

  unfoldable pub with_method_str : Option Err → Bytes → Request → M S Err Request
  unfolding set_method_str
  with_method_str stale method r = then_this r (set_method_str stale r method)

  unfoldable pub get_url : {E : Type 0} → Request → M S E Bytes
  get_url r = read (host.get_url r.req)

  unfoldable pub set_url : Request → Bytes → M S Err (Unit {0})
  set_url r url = host.set_url r.req url

  unfoldable pub with_url : Bytes → Request → M S Err Request
  unfolding set_url
  with_url url r = then_this r (set_url r url)

  unfoldable pub get_path : {E : Type 0} → Request → M S E Bytes
  get_path r = read (host.get_path r.req)

  unfoldable pub set_path : Request → Bytes → M S Err (Unit {0})
  set_path r path = host.set_path r.req path

  unfoldable pub with_path : Bytes → Request → M S Err Request
  unfolding set_path
  with_path path r = then_this r (set_path r path)

  unfoldable pub get_query_string : {E : Type 0} → Request → M S E (Option Bytes)
  get_query_string r = optional (host.get_query_string r.req)

  unfoldable pub get_query_parameter : {E : Type 0} → Request → Bytes → M S E (Option Bytes)
  get_query_parameter r param = optional (host.get_query_parameter r.req param)

  unfoldable pub set_query_string : Request → Bytes → M S Err (Unit {0})
  set_query_string r query = host.set_query_string r.req query

  unfoldable pub with_query_string : Bytes → Request → M S Err Request
  unfolding set_query_string
  with_query_string query r = then_this r (set_query_string r query)

  unfoldable pub remove_query : {E : Type 0} → Request → M S E (Unit {0})
  remove_query r = effect (host.remove_query r.req)

  unfoldable pub get_version : {E : Type 0} → Request → M S E Version
  get_version r = read (host.get_version r.req)

  unfoldable pub set_version : {E : Type 0} → Request → Version → M S E (Unit {0})
  set_version r version = effect (host.set_version r.req version)

  unfoldable pub with_version : {E : Type 0} → Version → Request → M S E Request
  unfolding set_version
  with_version version r = then_this r (set_version r version)
