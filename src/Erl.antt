-- ===== src/Erl.antt =====
-- Edge rate limiting: include/fastly/erl.h and src/cpp/erl.cpp. A `std::chrono::minutes` is the
-- integer that it counts; the host takes a `uint32_t` of seconds.
pub mod Laws
use compute_sdk_cpp.Prelude.{ℕ, ◌*◌, ◌-◌, ◌%◌, ◌^◌, ◌+◌, suc, Bool, Bytes, if◌then◌else◌}
use compute_sdk_cpp.Prelude.Int.{ℤ, pos, negsuc}
use compute_sdk_cpp.Prelude.Effects.{M, ok, err, ◌>>=◌}
use compute_sdk_cpp.Host.{Call, ErlHost, Status, invalid_argument, generic_error, is_ok}

pub data ErlError : Type 0 where
  unexpected unknown invalid_argument_error : ErlError

unfoldable pub from_status : Status → ErlError
from_status invalid_argument = invalid_argument_error
from_status generic_error = unexpected
from_status _ = unknown

unfoldable pub erl_try : {S A : Type 0} → Call S A → M S ErlError A
erl_try call s =
    let (status, out, s1) = call s in
    if is_ok status then ok out s1 else err (from_status status) s1

pub record PenaltyBox : Type 0 where
  pub name : Bytes

pub record RateCounter : Type 0 where
  pub name : Bytes

pub record Erl : Type 0 where
  pub rate_counter : RateCounter
  pub penalty_box : PenaltyBox

pub data CounterDuration : Type 0 where
  ten_secs twenty_secs thirty_secs forty_secs fifty_secs sixty_secs : CounterDuration

pub data RateWindow : Type 0 where
  one_sec ten_sec_window sixty_sec_window : RateWindow

unfoldable pub duration_number : CounterDuration → ℕ
duration_number ten_secs = 10
duration_number twenty_secs = 20
duration_number thirty_secs = 30
duration_number forty_secs = 40
duration_number fifty_secs = 50
duration_number sixty_secs = 60

unfoldable pub window_number : RateWindow → ℕ
window_number one_sec = 1
window_number ten_sec_window = 10
window_number sixty_sec_window = 60

-- `std::chrono::duration_cast<std::chrono::seconds>(ttl)`, then `count()` as a `uint32_t`
unfoldable pub ttl_seconds : ℤ → ℕ
ttl_seconds (pos minutes) = (60 * minutes) % 2 ^ 32
ttl_seconds (negsuc n) = (2 ^ 32 - (60 * suc n) % 2 ^ 32) % 2 ^ 32

module _ {S : Type 0} (host : ErlHost S) where
  -- `PenaltyBox::add`
  unfoldable pub add : PenaltyBox → Bytes → ℤ → M S ErlError (Unit {0})
  add b entry ttl = erl_try (host.penaltybox_add b.name entry (ttl_seconds ttl))

  -- `PenaltyBox::has`
  unfoldable pub has : PenaltyBox → Bytes → M S ErlError Bool
  has b entry = erl_try (host.penaltybox_has b.name entry)

  -- `RateCounter::increment`
  unfoldable pub increment : RateCounter → Bytes → ℕ → M S ErlError (Unit {0})
  increment c entry delta = erl_try (host.ratecounter_increment c.name entry delta)

  unfoldable pub lookup_rate : RateCounter → Bytes → RateWindow → M S ErlError ℕ
  lookup_rate c entry window =
      erl_try (host.ratecounter_lookup_rate c.name entry (window_number window))

  unfoldable pub lookup_count : RateCounter → Bytes → CounterDuration → M S ErlError ℕ
  lookup_count c entry duration =
      erl_try (host.ratecounter_lookup_count c.name entry (duration_number duration))

  unfoldable pub check_rate : Erl → Bytes → ℕ → RateWindow → ℕ → ℤ → M S ErlError Bool
  check_rate e entry delta window limit ttl = erl_try (
      host.check_rate e.rate_counter.name entry delta (window_number window) limit
        e.penalty_box.name (ttl_seconds ttl))
