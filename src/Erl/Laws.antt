-- ===== src/Erl/Laws.antt =====
-- The lifetime that the host is given by src/cpp/erl.cpp.
use compute_sdk_cpp.Prelude.{ℕ, ◌≡◌, Bytes}
use compute_sdk_cpp.Prelude.Int.{pos}
use compute_sdk_cpp.Host.{ErlHost}
use compute_sdk_cpp.Erl.{PenaltyBox, Erl, RateWindow, window_number, erl_try, add, check_rate}

module _ {S : Type 0} (host : ErlHost S) (b : PenaltyBox) (e : Erl) (entry : Bytes)
    (delta limit : ℕ) (window : RateWindow) where
  -- What the host is asked to add and to check, with a lifetime in seconds.
  abbrev pub AsksFor : ℕ → ℕ → S → Type 0
  AsksFor minutes seconds s =
      (add host b entry (pos minutes) s ≡ erl_try (host.penaltybox_add b.name entry seconds) s)
      × (check_rate host e entry delta window limit (pos minutes) s
          ≡ erl_try
              (host.check_rate e.rate_counter.name entry delta (window_number window) limit
                e.penalty_box.name seconds)
              s)
