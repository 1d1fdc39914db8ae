-- ===== src/Tests/ErlRuns.antt =====
-- A run of the models of src/cpp/erl.cpp.
use compute_sdk_cpp.Prelude.{ℕ, true, false, List, [], ◌∷◌}
use compute_sdk_cpp.Host.{ErlHost, ok_status}
use compute_sdk_cpp.Erl.{PenaltyBox, Erl}

-- A host that notes the lifetimes that it is given.
abbrev noting : ErlHost (List ℕ)
noting = record {
  check_rate = λ _ _ _ _ _ _ ttl s. (ok_status, false, ttl ∷ s);
  ratecounter_increment = λ _ _ _ s. (ok_status, tt, s);
  ratecounter_lookup_rate = λ _ _ _ s. (ok_status, 0, s);
  ratecounter_lookup_count = λ _ _ _ s. (ok_status, 0, s);
  penaltybox_add = λ _ _ ttl s. (ok_status, tt, ttl ∷ s);
  penaltybox_has = λ _ _ s. (ok_status, true, s);
}

abbrev box : PenaltyBox
box = record { name = b'p' ∷ [] }

abbrev limiter : Erl
limiter = record { rate_counter = record { name = b'r' ∷ [] }; penalty_box = box }
