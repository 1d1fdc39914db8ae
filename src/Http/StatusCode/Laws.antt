-- ===== src/Http/StatusCode/Laws.antt =====
-- Valid codes and their classes.
use compute_sdk_cpp.Prelude.{ℕ, ◌/◌, ◌≤◌, ◌<◌, ◌≡◌, ◌↔◌, none, some, All, arith, ◌==◌, Option}
use compute_sdk_cpp.Prelude.{Bool-cases, inl, inr, leb, ltb, ◌&&◌}
use compute_sdk_cpp.Prelude.Effects.{ok}
use compute_sdk_cpp.Http.StatusCode.{
  StatusCode, constants, construct, from_code, as_code, is_informational, is_success,
  is_redirection, is_client_error, is_server_error,
}

-- `from_code` never aborts and has no effect. It accepts exactly the codes from 100 to 999, and
-- `as_code` gives the code back.
pub from_code_lem :
    {S : Type 0} (E : Type 0) (code : ℕ) (st : S)
    → (r : Option StatusCode) × (from_code {E = E} code st ≡ ok r st)
      × ((s : StatusCode) → (r ≡ some s) ↔ ((100 ≤ code) × (code < 1000) × (as_code s ≡ code)))
unfolding from_code as_code
from_code_lem E code st = elim (Bool-cases (leb 100 code && ltb code 1000)) [
  | inl valid ↦ (some (record { value = code }), ground arith, λ s. ground arith)
  | inr invalid ↦ (none, ground arith, λ s. ground arith)
]

-- Each class test is a test of the hundreds digit; so no code is in two classes, and every valid
-- code below 600 is in one.
pub classes_lem :
    (s : StatusCode)
    → let class = as_code s / 100 in
      (is_informational s ≡ (class == 1))
      × (is_success s ≡ (class == 2))
      × (is_redirection s ≡ (class == 3))
      × (is_client_error s ≡ (class == 4))
      × (is_server_error s ≡ (class == 5))
unfolding as_code is_informational is_success is_redirection is_client_error is_server_error
classes_lem s = (ground arith, ground arith, ground arith, ground arith, ground arith)

-- The constructor accepts every named constant.
pub constants-valid :
    {S : Type 0} (E : Type 0) (st : S)
    → All (λ s. construct {E = E} (as_code s) st ≡ ok s st) constants
unfolding construct as_code
constants-valid E st = ground arith
