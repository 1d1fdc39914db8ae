-- ===== src/Host/Inspection.antt =====
-- The functions behind the boxes of fastly::sys::security, which src/security.rs forwards to the fastly
-- crate. A pointer that is null is `none`. `Err` is a box of `InspectError`.
use compute_sdk_cpp.Prelude.{ℕ, Bool, Bytes, Option, List}
use compute_sdk_cpp.Prelude.Int.{ℤ}
use compute_sdk_cpp.Prelude.Effects.{M}

-- src/lib.rs
pub data InspectVerdict : Type 0 where
  allow : InspectVerdict
  block : InspectVerdict
  unauthorized : InspectVerdict
  other : InspectVerdict

pub record InspectionHost (S Err : Type 0) : Type 0 where
  -- the request, `client_ip`, `corp`, `workspace` and `buffer_size`
  pub security_lookup : ℕ → Option Bytes → Option Bytes → Option Bytes → Option ℕ → M S Err ℕ
  pub status : ℕ → S → ℤ × S
  pub redirect_url : ℕ → S → (Bool × Bytes) × S
  pub tags : ℕ → S → List Bytes × S
  pub verdict : ℕ → S → InspectVerdict × S
  pub unrecognized_verdict_info : ℕ → S → (Bool × Bytes) × S
  pub decision_ms : ℕ → S → ℕ × S
  pub is_redirect : ℕ → S → Bool × S
  pub into_redirect : ℕ → S → (Bool × ℕ) × S
  pub error_code : Err → S → ℕ × S
  pub error_msg : Err → S → Bytes × S
  pub required_buffer_size : Err → S → (Bool × ℕ) × S
