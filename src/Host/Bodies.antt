-- ===== src/Host/Bodies.antt =====
-- The functions behind `rust::Box<fastly::sys::http::Body>` and `StreamingBody`. src/http/body.rs
-- forwards them to the fastly crate, which is not part of the repository. A box is the number of
-- the body that it owns; `FastlyError` is a parameter.
use compute_sdk_cpp.Prelude.{ℕ, Bytes}
use compute_sdk_cpp.Prelude.Effects.{M}

pub record BodyHost (S Err : Type 0) : Type 0 where
  pub body_new : S → ℕ × S
  pub body_read : ℕ → ℕ → M S Err Bytes
  pub body_write : ℕ → Bytes → M S Err ℕ
  pub body_append : ℕ → ℕ → S → S
  pub body_append_trailer : ℕ → Bytes → Bytes → M S Err (Unit {0})
  -- the destructor of the box
  pub body_drop : ℕ → S → S
  pub streaming_body_write : ℕ → Bytes → M S Err ℕ
  pub streaming_body_append : ℕ → ℕ → S → S
  pub streaming_body_append_trailer : ℕ → Bytes → Bytes → M S Err (Unit {0})
  pub streaming_body_finish : ℕ → M S Err (Unit {0})
