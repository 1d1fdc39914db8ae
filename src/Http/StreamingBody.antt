-- ===== src/Http/StreamingBody.antt =====
-- `StreamingBody` of include/fastly/http/body.h and src/cpp/http/body.cpp: a body that can only be
-- written, and is finished once.
pub mod Laws
pub mod Trace
use compute_sdk_cpp.Prelude.{ℕ, Bool, true, false, [], Option, none, some, Bytes}
use compute_sdk_cpp.Prelude.Effects.{M, pure, ok, ◌>>=◌}
use compute_sdk_cpp.Host.Bodies.{BodyHost}
use compute_sdk_cpp.Http.Buffer
use compute_sdk_cpp.Http.Body
use compute_sdk_cpp.Http.Body.{Body}

pub record StreamingBody : Type 0 where
  pub bod : ℕ
  pub pending : Bytes

abbrev pub from_body_handle : ℕ → StreamingBody
from_body_handle body_handle = record { bod = body_handle; pending = [] }

module _ {S Err : Type 0} (host : BodyHost S Err) where
  -- `StreamingBody::write`
  unfoldable pub write : StreamingBody → Bytes → M S Err ℕ
  write b bytes = host.streaming_body_write b.bod bytes

  -- `StreamingBody::overflow`
  unfoldable pub overflow :
      {E : Type 0} → Option ℕ → StreamingBody → M S E (Option ℕ × StreamingBody)
  unfolding write Buffer.overflow
  overflow val b = do
    (result, left) ← Buffer.overflow (write b) val b.pending
    pure (result, record b { pending = left })

  -- `StreamingBody::sync`: `true` is 0, `false` is -1.
  unfoldable pub sync : {E : Type 0} → StreamingBody → M S E (Bool × StreamingBody)
  unfolding overflow
  sync b = do
    (result, b1) ← overflow none b
    pure (elim result [ none ↦ false | some _ ↦ true ], b1)

  -- `StreamingBody::StreamingBody(StreamingBody &&other)`
  unfoldable pub move : {E : Type 0} → StreamingBody → M S E StreamingBody
  unfolding sync
  move other = do (_, b) ← sync other; pure (record b { pending = [] })

  -- `StreamingBody::finish`, which ignores what the flush returns.
  unfoldable pub finish : StreamingBody → M S Err (Unit {0})
  unfolding sync
  finish b = do (_, b1) ← sync b; host.streaming_body_finish b1.bod

  -- `StreamingBody::append`. The argument was moved into `other`, which flushed it.
  unfoldable pub append : {E : Type 0} → StreamingBody → Body → M S E (Unit {0})
  append b other s = ok tt (host.streaming_body_append b.bod other.bod s)

  -- `StreamingBody::append_trailer`
  unfoldable pub append_trailer : StreamingBody → Bytes → Bytes → M S Err (Unit {0})
  append_trailer b name value = host.streaming_body_append_trailer b.bod name value
