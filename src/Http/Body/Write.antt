-- ===== src/Http/Body/Write.antt =====
-- The output side of `Body`: `write`, `overflow`, `sync`, the constructors that write, and `append`.
use compute_sdk_cpp.Prelude.{ℕ, zero, suc, ◌+◌, Bool, true, false, [], Option, none, some}
use compute_sdk_cpp.Prelude.{Bytes, length, drop}
use compute_sdk_cpp.Prelude.Effects.{M, pure, ok, abort_process, ◌>>=◌, ◌>>◌, or_abort}
use compute_sdk_cpp.Host.Bodies.{BodyHost}
use compute_sdk_cpp.Http.Buffer
use compute_sdk_cpp.Http.Body.Read.{Body, new}

module _ {S Err : Type 0} (host : BodyHost S Err) where
  -- `Body::write`
  unfoldable pub write : Body → Bytes → M S Err ℕ
  write b bytes = host.body_write b.bod bytes

  -- `Body::overflow`
  unfoldable pub overflow : {E : Type 0} → Option ℕ → Body → M S E (Option ℕ × Body)
  unfolding write Buffer.overflow
  overflow val b = do
    (result, left) ← Buffer.overflow (write b) val b.pending
    pure (result, record b { pending = left })

  -- `Body::sync`: `true` is 0, `false` is -1.
  unfoldable pub sync : {E : Type 0} → Body → M S E (Bool × Body)
  unfolding overflow
  sync b = do
    (result, b1) ← overflow none b
    pure (elim result [ none ↦ false | some _ ↦ true ], b1)

  -- `Body::Body(Body &&old)`, which flushes `old` and starts an empty put area.
  unfoldable pub move : {E : Type 0} → Body → M S E Body
  unfolding sync
  move old = do (_, b) ← sync old; pure (record b { pending = [] })

  -- `*this << text << std::flush`, where a failed `<<` leaves a stream that does not flush.
  unfoldable pub insert_and_flush : {E : Type 0} → Bytes → Body → M S E Body
  unfolding write Buffer.sputn sync
  insert_and_flush text b = do
    (taken, left) ← Buffer.sputn (write b) text b.pending
    let b1 : Body = record b { pending = left }
    elim taken [ false ↦ pure b1 | true ↦ (do (_, b2) ← sync b1; pure b2) ]

  -- `Body(std::string)`, `Body(const char *)` and `Body(std::string_view)`
  unfoldable pub from_string : {E : Type 0} → Bytes → M S E Body
  unfolding new insert_and_flush
  from_string text = do b ← new host; insert_and_flush text b

  -- `while (*written)` of `Body::fill_from_vec`, over the bytes from `pos` on. Out of fuel it aborts.
  unfoldable pub fill_loop : Body → ℕ → ℕ → Bytes → M S Err (Unit {0})
  unfolding write
  fill_loop b fuel zero rest = pure tt
  fill_loop b zero (suc w) rest = abort_process
  fill_loop b (suc fuel) (suc w) rest = do
    written ← write b rest
    fill_loop b fuel written (drop written rest)

  -- `Body::fill_from_vec`, which sets `written` to 0 before the loop.
  unfoldable pub fill_from_vec : Body → Bytes → M S Err (Unit {0})
  unfolding fill_loop
  fill_from_vec b vec = fill_loop b (length vec + 2) 0 vec

  -- `Body(std::vector<uint8_t>)`
  unfoldable pub from_vector : {E : Type 0} → Bytes → M S E Body
  unfolding new fill_from_vec
  from_vector body_vec = do b ← new host; or_abort (fill_from_vec b body_vec); pure b

  -- `Body::append`. The argument was moved into `other`; the receiver's put area is not flushed.
  unfoldable pub append : {E : Type 0} → Body → Body → M S E (Unit {0})
  unfolding sync
  append b other = do (_, flushed) ← sync other; λ s. ok tt (host.body_append b.bod flushed.bod s)

  -- `Body::append_trailer`
  unfoldable pub append_trailer : Body → Bytes → Bytes → M S Err (Unit {0})
  append_trailer b name value = host.body_append_trailer b.bod name value
