-- ===== src/Http/StreamingBody/Trace.antt =====
-- The life of a `StreamingBody` of src/cpp/http/body.cpp: `put`, `<<`, `std::flush` and moves in any
-- order, and then `finish`.
use compute_sdk_cpp.Prelude.{
  ◌≡◌, refl, ◌∙◌, sym, none, List, [], ◌∷◌, ◌++◌, Bytes, append_assoc, append-nil,
}
use compute_sdk_cpp.Prelude.Effects.{ok, M, pure, ◌>>=◌}
use compute_sdk_cpp.Host.Bodies.{BodyHost}
use compute_sdk_cpp.Http.Buffer
use compute_sdk_cpp.Http.Buffer.Laws.{IsWriter, sputc_sent, sputn_sent, overflow_sent}
use compute_sdk_cpp.Http.Body.Trace.{StreamCall, put, insert, flush, moved, added, added_all}
use compute_sdk_cpp.Http.StreamingBody.{StreamingBody, write, sync, move, finish}
use compute_sdk_cpp.Http.StreamingBody.Laws.{finish-flushes}

module _ {S Err : Type 0} (host : BodyHost S Err) where
  unfoldable pub stream_call : StreamCall → StreamingBody → M S Err StreamingBody
  unfolding write sync move Buffer.sputc Buffer.sputn
  stream_call (put c) b = do
    (_, left) ← Buffer.sputc (write host b) c b.pending
    pure (record b { pending = left })
  stream_call (insert text) b = do
    (_, left) ← Buffer.sputn (write host b) text b.pending
    pure (record b { pending = left })
  stream_call flush b = do (_, b1) ← sync host b; pure b1
  stream_call moved b = move host b

  unfoldable pub stream_and_finish : List StreamCall → StreamingBody → M S Err (Unit {0})
  unfolding stream_call finish
  stream_and_finish [] b = finish host b
  stream_and_finish (call ∷ calls) b = do b1 ← stream_call call b; stream_and_finish calls b1

  stream_call-sent :
      (call : StreamCall) (b : StreamingBody) (W : IsWriter (host.streaming_body_write b.bod))
      (s : S)
      → (left : Bytes) × (s' : S) × (stream_call call b s ≡ ok (record b { pending = left }) s')
        × (W.sent s' ++ left ≡ (W.sent s ++ b.pending) ++ added call)
  unfolding stream_call added sync
  stream_call-sent (put c) b W s =
      let (s', left, e, q) =
        sputc_sent (host.streaming_body_write b.bod) W {E = Err} c b.pending s in
      (left, s', rw e refl, q)
  stream_call-sent (insert text) b W s =
      let (s', left, e, q) =
        sputn_sent (host.streaming_body_write b.bod) W {E = Err} text b.pending s in
      (left, s', rw e refl, q)
  stream_call-sent flush b W s =
      let (s', e, q) =
        overflow_sent (host.streaming_body_write b.bod) W {E = Err} none b.pending s in
      ([], s', rw e refl, simp (append-nil, q))
  stream_call-sent moved b W s =
      let (s', e, q) =
        overflow_sent (host.streaming_body_write b.bod) W {E = Err} none b.pending s in
      ([], s', rw e refl, simp (append-nil, q))

  -- On a host that takes at least one byte of each write and keeps what it takes in order, any
  -- sequence of calls of `put`, `<<`, `std::flush` and moves on a streaming body that then is
  -- finished ends in the host's `finish`, with what that returns, in a state where the body holds what
  -- it held, then what was pending, and then the texts of all calls in their order: nothing that was
  -- written is left behind in the buffer.
  pub stream_and_finish_lem :
      (calls : List StreamCall) (b : StreamingBody) (W : IsWriter (host.streaming_body_write b.bod))
      (s : S)
      → (s1 : S) × (stream_and_finish calls b s ≡ host.streaming_body_finish b.bod s1)
        × (W.sent s1 ≡ (W.sent s ++ b.pending) ++ added_all calls)
  unfolding stream_and_finish added_all
  stream_and_finish_lem [] b W s =
      let (s1, e, q) = finish-flushes host b W s in
      (s1, e, q ∙ sym (append-nil (W.sent s ++ b.pending)))
  stream_and_finish_lem (call ∷ calls) b W s =
      let (left, s1, e1, q1) = stream_call-sent call b W s in
      let (s2, e2, q2) = stream_and_finish_lem calls (record b { pending = left }) W s1 in
      (s2, rw e1 e2, q2 ∙ rw (q1, append_assoc) refl)
