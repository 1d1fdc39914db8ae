-- ===== src/Http/Body/Trace.antt =====
-- The output side of a body, as a sequence of calls: `put`, `<<`, `std::flush`, and moves of the
-- object. To a user it is a list of bytes that grows at its end.
use compute_sdk_cpp.Prelude.{
  ℕ, ◌≡◌, refl, ◌∙◌, sym, List, [], ◌∷◌, ◌++◌, Bytes, append_assoc, append-nil,
}
use compute_sdk_cpp.Prelude.Effects.{ok, M, pure, ◌>>=◌}
use compute_sdk_cpp.Host.Bodies.{BodyHost}
use compute_sdk_cpp.Http.Buffer
use compute_sdk_cpp.Http.Buffer.Laws.{IsWriter, sputc_sent, sputn_sent}
use compute_sdk_cpp.Http.Body.Read.{Body}
use compute_sdk_cpp.Http.Body.Write.{write, sync, move}
use compute_sdk_cpp.Http.Body.WriteLaws.{sync_sent, move-flushes}

pub data StreamCall : Type 0 where
  put : ℕ → StreamCall
  insert : Bytes → StreamCall
  flush moved : StreamCall

-- What a call adds for the user.
unfoldable pub added : StreamCall → Bytes
added (put c) = c ∷ []
added (insert text) = text
added flush = []
added moved = []

unfoldable pub added_all : List StreamCall → Bytes
unfolding added
added_all [] = []
added_all (call ∷ calls) = added call ++ added_all calls

module _ {S Err : Type 0} (host : BodyHost S Err) (E : Type 0) where
  unfoldable pub perform : StreamCall → Body → M S E Body
  unfolding write sync move Buffer.sputc Buffer.sputn
  perform (put c) b = do
    (_, left) ← Buffer.sputc (write host b) c b.pending
    pure (record b { pending = left })
  perform (insert text) b = do
    (_, left) ← Buffer.sputn (write host b) text b.pending
    pure (record b { pending = left })
  perform flush b = do (_, b1) ← sync host b; pure b1
  perform moved b = move host b

  unfoldable pub perform_all : List StreamCall → Body → M S E Body
  unfolding perform
  perform_all [] b = pure b
  perform_all (call ∷ calls) b = do b1 ← perform call b; perform_all calls b1

  -- What the user has written so far: the bytes that the host holds, and those that are pending.
  abbrev pub written : (b : Body) → IsWriter (host.body_write b.bod) → S → Bytes
  written b W s = W.sent s ++ b.pending

  perform-written :
      (call : StreamCall) (b : Body) (W : IsWriter (host.body_write b.bod)) (s : S)
      → (left : Bytes) × (s' : S) × (perform call b s ≡ ok (record b { pending = left }) s')
        × (W.sent s' ++ left ≡ written b W s ++ added call)
  unfolding perform added
  perform-written (put c) b W s =
      let (s', left, e, q) = sputc_sent (host.body_write b.bod) W {E = E} c b.pending s in
      (left, s', rw e refl, q)
  perform-written (insert text) b W s =
      let (s', left, e, q) = sputn_sent (host.body_write b.bod) W {E = E} text b.pending s in
      (left, s', rw e refl, q)
  perform-written flush b W s =
      let (s', e, q) = sync_sent host E b W s in ([], s', rw e refl, simp (append-nil, q))
  perform-written moved b W s =
      let (s', e, q) = move-flushes host E b W s in ([], s', rw e refl, simp (append-nil, q))

  -- On a host that takes at least one byte of each write and keeps what it takes in order, any
  -- sequence of calls of `put`, `<<`, `std::flush` and moves succeeds, and is an append of what was
  -- written: the bytes that the host holds and the pending ones grow by the texts in their order,
  -- whenever the buffer is full and however the host cuts the writes. Nothing else of the body
  -- changes.
  pub perform_all-refines :
      (calls : List StreamCall) (b : Body) (W : IsWriter (host.body_write b.bod)) (s : S)
      → (left : Bytes) × (s' : S) × (perform_all calls b s ≡ ok (record b { pending = left }) s')
        × (W.sent s' ++ left ≡ written b W s ++ added_all calls)
  unfolding perform_all added_all
  perform_all-refines [] b W s = (b.pending, s, refl, sym (append-nil (W.sent s ++ b.pending)))
  perform_all-refines (call ∷ calls) b W s =
      let (left1, s1, e1, q1) = perform-written call b W s in
      let (left, s', e, q) = perform_all-refines calls (record b { pending = left1 }) W s1 in
      (left, s', rw e1 e, q ∙ rw (q1, append_assoc) refl)
