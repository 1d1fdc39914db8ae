-- ===== src/Http/Body/WriteLaws.antt =====
-- What bodies hold after the constructors, moves and appends.
use compute_sdk_cpp.Prelude.{ℕ, ◌≡◌, refl, ◌∙◌, true, none, [], ◌++◌, Bytes, append-nil}
use compute_sdk_cpp.Prelude.Effects.{ok, ◌>>=◌}
use compute_sdk_cpp.Host.Bodies.{BodyHost}
use compute_sdk_cpp.Http.Buffer
use compute_sdk_cpp.Http.Buffer.Laws.{IsWriter, overflow_sent, sputn_sent}
use compute_sdk_cpp.Http.Body.Read.{Body, from_handle, new}
use compute_sdk_cpp.Http.Body.Write.{sync, move, insert_and_flush, from_string, from_vector, append}

module _ {S Err : Type 0} (host : BodyHost S Err) (E : Type 0) where
  -- `Body(std::vector<uint8_t>)` makes an empty body of every vector: no byte is written.
  pub from_vector-new :
      (body_vec : Bytes) (s : S) → from_vector host {E = E} body_vec s ≡ new host s
  unfolding from_vector new
  from_vector-new body_vec s = refl

  -- `sync` hands all pending bytes to the host and succeeds.
  pub sync_sent :
      (b : Body) (W : IsWriter (host.body_write b.bod)) (s : S)
      → (s' : S) × (sync host {E = E} b s ≡ ok (true, record b { pending = [] }) s')
        × (W.sent s' ≡ W.sent s ++ b.pending)
  unfolding sync
  sync_sent b W s =
      let (s', e, q) = overflow_sent (host.body_write b.bod) W {E = E} none b.pending s in
      (s', rw e refl, q)

  -- On a host that takes at least one byte of each write and keeps what it takes in order, a move
  -- hands all pending bytes to the host, behind what it holds, and keeps the unread ones.
  pub move-flushes :
      (b : Body) (W : IsWriter (host.body_write b.bod)) (s : S)
      → (s' : S) × (move host {E = E} b s ≡ ok (record b { pending = [] }) s')
        × (W.sent s' ≡ W.sent s ++ b.pending)
  unfolding move
  move-flushes b W s = let (s', e, q) = sync_sent b W s in (s', rw e refl, q)

  -- Moving a body that has nothing pending has no effect.
  pub move_clean :
      (h : ℕ) (unread : Bytes) (s : S)
      → let b : Body = record { bod = h; pending = []; unread = unread } in
        move host {E = E} b s ≡ ok b s
  unfolding move Buffer.write_loop
  move_clean h unread s = refl

  -- `*this << text << std::flush` puts what was pending and then the text behind what the host holds.
  pub insert_and_flush-sent :
      (text : Bytes) (b : Body) (W : IsWriter (host.body_write b.bod)) (s : S)
      → (s' : S) × (insert_and_flush host {E = E} text b s ≡ ok (record b { pending = [] }) s')
        × (W.sent s' ≡ (W.sent s ++ b.pending) ++ text)
  unfolding insert_and_flush
  insert_and_flush-sent text b W s =
      let (s1, left, e1, q1) = sputn_sent (host.body_write b.bod) W {E = E} text b.pending s in
      let (s2, e2, q2) = overflow_sent (host.body_write b.bod) W {E = E} none left s1 in
      (s2, rw (e1, e2) refl, q2 ∙ q1)

  -- On a host that takes at least one byte of each write and keeps what it takes in order,
  -- `Body(text)` holds the text behind what a new body holds, and nothing is pending.
  pub from_string-sent :
      (text : Bytes) (s : S)
      → let h = (host.body_new s).0 in
        (W : IsWriter (host.body_write h))
        → (s' : S) × (from_string host {E = E} text s ≡ ok (from_handle h) s')
          × (W.sent s' ≡ W.sent (host.body_new s).1 ++ text)
  unfolding from_string
  from_string-sent text s W =
      let (h, s1) = host.body_new s in
      let (s', e, q) = insert_and_flush-sent text (from_handle h) W s1 in
      (s', e, q ∙ rw append-nil refl)

  -- On a host that takes at least one byte of each write and keeps what it takes in order, a text
  -- that is pending in the receiver when another body is appended ends up behind that body, once
  -- it is flushed.
  pub append-sync :
      (b : Body) (o : ℕ) (unread : Bytes) (W : IsWriter (host.body_write b.bod)) (content : Bytes)
      (s : S)
      → W.sent (host.body_append b.bod o s) ≡ W.sent s ++ content
      → let other : Body = record { bod = o; pending = []; unread = unread } in
        (s' : S) × ((append host {E = E} b other >>= λ _. sync host b) s
          ≡ ok (true, record b { pending = [] }) s')
        × (W.sent s' ≡ (W.sent s ++ content) ++ b.pending)
  unfolding append Buffer.write_loop
  append-sync b o unread W content s law =
      let s1 = host.body_append b.bod o s in
      let (s', e, q) = sync_sent b W s1 in (s', e, q ∙ rw law refl)
