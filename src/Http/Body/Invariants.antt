-- ===== src/Http/Body/Invariants.antt =====
-- What making, writing and reading a body leave alone: any invariant of the state that the host's
-- functions on bodies keep.
use compute_sdk_cpp.Prelude.{
  ℕ, zero, suc, Bool, true, false, Bool-cases, inl, inr, [], ◌∷◌, ◌++◌, Option, none, some, Bytes,
  drop, length, ltb,
}
use compute_sdk_cpp.Prelude.Effects.{M, pure, ◌>>=◌}
use compute_sdk_cpp.Prelude.Outcomes.{
  Within, returned, aborted, Within-and_then, Within-or_abort_run,
}
use compute_sdk_cpp.Host.Bodies.{BodyHost}
use compute_sdk_cpp.Http.Buffer
use compute_sdk_cpp.Http.Body.Read.{
  Body, from_handle, new, refill, underflow, read, sgetc, consume, drain, take_body_string, is_eof,
}
use compute_sdk_cpp.Http.Body.ReadLaws.{body}
use compute_sdk_cpp.Http.Body.Write.{write, overflow, sync, insert_and_flush, from_string}

module _ {S : Type 0} (P : S → Type 0) where
  -- A program that keeps the invariant.
  abbrev pub Keeps : {E A : Type 0} → M S E A → Type 0
  Keeps m = (s : S) → P s → Within P (m s)

module _ {S Err : Type 0} (host : BodyHost S Err) (P : S → Type 0) where
  -- The functions on bodies that keep the invariant; no write is empty.
  pub record KeepsBodies : Type 0 where
    pub new_keeps : (s : S) → P s → P (host.body_new s).1
    pub write_keeps : (h c : ℕ) (cs : Bytes) → Keeps P (host.body_write h (c ∷ cs))
    pub read_keeps : (h n : ℕ) → Keeps P (host.body_read h n)

  module _ (K : KeepsBodies) (E : Type 0) where
    write_loop-Keeps :
        (h fuel : ℕ) (rest : Bytes)
        → Keeps P (Buffer.write_loop (host.body_write h) {E = E} fuel rest)
    unfolding Buffer.write_loop
    write_loop-Keeps h fuel [] s p = returned p
    write_loop-Keeps h zero (c ∷ cs) s p = aborted p
    write_loop-Keeps h (suc fuel) (c ∷ cs) s p =
        Within-and_then (Within-or_abort_run (K.write_keeps h c cs s p)) (elim [
          | zero ↦ λ s1 q. returned q
          | suc n ↦ λ s1 q. write_loop-Keeps h fuel (drop n cs) s1 q
        ])

    overflow-Keeps :
        (h : ℕ) (val : Option ℕ) (pending : Bytes)
        → Keeps P (Buffer.overflow (host.body_write h) {E = E} val pending)
    unfolding Buffer.overflow
    overflow-Keeps h val pending s p =
        Within-and_then (write_loop-Keeps h (length pending) pending s p) λ done s1 q. returned q

    sputc-Keeps :
        (h c : ℕ) (pending : Bytes) → Keeps P (Buffer.sputc (host.body_write h) {E = E} c pending)
    unfolding Buffer.sputc
    sputc-Keeps h c pending s p = elim (Bool-cases (ltb (length pending) Buffer.buffer_size)) [
      | inl fits ↦ rw fits (returned p)
      | inr full ↦ rw full (overflow-Keeps h (some c) pending s p)
    ]

    -- The rest of `sputn` after a character, and of `insert_and_flush` after the text.
    after_sputc-Keeps :
        (result : Option ℕ) (m : M S E (Bool × Bytes)) (left : Bytes)
        → Keeps P m
        → Keeps P {E = E} {A = Bool × Bytes}
            (elim result [ none ↦ pure (false, left) | some _ ↦ m ])
    after_sputc-Keeps none m left h s p = returned p
    after_sputc-Keeps (some _) m left h s p = h s p

    after_sputn-Keeps :
        (taken : Bool) (m : M S E Body) (b : Body)
        → Keeps P m
        → Keeps P {E = E} {A = Body} (elim taken [ false ↦ pure b | true ↦ m ])
    after_sputn-Keeps false m b h s p = returned p
    after_sputn-Keeps true m b h s p = h s p

    sputn-Keeps :
        (h : ℕ) (text pending : Bytes)
        → Keeps P (Buffer.sputn (host.body_write h) {E = E} text pending)
    unfolding Buffer.sputn
    sputn-Keeps h [] pending s p = returned p
    sputn-Keeps h (c ∷ cs) pending s p =
        Within-and_then (sputc-Keeps h c pending s p) λ (result, left).
          after_sputc-Keeps result (Buffer.sputn (host.body_write h) cs left) left
            (sputn-Keeps h cs left)

    sync-Keeps : (b : Body) → Keeps P (sync host {E = E} b)
    unfolding sync overflow write
    sync-Keeps b s p =
        Within-and_then
          (Within-and_then (overflow-Keeps b.bod none b.pending s p) λ r s1 q. returned q)
          λ r s1 q. returned q

    pub from_string-Keeps : (text : Bytes) → Keeps P (from_string host {E = E} text)
    unfolding from_string insert_and_flush new write
    from_string-Keeps text s p =
        let (h, s1) = host.body_new s in
        Within-and_then (sputn-Keeps h text [] s1 (K.new_keeps s p)) λ (taken, left).
          let b : Body = record (from_handle h) { pending = left } in
          after_sputn-Keeps taken (sync host b >>= λ (_, flushed). pure flushed) b
            (λ s2 q. Within-and_then (sync-Keeps b s2 q) λ r s3 q3. returned q3)

    refill-Keeps : (b : Body) (chunk : Bytes) → Keeps P (refill host {E = E} b chunk)
    unfolding refill
    refill-Keeps b [] s p = returned p
    refill-Keeps b (c ∷ cs) s p = returned p

    sgetc-Keeps : (h : ℕ) (p unread : Bytes) → Keeps P (sgetc host {E = E} (body h p unread))
    unfolding sgetc underflow read
    sgetc-Keeps h pending (c ∷ cs) s p = returned p
    sgetc-Keeps h pending [] s p =
        Within-and_then (Within-or_abort_run (K.read_keeps h 512 s p))
          λ chunk s1 q. refill-Keeps (body h pending []) chunk s1 q

    consume-Keeps :
        (next : Body → Bytes → M S E (Bytes × Body)) (out : Bytes) (ended : Bool) (b : Body)
        (unread : Bytes)
        → ((b1 : Body) (more : Bytes) → Keeps P (next b1 more))
        → Keeps P (consume host next out ended b unread)
    unfolding consume
    consume-Keeps next out true b unread h s p = returned p
    consume-Keeps next out false b [] h s p = returned p
    consume-Keeps next out false b (x ∷ xs) h s p = h (record b { unread = xs }) (out ++ x ∷ []) s p

    drain-Keeps : (fuel : ℕ) (b : Body) (out : Bytes) → Keeps P (drain host {E = E} fuel b out)
    unfolding drain
    drain-Keeps zero b out s p = aborted p
    drain-Keeps (suc fuel) b out s p =
        Within-and_then (sgetc-Keeps b.bod b.pending b.unread s p) λ (c, b1) s1 q.
          consume-Keeps (drain host fuel) out (is_eof c) b1 b1.unread
            (λ b2 more. drain-Keeps fuel b2 more) s1 q

    pub take_body_string-Keeps :
        (fuel : ℕ) (b : Body) → Keeps P (take_body_string host {E = E} fuel b)
    unfolding take_body_string
    take_body_string-Keeps fuel b s p = drain-Keeps fuel b [] s p
