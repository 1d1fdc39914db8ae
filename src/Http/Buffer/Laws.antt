-- ===== src/Http/Buffer/Laws.antt =====
-- Buffered writes reach the host in order.
use compute_sdk_cpp.Prelude.{ℕ, zero, suc, ◌≤◌, ◌<◌, ◌-◌, ◌≡◌, refl, ◌∙◌, ap, true, false}
use compute_sdk_cpp.Prelude.{[], ◌∷◌, ◌++◌, Option, none, some, Bytes, length, take, drop}
use compute_sdk_cpp.Prelude.{take-append-drop, length-drop, append_assoc, append-nil, arith, ltb}
use compute_sdk_cpp.Prelude.{Bool-cases, inl, inr, ◌+◌, ◌⊎◌}
use compute_sdk_cpp.Prelude.Effects.{ok, M, or_abort_run, and_then-ext}
use compute_sdk_cpp.Http.Buffer.{
  write_loop, overflow, sync, sputc, sputn, after_setp, not_eof, buffer_size,
}

-- A host that takes at least one byte of each write, never more than it is given, and keeps what it
-- takes. `sent` is what it holds.
pub record IsWriter {S Err : Type 0} (write : Bytes → M S Err ℕ) : Type 0 where
  pub sent : S → Bytes
  -- one less than the number of bytes taken
  pub extra : ℕ → Bytes → S → ℕ
  pub after : ℕ → Bytes → S → S
  pub extra_le : (c : ℕ) (cs : Bytes) (s : S) → extra c cs s ≤ length cs
  pub write_lem :
      (c : ℕ) (cs : Bytes) (s : S) → write (c ∷ cs) s ≡ ok (suc (extra c cs s)) (after c cs s)
  pub sent-after :
      (c : ℕ) (cs : Bytes) (s : S) → sent (after c cs s) ≡ sent s ++ c ∷ take (extra c cs s) cs

module _ {S Err : Type 0} (write : Bytes → M S Err ℕ) where
  -- Any two numbers of rounds that are at least the number of bytes give the same run of the loop,
  -- whatever the host answers.
  pub write_loop_enough :
      {E : Type 0} (m n : ℕ) (rest : Bytes) (s : S)
      → length rest ≤ m
      → length rest ≤ n
      → write_loop write {E = E} m rest s ≡ write_loop write n rest s
  unfolding write_loop
  write_loop_enough zero zero rest s h k = refl
  write_loop_enough zero (suc n) [] s h k = refl
  write_loop_enough zero (suc n) (c ∷ cs) s h k = absurd (omega arith)
  write_loop_enough (suc m) zero [] s h k = refl
  write_loop_enough (suc m) zero (c ∷ cs) s h k = absurd (omega arith)
  write_loop_enough (suc m) (suc n) [] s h k = refl
  write_loop_enough {E} (suc m) (suc n) (c ∷ cs) s h k =
      and_then-ext (or_abort_run (write (c ∷ cs) s)) (elim [
        | zero ↦ λ s'. refl
        | suc w ↦ λ s'.
            let d : length (drop w cs) ≡ length cs - w = length-drop w cs in
            write_loop_enough {E = E} m n (drop w cs) s' (omega arith) (omega arith)
      ])

module _ {S Err : Type 0} (write : Bytes → M S Err ℕ) (W : IsWriter write) where
  write_loop_sent :
      {E : Type 0} (fuel : ℕ) (rest : Bytes) (s : S)
      → length rest ≤ fuel
      → (s' : S) × (write_loop write {E = E} fuel rest s ≡ ok true s')
        × (W.sent s' ≡ W.sent s ++ rest)
  unfolding write_loop
  write_loop_sent zero [] s h = (s, refl, rw append-nil refl)
  write_loop_sent (suc f) [] s h = (s, refl, rw append-nil refl)
  write_loop_sent zero (c ∷ cs) s h = absurd (omega arith)
  write_loop_sent {E} (suc f) (c ∷ cs) s h =
      let n = W.extra c cs s in
      let (s', e, q) =
        write_loop_sent {E = E} f (drop n cs) (W.after c cs s) (omega (arith, length-drop n cs)) in
      (
        s',
        rw (W.write_lem c cs s) e,
        q
            ∙ rw (W.sent-after c cs s, append_assoc)
                (ap (λ t. W.sent s ++ c ∷ t) (take-append-drop n cs)),
      )

  -- `overflow` hands over all that was pending and keeps the new character.
  pub overflow_sent :
      {E : Type 0} (val : Option ℕ) (pending : Bytes) (s : S)
      → (s' : S) × (overflow write {E = E} val pending s ≡ ok (not_eof val, after_setp val) s')
        × (W.sent s' ≡ W.sent s ++ pending)
  unfolding overflow
  overflow_sent {E} val pending s =
      let (s', e, q) = write_loop_sent {E = E} (length pending) pending s (omega arith) in
      (s', rw e refl, q)

  -- Every `sputc` succeeds; what the host holds and what is pending grow by the character.
  pub sputc_sent :
      {E : Type 0} (c : ℕ) (pending : Bytes) (s : S)
      → (s' : S) × (left : Bytes) × (sputc write {E = E} c pending s ≡ ok (some c, left) s')
        × (W.sent s' ++ left ≡ (W.sent s ++ pending) ++ c ∷ [])
  unfolding sputc
  sputc_sent {E} c pending s = elim (Bool-cases (ltb (length pending) buffer_size)) [
    | inl room ↦ (s, pending ++ c ∷ [], rw room refl, rw append_assoc refl)
    | inr full ↦
        let (s', e, q) = overflow_sent {E = E} (some c) pending s in
        (s', c ∷ [], rw full e, rw q refl)
  ]

  pub sputn_sent :
      {E : Type 0} (cs pending : Bytes) (s : S)
      → (s' : S) × (left : Bytes) × (sputn write {E = E} cs pending s ≡ ok (true, left) s')
        × (W.sent s' ++ left ≡ (W.sent s ++ pending) ++ cs)
  unfolding sputn
  sputn_sent [] pending s = (s, pending, refl, rw append-nil refl)
  sputn_sent {E} (c ∷ cs) pending s =
      let (s1, left1, e1, q1) = sputc_sent {E = E} c pending s in
      let (s2, left2, e2, q2) = sputn_sent {E = E} cs left1 s1 in
      (s2, left2, rw e1 e2, q2 ∙ rw (q1, append_assoc) refl)

  -- On a host that takes at least one byte of each write and keeps what it takes in order, writing
  -- any text and then flushing succeeds and leaves nothing pending, and the host holds what it
  -- held, what was pending and the text, in this order, however it cuts the writes.
  pub flush-sputn :
      {E : Type 0} (cs pending : Bytes) (s : S)
      → (s1 s2 : S) × (left : Bytes) × (sputn write {E = E} cs pending s ≡ ok (true, left) s1)
        × (sync write {E = E} left s1 ≡ ok (true, []) s2)
        × (W.sent s2 ≡ (W.sent s ++ pending) ++ cs)
  unfolding sync
  flush-sputn {E} cs pending s =
      let (s1, left, e1, q1) = sputn_sent {E = E} cs pending s in
      let (s2, e2, q2) = overflow_sent {E = E} none left s1 in
      (s1, s2, left, e1, rw e2 refl, q2 ∙ q1)

module _ {S Err : Type 0} (write : Bytes → M S Err ℕ) where
  write_loop_refused :
      {E : Type 0} (fuel : ℕ) (rest : Bytes) (s s' : S)
      → 0 < fuel
      → 0 < length rest
      → write rest s ≡ ok 0 s'
      → write_loop write {E = E} fuel rest s ≡ ok false s'
  unfolding write_loop
  write_loop_refused zero rest s s' h k e = absurd (omega arith)
  write_loop_refused (suc fuel) [] s s' h k e = absurd (omega arith)
  write_loop_refused (suc fuel) (c ∷ cs) s s' h k e = rw e refl

  -- If the host takes a part of what is pending and then takes 0 bytes of the rest, `overflow`
  -- returns `eof` and the whole of it stays pending, the part that was taken included.
  pub overflow_keeps_taken :
      {E : Type 0} (val : Option ℕ) (c : ℕ) (cs : Bytes) (n : ℕ) (s s1 s2 : S)
      → write (c ∷ cs) s ≡ ok (suc n) s1
      → n < length cs
      → write (drop n cs) s1 ≡ ok 0 s2
      → overflow write {E = E} val (c ∷ cs) s ≡ ok (none, c ∷ cs) s2
  unfolding overflow write_loop
  overflow_keeps_taken {E} val c cs n s s1 s2 taken part refused =
      let left : 0 < length (drop n cs) = omega (arith, length-drop n cs) in
      rw
        (taken, write_loop_refused {E = E} (length cs) (drop n cs) s1 s2 (omega arith) left refused)
        refl

-- A host that answers every write of at least one byte, by 0 or more, but never by more than it was
-- given. `calls` counts the writes, and `total` sums up the answers.
pub record AnswersWrites {S Err : Type 0} (write : Bytes → M S Err ℕ) : Type 0 where
  pub calls : S → ℕ
  pub total : S → ℕ
  pub answer : ℕ → Bytes → S → ℕ
  pub after : ℕ → Bytes → S → S
  pub write_lem :
      (c : ℕ) (cs : Bytes) (s : S) → write (c ∷ cs) s ≡ ok (answer c cs s) (after c cs s)
  pub answer_le : (c : ℕ) (cs : Bytes) (s : S) → answer c cs s ≤ suc (length cs)
  pub calls-after : (c : ℕ) (cs : Bytes) (s : S) → calls (after c cs s) ≡ suc (calls s)
  pub total-after : (c : ℕ) (cs : Bytes) (s : S) → total (after c cs s) ≡ total s + answer c cs s

module _ {S Err : Type 0} (write : Bytes → M S Err ℕ) (A : AnswersWrites write) where
  -- How the loop over `rest` ends in `s'`, if it began in `s`.
  LoopEnds : (E : Type 0) → ℕ → Bytes → S → S → Type 0
  LoopEnds E fuel rest s s' =
      ((write_loop write {E = E} fuel rest s ≡ ok true s') × (A.total s' ≡ A.total s + length rest))
      ⊎ ((write_loop write {E = E} fuel rest s ≡ ok false s')
          × (A.total s' < A.total s + length rest))

  -- The rounds that follow a write of at least one byte.
  next_round :
      (E : Type 0) (fuel m c : ℕ) (cs : Bytes) (s s' : S)
      → A.answer c cs s ≡ suc m
      → LoopEnds E fuel (drop m cs) (A.after c cs s) s'
      → LoopEnds E (suc fuel) (c ∷ cs) s s'
  unfolding LoopEnds write_loop
  next_round E fuel m c cs s s' e (inl (run, q)) = inl (
    rw (A.write_lem c cs s, e) run,
    omega (arith, q, e, A.total-after c cs s, A.answer_le c cs s, length-drop m cs),
  )
  next_round E fuel m c cs s s' e (inr (run, q)) = inr (
    rw (A.write_lem c cs s, e) run,
    omega (arith, q, e, A.total-after c cs s, A.answer_le c cs s, length-drop m cs),
  )

  write_loop_returns :
      (E : Type 0) (fuel : ℕ) (rest : Bytes) (s : S)
      → length rest ≤ fuel
      → (s' : S) × (A.calls s' ≤ A.calls s + length rest) × LoopEnds E fuel rest s s'
  unfolding LoopEnds write_loop
  write_loop_returns E fuel [] s h = (s, omega arith, inl (refl, omega arith))
  write_loop_returns E zero (c ∷ cs) s h = absurd (omega arith)
  write_loop_returns E (suc fuel) (c ∷ cs) s h =
      let s1 = A.after c cs s in
      round (A.answer c cs s) refl
        (λ m. write_loop_returns E fuel (drop m cs) s1 (omega (arith, length-drop m cs)))
    where
      round :
          (n : ℕ)
          → A.answer c cs s ≡ n
          → ((m : ℕ)
              → (s' : S) × (A.calls s' ≤ A.calls (A.after c cs s) + length (drop m cs))
                × LoopEnds E fuel (drop m cs) (A.after c cs s) s')
          → (s' : S) × (A.calls s' ≤ A.calls s + length (c ∷ cs))
            × LoopEnds E (suc fuel) (c ∷ cs) s s'
      round zero e next = (
        A.after c cs s,
        omega (arith, A.calls-after c cs s),
        inr (rw (A.write_lem c cs s, e) refl, omega (arith, e, A.total-after c cs s)),
      )
      round (suc m) e next =
          let (s', few, ends) = next m in
          (
            s',
            omega (arith, few, A.calls-after c cs s, length-drop m cs),
            next_round E fuel m c cs s s' e ends,
          )

  -- On a host that answers every write, by 0 or more but never by more than it was given: `overflow`
  -- returns, after at most as many writes as bytes were pending. Either the answers sum up to all
  -- of these and the put area is new, with the character in it, or they sum up to fewer, the result
  -- is `eof` and the put area stays.
  pub overflow_returns :
      (E : Type 0) (val : Option ℕ) (pending : Bytes) (s : S)
      → (s' : S) × (A.calls s' ≤ A.calls s + length pending)
        × (((overflow write {E = E} val pending s ≡ ok (not_eof val, after_setp val) s')
              × (A.total s' ≡ A.total s + length pending))
            ⊎ ((overflow write {E = E} val pending s ≡ ok (none, pending) s')
                × (A.total s' < A.total s + length pending)))
  unfolding overflow LoopEnds
  overflow_returns E val pending s =
      let (s', few, ends) = write_loop_returns E (length pending) pending s (omega arith) in
      (
        s',
        few,
        elim ends [ inl (run, q) ↦ inl (rw run refl, q) | inr (run, q) ↦ inr (rw run refl, q) ],
      )
