-- ===== src/Http/Buffer.antt =====
-- The put area that `Body` and `StreamingBody` of src/cpp/http/body.cpp inherit from
-- `std::streambuf`: the bytes between `pbase` and `pptr`, in an array of 512. Both classes have the
-- same `overflow` and `sync` over their own `write`, which is the section's parameter; the
-- definitions of this file are the bodies of those members. An `int_type` is an `Option`, with
-- `none` for `eof`.
pub mod Laws
use compute_sdk_cpp.Prelude.{
  ℕ, zero, suc, Bool, true, false, List, [], ◌∷◌, ◌++◌, Option, none, some,
}
use compute_sdk_cpp.Prelude.{Bytes, length, drop, ltb, ◌==◌, if◌then◌else◌}
use compute_sdk_cpp.Prelude.Effects.{M, pure, abort_process, ◌>>=◌, or_abort}

abbrev pub buffer_size : ℕ
buffer_size = 512

-- `traits_type::not_eof`
abbrev pub not_eof : Option ℕ → Option ℕ
not_eof none = some 0
not_eof (some c) = some c

-- The put area after `setp` and, unless `val` is `eof`, `sputc(val)`.
abbrev pub after_setp : Option ℕ → Bytes
after_setp none = []
after_setp (some c) = c ∷ []

-- What `overflow` returns and the put area that it leaves.
abbrev pub overflow_result : Option ℕ → Bytes → Bool → Option ℕ × Bytes
overflow_result val pending true = (not_eof val, after_setp val)
overflow_result val pending false = (none, pending)

module _ {S Err : Type 0} (write : Bytes → M S Err ℕ) where
  -- `while (pos < len)`, over the bytes that are left. It says whether the loop ended by its test;
  -- otherwise a write of 0 bytes ended it. A round takes at least one byte, so as many rounds as
  -- there are bytes are enough. The index `pos` is an `int`: it stays below the length of the array as
  -- long as no write answers more than it was given, which is the range that this models; an answer
  -- from 2^31 up would turn it negative, and the next write would read before the array.
  unfoldable pub write_loop : {E : Type 0} → ℕ → Bytes → M S E Bool
  write_loop fuel [] = pure true
  write_loop zero (c ∷ cs) = abort_process
  write_loop (suc fuel) (c ∷ cs) = do
    written ← or_abort (write (c ∷ cs))
    elim written [ zero ↦ pure false | suc n ↦ write_loop fuel (drop n cs) ]

  unfoldable pub overflow : {E : Type 0} → Option ℕ → Bytes → M S E (Option ℕ × Bytes)
  overflow val pending = do
    done ← write_loop (length pending) pending
    pure (overflow_result val pending done)

  -- `true` is the return value 0, `false` is -1.
  unfoldable pub sync : {E : Type 0} → Bytes → M S E (Bool × Bytes)
  unfolding overflow
  sync pending = do
    (result, left) ← overflow none pending
    pure (elim result [ none ↦ false | some _ ↦ true ], left)

  -- `std::streambuf::sputc`
  unfoldable pub sputc : {E : Type 0} → ℕ → Bytes → M S E (Option ℕ × Bytes)
  unfolding overflow
  sputc c pending =
      if ltb (length pending) buffer_size
      then pure (some c, pending ++ c ∷ [])
      else overflow (some c) pending

  -- `std::streambuf::sputn`, which stops at `eof`: whether every byte was taken.
  unfoldable pub sputn : {E : Type 0} → Bytes → Bytes → M S E (Bool × Bytes)
  unfolding sputc
  sputn [] pending = pure (true, pending)
  sputn (c ∷ cs) pending = do
    (result, left) ← sputc c pending
    elim result [ none ↦ pure (false, left) | some _ ↦ sputn cs left ]
