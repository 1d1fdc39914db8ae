-- ===== src/Http/Body/Read.antt =====
-- The record `Body` and its input side: `underflow`, `read`, `take_body_string`.
use compute_sdk_cpp.Prelude.{ℕ, zero, suc, ◌-◌, Bool, true, false, [], ◌∷◌, ◌++◌, Bytes, ltb}
use compute_sdk_cpp.Prelude.{if◌then◌else◌}
use compute_sdk_cpp.Prelude.Int.{ℤ, pos, negsuc}
use compute_sdk_cpp.Prelude.Effects.{M, pure, abort_process, ◌>>=◌, or_abort}
use compute_sdk_cpp.Host.Bodies.{BodyHost}

pub record Body : Type 0 where
  pub bod : ℕ
  pub pending : Bytes
  pub unread : Bytes

-- `Body(rust::Box<fastly::sys::http::Body>)` and `Body::from_handle`
abbrev pub from_handle : ℕ → Body
from_handle body_handle = record { bod = body_handle; pending = []; unread = [] }

abbrev pub eof : ℤ
eof = negsuc 0

abbrev pub is_eof : ℤ → Bool
is_eof (negsuc zero) = true
is_eof _ = false

-- `int` of a signed `char`
abbrev pub char_to_int : ℕ → ℤ
char_to_int c = if ltb c 128 then pos c else negsuc (255 - c)

module _ {S Err : Type 0} (host : BodyHost S Err) where
  -- `Body::Body()`
  unfoldable pub new : {E : Type 0} → M S E Body
  new s = let (h, s1) = host.body_new s in pure (from_handle h) s1

  -- `Body::read`
  unfoldable pub read : Body → ℕ → M S Err Bytes
  read b bufsize = host.body_read b.bod bufsize

  -- The get area after `setg`, and `*this->gptr()`.
  unfoldable pub refill : {E : Type 0} → Body → Bytes → M S E (ℤ × Body)
  refill b [] = pure (eof, b)
  refill b (c ∷ cs) = pure (char_to_int c, record b { unread = c ∷ cs })

  unfoldable pub underflow : {E : Type 0} → Body → M S E (ℤ × Body)
  unfolding read refill
  underflow b = elim b.unread [
    | [] ↦ (do chunk ← or_abort (read b 512); refill b chunk)
    | c ∷ _ ↦ pure (char_to_int c, b)
  ]

  -- `std::streambuf::sgetc`
  unfoldable pub sgetc : {E : Type 0} → Body → M S E (ℤ × Body)
  unfolding underflow
  sgetc b = elim b.unread [ [] ↦ underflow b | c ∷ _ ↦ pure (pos c, b) ]

  -- One round of the loop below, once `sgetc` has returned: the get area holds the character.
  unfoldable pub consume :
      {E : Type 0}
      → (Body → Bytes → M S E (Bytes × Body))
      → Bytes
      → Bool
      → Body
      → Bytes
      → M S E (Bytes × Body)
  consume next out true b unread = pure (out, b)
  consume next out false b [] = pure (out, b)
  consume next out false b (x ∷ xs) = next (record b { unread = xs }) (out ++ x ∷ [])

  -- `std::string(std::istreambuf_iterator<char>(this->rdbuf()), std::istreambuf_iterator<char>())`:
  -- the iterators differ until `sgetc` returns `eof`; the character is read once more from the get
  -- area, and `sbumpc` drops it there. Out of fuel it aborts.
  unfoldable pub drain : {E : Type 0} → ℕ → Body → Bytes → M S E (Bytes × Body)
  unfolding sgetc consume
  drain zero b out = abort_process
  drain (suc fuel) b out = do (c, b1) ← sgetc b; consume (drain fuel) out (is_eof c) b1 b1.unread

  unfoldable pub take_body_string : {E : Type 0} → ℕ → Body → M S E (Bytes × Body)
  unfolding drain
  take_body_string fuel b = drain fuel b []
