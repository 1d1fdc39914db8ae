-- ===== src/Cache/Core/Abi/Masks.antt =====
-- The masks that `as_abi` computes, as sums of the weights of their bits, and the bits of such sums.
use compute_sdk_cpp.Prelude.{ℕ, ◌+◌, ◌*◌, ◌<◌, ◌≤◌, ◌≡◌, refl, ◌∙◌, Bool, true, false}
use compute_sdk_cpp.Prelude.{bit_or, arith, ◌==◌, if◌then◌else◌}
use compute_sdk_cpp.Prelude.Bits.{bit_or_1, bit_or_2, bit_or_3, bit_or_4, bit_or_5}
use compute_sdk_cpp.Prelude.Bits.{bit_or_6, bit_or_7, bit_or_8, bit_or_9, bit_or_10}
use compute_sdk_cpp.Cache.Core.Abi.Decode.{has_bit}

-- `if (set) options_mask |= w;`
unfoldable pub or_if : Bool → ℕ → ℕ → ℕ
or_if set w m = if set then bit_or m w else m

abbrev pub num : Bool → ℕ
num true = 1
num false = 0

num-le : (b : Bool) → num b ≤ 1
num-le true = omega arith
num-le false = omega arith

step :
    (b : Bool) (w : ℕ) {m v : ℕ}
    → ((k : ℕ) → k < w → bit_or k w ≡ k + w)
    → v < w
    → m ≡ v
    → or_if b w m ≡ v + w * num b
unfolding or_if
step true w {m} {v} law h e = rw e (law v h ∙ omega arith)
step false w law h e = e ∙ omega arith

-- The ten flags of the write options, from the bit 1 up.
pub record Flags : Type 0 where
  pub f1 : Bool
  pub f2 : Bool
  pub f3 : Bool
  pub f4 : Bool
  pub f5 : Bool
  pub f6 : Bool
  pub f7 : Bool
  pub f8 : Bool
  pub f9 : Bool
  pub f10 : Bool

abbrev pub or_low : Flags → ℕ
or_low f = or_if f.f5 32 (or_if f.f4 16 (or_if f.f3 8 (or_if f.f2 4 (or_if f.f1 2 0))))

abbrev pub or_all : Flags → ℕ
or_all f =
    or_if f.f10 1024 (or_if f.f9 512 (or_if f.f8 256 (or_if f.f7 128 (or_if f.f6 64 (or_low f)))))

abbrev pub sum_low : Flags → ℕ
sum_low f = 2 * num f.f1 + 4 * num f.f2 + 8 * num f.f3 + 16 * num f.f4 + 32 * num f.f5

abbrev pub sum_all : Flags → ℕ
sum_all f =
    sum_low f + 64 * num f.f6 + 128 * num f.f7 + 256 * num f.f8 + 512 * num f.f9 + 1024 * num f.f10

module _ (f : Flags) where
  -- No flag changes the bits of another.
  pub or_low-sum : or_low f ≡ sum_low f
  or_low-sum = step f.f5 32 bit_or_5 (omega (arith, num-le)) (
      step f.f4 16 bit_or_4 (omega (arith, num-le)) (
        step f.f3 8 bit_or_3 (omega (arith, num-le)) (
          step f.f2 4 bit_or_2 (omega (arith, num-le))
            (step f.f1 2 bit_or_1 (omega arith) refl ∙ omega arith))))

  pub or_all-sum : or_all f ≡ sum_all f
  or_all-sum = step f.f10 1024 bit_or_10 (omega (arith, num-le)) (
      step f.f9 512 bit_or_9 (omega (arith, num-le)) (
        step f.f8 256 bit_or_8 (omega (arith, num-le)) (
          step f.f7 128 bit_or_7 (omega (arith, num-le))
            (step f.f6 64 bit_or_6 (omega (arith, num-le)) or_low-sum))))

num-eq_one : (b : Bool) (n : ℕ) → n ≡ num b → (n == 1) ≡ b
num-eq_one true n e = rw e
num-eq_one false n e = rw e

-- Every bit of the mask is the flag that it stands for, and the reserved bit is clear.
module _ (f : Flags) where
  pub has_bit_1 : has_bit (or_all f) 2 ≡ f.f1
  has_bit_1 = rw (or_all-sum f) (num-eq_one f.f1 _ (omega (arith, num-le)))

  pub has_bit_2 : has_bit (or_all f) 4 ≡ f.f2
  has_bit_2 = rw (or_all-sum f) (num-eq_one f.f2 _ (omega (arith, num-le)))

  pub has_bit_3 : has_bit (or_all f) 8 ≡ f.f3
  has_bit_3 = rw (or_all-sum f) (num-eq_one f.f3 _ (omega (arith, num-le)))

  pub has_bit_4 : has_bit (or_all f) 16 ≡ f.f4
  has_bit_4 = rw (or_all-sum f) (num-eq_one f.f4 _ (omega (arith, num-le)))

  pub has_bit_5 : has_bit (or_all f) 32 ≡ f.f5
  has_bit_5 = rw (or_all-sum f) (num-eq_one f.f5 _ (omega (arith, num-le)))

  pub has_bit_6 : has_bit (or_all f) 64 ≡ f.f6
  has_bit_6 = rw (or_all-sum f) (num-eq_one f.f6 _ (omega (arith, num-le)))

  pub has_bit_7 : has_bit (or_all f) 128 ≡ f.f7
  has_bit_7 = rw (or_all-sum f) (num-eq_one f.f7 _ (omega (arith, num-le)))

  pub has_bit_8 : has_bit (or_all f) 256 ≡ f.f8
  has_bit_8 = rw (or_all-sum f) (num-eq_one f.f8 _ (omega (arith, num-le)))

  pub has_bit_9 : has_bit (or_all f) 512 ≡ f.f9
  has_bit_9 = rw (or_all-sum f) (num-eq_one f.f9 _ (omega (arith, num-le)))

  pub has_bit_10 : has_bit (or_all f) 1024 ≡ f.f10
  has_bit_10 = rw (or_all-sum f) (num-eq_one f.f10 _ (omega (arith, num-le)))
