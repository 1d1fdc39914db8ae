-- ===== src/Prelude/Bits.antt =====
-- A flag that is set above all bits of a small mask adds to it.
use Prim.Native.Nat.{ℕ, zero, suc, ◌+◌, ◌<◌, bit_or}
use mathlib.Core.Path.{◌≡◌, refl}
use mathlib.Core.Bool.{Bool, true, false}
use native.Mathlib.Omega.{arith}
use compute_sdk_cpp.Prelude.Decisions.{◌==◌, if◌then◌else◌}

-- Does the flag `w` add to each of the masks below `bound`?
adds : ℕ → ℕ → Bool
adds w zero = true
adds w (suc m) = let below = adds w m in if bit_or m w == m + w then below else false

adds_at : (w bound m : ℕ) → adds w bound ≡ true → m < bound → bit_or m w ≡ m + w
unfolding adds
adds_at w zero m all h = absurd (omega arith)
adds_at w (suc bound) m all h = ground (arith, adds_at w bound m)

pub bit_or_1 : (m : ℕ) → m < 2 → bit_or m 2 ≡ m + 2
unfolding adds
bit_or_1 = λ m. adds_at 2 2 m refl

pub bit_or_2 : (m : ℕ) → m < 4 → bit_or m 4 ≡ m + 4
unfolding adds
bit_or_2 = λ m. adds_at 4 4 m refl

pub bit_or_3 : (m : ℕ) → m < 8 → bit_or m 8 ≡ m + 8
unfolding adds
bit_or_3 = λ m. adds_at 8 8 m refl

pub bit_or_4 : (m : ℕ) → m < 16 → bit_or m 16 ≡ m + 16
unfolding adds
bit_or_4 = λ m. adds_at 16 16 m refl

pub bit_or_5 : (m : ℕ) → m < 32 → bit_or m 32 ≡ m + 32
unfolding adds
bit_or_5 = λ m. adds_at 32 32 m refl

pub bit_or_6 : (m : ℕ) → m < 64 → bit_or m 64 ≡ m + 64
unfolding adds
bit_or_6 = λ m. adds_at 64 64 m refl

pub bit_or_7 : (m : ℕ) → m < 128 → bit_or m 128 ≡ m + 128
unfolding adds
bit_or_7 = λ m. adds_at 128 128 m refl

pub bit_or_8 : (m : ℕ) → m < 256 → bit_or m 256 ≡ m + 256
unfolding adds
bit_or_8 = λ m. adds_at 256 256 m refl

pub bit_or_9 : (m : ℕ) → m < 512 → bit_or m 512 ≡ m + 512
unfolding adds
bit_or_9 = λ m. adds_at 512 512 m refl

pub bit_or_10 : (m : ℕ) → m < 1024 → bit_or m 1024 ≡ m + 1024
unfolding adds
bit_or_10 = λ m. adds_at 1024 1024 m refl
