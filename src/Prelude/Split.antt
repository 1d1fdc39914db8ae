-- ===== src/Prelude/Split.antt =====
-- Cutting a byte string at a delimiter: the inverse by which joins are specified.
use Prim.Native.Nat.{ℕ}
use mathlib.Core.Path.{◌≡◌, refl}
use mathlib.Core.Bool.{Bool, false, ◌||◌}
use mathlib.Core.List.{List, [], ◌∷◌, ◌++◌}
use native.Mathlib.Omega.{arith}
use compute_sdk_cpp.Prelude.Decisions.{◌==◌, if◌then◌else◌}
use compute_sdk_cpp.Prelude.Lists.{Bytes}

abbrev pub contains : ℕ → Bytes → Bool
contains d [] = false
contains d (x ∷ xs) = (x == d) || contains d xs

-- No item holds the delimiter.
abbrev pub NoneHold : ℕ → List Bytes → Type 0
NoneHold d [] = Unit
NoneHold d (x ∷ xs) = (contains d x ≡ false) × NoneHold d xs

abbrev cons_head : ℕ → List Bytes → List Bytes
cons_head x [] = (x ∷ []) ∷ []
cons_head x (p ∷ ps) = (x ∷ p) ∷ ps

-- The pieces between the delimiters: one more than there are delimiters.
unfoldable pub split_on : ℕ → Bytes → List Bytes
split_on d [] = [] ∷ []
split_on d (x ∷ xs) = let rest = split_on d xs in if x == d then [] ∷ rest else cons_head x rest

pub split_on-append :
    (d : ℕ) (x rest : Bytes)
    → contains d x ≡ false
    → split_on d (x ++ d ∷ rest) ≡ x ∷ split_on d rest
unfolding split_on
split_on-append d [] rest h = ground arith
split_on-append d (c ∷ x) rest h = ground (arith, split_on-append d x rest)

pub split_on_last : (d : ℕ) (x : Bytes) → contains d x ≡ false → split_on d x ≡ x ∷ []
unfolding split_on
split_on_last d [] h = refl
split_on_last d (c ∷ x) h = ground (arith, split_on_last d x)
