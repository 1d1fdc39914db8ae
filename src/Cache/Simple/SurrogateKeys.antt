-- ===== src/Cache/Simple/SurrogateKeys.antt =====
-- `f_cache_surrogate_key_for_cache_key` of src/cache.rs. SHA-256 and the name of the POP come from crates
-- and are arguments.
use compute_sdk_cpp.Prelude.{
  ℕ, ◌+◌, ◌/◌, ◌%◌, ◌≡◌, refl, ◌∙◌, ap, ◌==◌, ◌&&◌, Bool, true, false, ltb, [], ◌∷◌, ◌++◌, Bytes,
  if◌then◌else◌, arith,
}
use compute_sdk_cpp.Prelude.Split.{contains}
use compute_sdk_cpp.Host.Purge.{Scope, pop, global}
use compute_sdk_cpp.KvStore.Dictionary.{same_bytes}

-- A digit of `{b:02X}`.
unfoldable pub hex_digit : ℕ → ℕ
hex_digit n = if ltb n 10 then 48 + n else 55 + n

-- The loop that prints each byte by `{b:02X}`.
unfoldable pub hex : Bytes → Bytes
unfolding hex_digit
hex [] = []
hex (b ∷ bytes) = hex_digit (b / 16) ∷ hex_digit (b % 16) ∷ hex bytes

-- What the hash is fed.
abbrev pub hashed : Bytes → Bytes → Scope → Bytes
hashed pop_name key pop = key ++ pop_name
hashed pop_name key global = key

unfoldable pub surrogate_key : (Bytes → Bytes) → Bytes → Bytes → Scope → Bytes
unfolding hex
surrogate_key sha256 pop_name key scope = hex (sha256 (hashed pop_name key scope))

hex_digit_no_space : (n : ℕ) → (hex_digit n == b' ') ≡ false
unfolding hex_digit
hex_digit_no_space n = ground arith

hex_no_space : (bytes : Bytes) → contains b' ' (hex bytes) ≡ false
unfolding hex
hex_no_space [] = refl
hex_no_space (b ∷ bytes) =
    rw (hex_digit_no_space (b / 16), hex_digit_no_space (b % 16)) (hex_no_space bytes)

hex_digit_same : (m n : ℕ) → (hex_digit m == hex_digit n) ≡ (m == n)
unfolding hex_digit
hex_digit_same m n = ground arith

byte_same : (b c : ℕ) → ((b / 16 == c / 16) && (b % 16 == c % 16)) ≡ (b == c)
byte_same b c = ground arith

and_assoc : (a b c : Bool) → (a && (b && c)) ≡ ((a && b) && c)
and_assoc true b c = refl
and_assoc false b c = refl

hex_same : (x y : Bytes) → same_bytes (hex x) (hex y) ≡ same_bytes x y
unfolding hex
hex_same [] [] = refl
hex_same [] (c ∷ y) = refl
hex_same (b ∷ x) [] = refl
hex_same (b ∷ x) (c ∷ y) =
    rw (hex_digit_same (b / 16) (c / 16), hex_digit_same (b % 16) (c % 16), hex_same x y)
      (and_assoc (b / 16 == c / 16) (b % 16 == c % 16) (same_bytes x y)
        ∙ ap (λ a. a && same_bytes x y) (byte_same b c))

module _ (sha256 : Bytes → Bytes) (pop_name : Bytes) where
  pub surrogate_key_no_space :
      (key : Bytes) (scope : Scope)
      → contains b' ' (surrogate_key sha256 pop_name key scope) ≡ false
  unfolding surrogate_key
  surrogate_key_no_space key scope = hex_no_space (sha256 (hashed pop_name key scope))

  -- Two surrogate keys are the same if and only if the hash was fed the same, where the hash has no
  -- collisions.
  pub surrogate_key_same :
      ((x y : Bytes) → same_bytes (sha256 x) (sha256 y) ≡ same_bytes x y)
      → (key k : Bytes) (scope scope1 : Scope)
      → same_bytes
          (surrogate_key sha256 pop_name key scope)
          (surrogate_key sha256 pop_name k scope1)
        ≡ same_bytes (hashed pop_name key scope) (hashed pop_name k scope1)
  unfolding surrogate_key
  surrogate_key_same no_collision key k scope scope1 =
      hex_same (sha256 (hashed pop_name key scope)) (sha256 (hashed pop_name k scope1))
      ∙ no_collision (hashed pop_name key scope) (hashed pop_name k scope1)
