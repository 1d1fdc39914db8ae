-- ===== src/Http/Header.antt =====
-- include/fastly/http/header.h: `HeaderValue`, and the `next` functions of the four header ranges. A
-- Rust iterator of the bridge is a parameter: whether there was an item, and the out parameters.
pub mod Laws
use compute_sdk_cpp.Prelude.{
  Bool, true, false, ◌||◌, ltb, Option, none, some, [], ◌∷◌, Bytes, if◌then◌else◌,
}
use compute_sdk_cpp.Prelude.Int.{ℤ, pos, negsuc}
use compute_sdk_cpp.Http.Body.{char_to_int}

pub record HeaderValue : Type 0 where
  pub value : Bytes
  pub is_sensitive : Bool

-- `c < 32 || c > 126`
unfoldable pub is_non_visible : ℤ → Bool
is_non_visible (pos n) = ltb n 32 || ltb 126 n
is_non_visible (negsuc n) = true

-- `std::any_of` over the characters
unfoldable pub any_non_visible : Bytes → Bool
unfolding is_non_visible
any_non_visible [] = false
any_non_visible (c ∷ cs) = is_non_visible (char_to_int c) || any_non_visible cs

unfoldable pub has_non_visible_characters : HeaderValue → Bool
unfolding any_non_visible
has_non_visible_characters v = any_non_visible v.value

unfoldable pub string : HeaderValue → Option Bytes
unfolding has_non_visible_characters
string v = if has_non_visible_characters v then none else some v.value

unfoldable pub bytes : HeaderValue → Bytes
bytes v = v.value

unfoldable pub set_sensitive : Bool → HeaderValue → Bool × HeaderValue
set_sensitive sensitive v = (sensitive, record v { is_sensitive = sensitive })

module _ {S : Type 0} where
  -- `HeaderValuesRange::next`
  unfoldable pub next_value : (S → (Bool × Bytes × Bool) × S) → S → Option HeaderValue × S
  next_value iter s =
      let ((has, value, is_sensitive), s1) = iter s in
      (if has then some (record { value = value; is_sensitive = is_sensitive }) else none, s1)

  -- `HeadersRange::next`
  unfoldable pub next_header :
      (S → (Bool × Bytes × Bytes × Bool) × S) → S → Option (Bytes × HeaderValue) × S
  next_header iter s =
      let ((has, name, value, is_sensitive), s1) = iter s in
      (if has then some (name, record { value = value; is_sensitive = is_sensitive }) else none, s1)

  -- `HeaderNamesRange::next` and `OriginalHeaderNamesRange::next`
  unfoldable pub next_name : (S → (Bool × Bytes) × S) → S → Option Bytes × S
  next_name iter s = let ((has, name), s1) = iter s in (if has then some name else none, s1)
