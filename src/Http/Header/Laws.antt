-- ===== src/Http/Header/Laws.antt =====
-- Which header values are strings.
use compute_sdk_cpp.Prelude.{
  ℕ, ◌≤◌, ◌≡◌, ◌↔◌, refl, ap, false, none, [], ◌∷◌, some, Bytes, All, arith, Bool-cases, inl, inr,
}
use compute_sdk_cpp.Http.Body.{char_to_int}
use compute_sdk_cpp.Http.Header.{
  HeaderValue, is_non_visible, any_non_visible, has_non_visible_characters, string,
}

-- From the blank to the tilde.
abbrev pub IsVisible : ℕ → Type 0
IsVisible c = (32 ≤ c) × (c ≤ 126)

is_non_visible_iff : (c : ℕ) → (is_non_visible (char_to_int c) ≡ false) ↔ IsVisible c
unfolding is_non_visible
is_non_visible_iff c = (λ h. ground arith, λ h. ground arith)

any_non_visible_iff : (cs : Bytes) → (any_non_visible cs ≡ false) ↔ All IsVisible cs
unfolding any_non_visible
any_non_visible_iff [] = (λ h. tt, λ h. refl)
any_non_visible_iff (c ∷ cs) =
    let (f, g) = is_non_visible_iff c in
    let (fs, gs) = any_non_visible_iff cs in (λ h. ground arith, λ h. ground arith)

-- `string` gives a text exactly if every character is from the blank to the tilde, so that no byte
-- from 0x80 up is among them; the text is then the value.
pub string_iff :
    (v : HeaderValue) (text : Bytes)
    → (string v ≡ some text) ↔ ((v.value ≡ text) × All IsVisible v.value)
unfolding string has_non_visible_characters
string_iff v text =
    let (all_visible, none_bad) = any_non_visible_iff v.value in
    elim (Bool-cases (any_non_visible v.value)) [
      | inl bad ↦ (
        λ h. let given : none ≡ some text = rw bad at h in cc,
        λ h. let good : any_non_visible v.value ≡ false = none_bad h.1 in cc,
      )
      | inr good ↦ (
        λ h. let given : some v.value ≡ some text = rw good at h in (cc, all_visible good),
        λ h. rw good (ap some h.0),
      )
    ]
