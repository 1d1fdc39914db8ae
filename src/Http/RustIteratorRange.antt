-- ===== src/Http/RustIteratorRange.antt =====
-- include/fastly/detail/rust_iterator_range.h: a Rust iterator as a C++ input range. The class's
-- `next` is the parameter; `range_` counts only for whether it is null.
pub mod Laws
pub mod Bridged
use compute_sdk_cpp.Prelude.{
  ℕ, zero, suc, Bool, true, false, ◌==◌, not, List, [], ◌∷◌, Option, none, some,
}
use compute_sdk_cpp.Prelude.Effects.{M, pure, ok, abort, abort_process, ◌>>=◌}

pub record Iterator (A : Type 0) : Type 0 where
  pub range : Bool
  pub cache : Option A

-- `RustIteratorRange::end`
abbrev pub end : {A : Type 0} → Iterator A
end = record { range = false; cache = none }

abbrev same : Bool → Bool → Bool
same true b = b
same false b = not b

-- `iterator::operator==`
unfoldable pub is_equal : {A : Type 0} → Iterator A → Iterator A → Bool
is_equal it other = same it.range other.range

-- The branch of `operator++` on a range, after `next` has returned.
unfoldable pub take_next : {A : Type 0} → Option A → Iterator A → Iterator A
take_next (some val) it = record it { cache = some val }
take_next none it = record it { range = false }

module _ {S A : Type 0} (next : S → Option A × S) where
  -- `iterator::operator++()`
  unfoldable pub increment : Iterator A → S → Iterator A × S
  unfolding take_next
  increment it s = elim it.range [
    | false ↦ (it, s)
    | true ↦ let (val, s1) = next s in (take_next val it, s1)
  ]

  -- `RustIteratorRange::begin`
  unfoldable pub begin : S → Iterator A × S
  unfolding increment
  begin s = increment (record { range = true; cache = none }) s

  -- `iterator::operator++(int)`: the copy from before, and the iterator.
  unfoldable pub increment_after : Iterator A → S → (Iterator A × Iterator A) × S
  unfolding increment
  increment_after it s = let (it1, s1) = increment it s in ((it, it1), s1)

  -- `iterator::operator*`; to read an empty cache is undefined, and aborts here.
  unfoldable pub deref : {E : Type 0} → Iterator A → M S E A
  deref it = elim it.cache [ none ↦ abort_process | some a ↦ pure a ]

  -- `for (auto &&item : range)`, which gathers the items. Out of fuel it aborts.
  unfoldable pub for_loop : {E : Type 0} → ℕ → Iterator A → M S E (List A)
  unfolding is_equal increment deref
  for_loop zero it = abort_process
  for_loop (suc fuel) it = elim (is_equal it end) [
    | true ↦ pure []
    | false ↦ (do
      item ← deref it
      items ← λ s. let (it1, s1) = increment it s in for_loop fuel it1 s1
      pure (item ∷ items))
  ]

  unfoldable pub for_each : {E : Type 0} → ℕ → M S E (List A)
  unfolding begin for_loop
  for_each fuel s = let (it, s1) = begin s in for_loop fuel it s1
