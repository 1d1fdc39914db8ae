-- ===== src/Http/RustIteratorRange/Laws.antt =====
-- A loop over the range sees what the Rust iterator has.
use compute_sdk_cpp.Prelude.{
  ℕ, zero, suc, ◌<◌, ◌≡◌, refl, true, List, [], ◌∷◌, Option, none, some, length, arith,
}
use compute_sdk_cpp.Prelude.Effects.{ok}
use compute_sdk_cpp.Http.RustIteratorRange.{take_next, increment, begin, for_loop, for_each}

-- What Rust documents of an iterator that is fused: it gives its items in order, and then none.
pub record IsIterator {S A : Type 0} (next : S → Option A × S) : Type 0 where
  pub items : S → List A
  pub after : S → S
  pub next-nil : (s : S) → items s ≡ [] → next s ≡ (none, after s)
  pub next-cons :
      (x : A) (xs : List A) (s : S)
      → items s ≡ x ∷ xs
      → (next s ≡ (some x, after s)) × (items (after s) ≡ xs)

module _ {S A : Type 0} (next : S → Option A × S) (I : IsIterator next) (E : Type 0) where
  -- After an increment from a live iterator, the loop gathers the items that were left.
  increment_loop :
      (fuel : ℕ) (c : Option A) (left : List A) (s : S)
      → I.items s ≡ left
      → length left < fuel
      → let (it, s1) = increment next (record { range = true; cache = c }) s in
        (s' : S) × (for_loop next {E = E} fuel it s1 ≡ ok left s')
  unfolding increment take_next for_loop
  increment_loop zero c left s e h = absurd (omega arith)
  increment_loop (suc fuel) c [] s e h = (I.after s, rw (I.next-nil s e) refl)
  increment_loop (suc fuel) c (x ∷ xs) s e h =
      let (given, rest) = I.next-cons x xs s e in
      let (s', q) = increment_loop fuel (some x) xs (I.after s) rest (omega arith) in
      (s', rw (given, q) refl)

  -- A `for` loop over the range visits exactly the items of the Rust iterator, in order and once
  -- each, and never reads an empty cache, with more rounds than there are items, if that iterator
  -- gives its items in order and then none.
  pub for_each_lem :
      (fuel : ℕ) (s : S)
      → length (I.items s) < fuel
      → (s' : S) × (for_each next {E = E} fuel s ≡ ok (I.items s) s')
  unfolding for_each begin
  for_each_lem fuel s h = increment_loop fuel none (I.items s) s refl h
