-- ===== src/Http/RustIteratorRange/Bridged.antt =====
-- A loop over a range whose Rust iterator answers through a Boolean and out parameters, as those of
-- src/http/header.rs and src/kv_store.rs do.
use compute_sdk_cpp.Prelude.{
  ℕ, ◌<◌, ◌≡◌, refl, ap, List, [], ◌∷◌, map, Option, none, some, length, arith,
}
use compute_sdk_cpp.Prelude.Effects.{ok}
use compute_sdk_cpp.Http.RustIteratorRange.{for_each}
use compute_sdk_cpp.Http.RustIteratorRange.Laws.{for_each_lem}

-- The bridge's `next` writes the items of the crate's iterator in order, and then that there is none.
-- What it leaves in the out parameters then may depend on the state.
pub record WritesItems {S B X : Type 0} (next : S → B × S) (write : Option X → S → B) : Type 0 where
  pub items : S → List X
  pub after : S → S
  pub next-nil : (s : S) → items s ≡ [] → next s ≡ (write none s, after s)
  pub next-cons :
      (x : X) (xs : List X) (s : S)
      → items s ≡ x ∷ xs
      → (next s ≡ (write (some x) s, after s)) × (items (after s) ≡ xs)

length-map : {A B : Type 0} (f : A → B) (xs : List A) → length (map f xs) ≡ length xs
length-map f [] = refl
length-map f (x ∷ xs) = rw (length-map f xs) refl

cons_first : {A : Type 0} {x y : A} {xs ys : List A} → x ∷ xs ≡ y ∷ ys → x ≡ y
cons_first e = ground arith

cons_rest : {A : Type 0} {x y : A} {xs ys : List A} → x ∷ xs ≡ y ∷ ys → xs ≡ ys
cons_rest e = ground arith

-- What the range's `next` makes of the bridge's answer.
abbrev pub decoded : {S B A : Type 0} → (B → Option A) → (S → B × S) → S → Option A × S
decoded decode next s = let (b, s1) = next s in (decode b, s1)

module _ {S B X A : Type 0} (next : S → B × S) (write : Option X → S → B) (decode : B → Option A)
    (f : X → A) (W : WritesItems next write) (ends : (s : S) → decode (write none s) ≡ none)
    (goes_on : (x : X) (s : S) → decode (write (some x) s) ≡ some (f x)) where
  decoded-nil :
      (s : S) (left : List X)
      → W.items s ≡ left
      → map f left ≡ []
      → decoded decode next s ≡ (none, W.after s)
  decoded-nil s [] e none_left = rw (W.next-nil s e, ends s) refl
  decoded-nil s (x ∷ xs) e none_left = cc

  decoded-cons :
      (a : A) (more : List A) (s : S) (left : List X)
      → W.items s ≡ left
      → map f left ≡ a ∷ more
      → (decoded decode next s ≡ (some a, W.after s)) × (map f (W.items (W.after s)) ≡ more)
  decoded-cons a more s [] e split = cc
  decoded-cons a more s (x ∷ xs) e split =
      let (given, rest) = W.next-cons x xs s e in
      (
        rw (given, goes_on x s) (ap (λ z. (some z, W.after s)) (cons_first split)),
        rw rest (cons_rest split),
      )

  pub for_each-decoded :
      (E : Type 0) (fuel : ℕ) (s : S)
      → length (W.items s) < fuel
      → (s' : S) × (for_each (decoded decode next) {E = E} fuel s ≡ ok (map f (W.items s)) s')
  for_each-decoded E fuel s few =
      for_each_lem (decoded decode next)
        (record {
          items = λ s. map f (W.items s);
          after = W.after;
          next-nil = λ s. decoded-nil s (W.items s) refl;
          next-cons = λ a more s. decoded-cons a more s (W.items s) refl;
        })
        E fuel s (rw (length-map f (W.items s)) few)
