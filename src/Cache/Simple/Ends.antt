-- ===== src/Cache/Simple/Ends.antt =====
-- How many handles are open at the end of a run: the statements and the rules to derive them.
use compute_sdk_cpp.Prelude.{
  ℕ, suc, ◌≡◌, refl, ◌∙◌, if◌then◌else◌, Bool-cases, inl, inr, zero, [], ◌∷◌, drop, Bytes,
}
use compute_sdk_cpp.Prelude.Effects.{
  Run, ok, err, abort, M, and_then, map_error_run, after_run, on_error_run, or_abort_run,
}
use compute_sdk_cpp.Host.{Call, is_ok}
use compute_sdk_cpp.Http.Buffer.{write_loop}
use compute_sdk_cpp.Cache.Core.Handles.{cache_try, require}

module _ {S : Type 0} (live : S → ℕ) where
  -- A call that opens no handle and closes none.
  abbrev pub Keeps : {A : Type 0} → Call S A → Type 0
  Keeps call = (s : S) → live (call s).2 ≡ live s

  -- A call that opens one handle if it succeeds.
  abbrev pub Opens : {A : Type 0} → Call S A → Type 0
  Opens call = (s : S) → live (call s).2 ≡ (if is_ok (call s).0 then suc (live s) else live s)

-- A run that ends with a number of open handles that `P` or, after an error, `Q` allows.
pub data Ends {S E A : Type 0} (live : S → ℕ) (P : A → ℕ → Type 0) (Q : ℕ → Type 0)
    : Run S E A → Type 0 where
  returned : {a : A} {s : S} → P a (live s) → Ends live P Q (ok a s)
  failed : {e : E} {s : S} → Q (live s) → Ends live P Q (err e s)
  aborted : {s : S} → Ends live P Q (abort s)

module _ {S E : Type 0} {live : S → ℕ} where
  pub Ends-and_then :
      {A B : Type 0} {P : A → ℕ → Type 0} {R : B → ℕ → Type 0} {Q : ℕ → Type 0} {r : Run S E A}
      {k : A → M S E B}
      → Ends live P Q r
      → ((a : A) (s : S) → P a (live s) → Ends live R Q (k a s))
      → Ends live R Q (and_then r k)
  Ends-and_then (returned p) h = h _ _ p
  Ends-and_then (failed q) h = failed q
  Ends-and_then aborted h = aborted

  pub Ends-map_error :
      {F A : Type 0} {P : A → ℕ → Type 0} {Q : ℕ → Type 0} (f : E → F) {r : Run S E A}
      → Ends live P Q r
      → Ends live P Q (map_error_run f r)
  Ends-map_error f (returned p) = returned p
  Ends-map_error f (failed q) = failed q
  Ends-map_error f aborted = aborted

  pub Ends-after_run :
      {A : Type 0} {P P' : A → ℕ → Type 0} {Q Q' : ℕ → Type 0} (d : S → S) {r : Run S E A}
      → ((a : A) (s : S) → P a (live s) → P' a (live (d s)))
      → ((s : S) → Q (live s) → Q' (live (d s)))
      → Ends live P Q r
      → Ends live P' Q' (after_run d r)
  Ends-after_run d f g (returned p) = returned (f _ _ p)
  Ends-after_run d f g (failed q) = failed (g _ q)
  Ends-after_run d f g aborted = aborted

  pub Ends-mono :
      {A : Type 0} {P P' : A → ℕ → Type 0} {Q Q' : ℕ → Type 0} {r : Run S E A}
      → ((a : A) (m : ℕ) → P a m → P' a m)
      → ((m : ℕ) → Q m → Q' m)
      → Ends live P Q r
      → Ends live P' Q' r
  Ends-mono f g (returned p) = returned (f _ _ p)
  Ends-mono f g (failed q) = failed (g _ q)
  Ends-mono f g aborted = aborted

module _ {S : Type 0} {live : S → ℕ} {A : Type 0} (call : Call S A) (s : S) where
  pub cache_try-Keeps :
      Keeps live call → Ends live (λ _ m. m ≡ live s) (λ m. m ≡ live s) (cache_try call s)
  unfolding cache_try
  cache_try-Keeps k = elim (Bool-cases (is_ok (call s).0)) [
    | inl good ↦ rw good (returned (k s))
    | inr bad ↦ rw bad (failed (k s))
  ]

  pub cache_try-Opens :
      Opens live call → Ends live (λ _ m. m ≡ suc (live s)) (λ m. m ≡ live s) (cache_try call s)
  unfolding cache_try
  cache_try-Opens k = elim (Bool-cases (is_ok (call s).0)) [
    | inl good ↦ let e : live (call s).2 ≡ suc (live s) = k s ∙ rw good refl in rw good (returned e)
    | inr bad ↦ let e : live (call s).2 ≡ live s = k s ∙ rw bad refl in rw bad (failed e)
  ]

  -- It never fails: it returns or aborts.
  pub require-Keeps :
      {E : Type 0} {Q : ℕ → Type 0}
      → Keeps live call
      → Ends live (λ _ m. m ≡ live s) Q (require {E = E} call s)
  unfolding require
  require-Keeps k = elim (Bool-cases (is_ok (call s).0)) [
    | inl good ↦ rw good (returned (k s))
    | inr bad ↦ rw bad aborted
  ]

module _ {S E : Type 0} {live : S → ℕ} where
  pub Ends-on_error_run :
      {A : Type 0} {P : A → ℕ → Type 0} {Q : ℕ → Type 0} (d : S → S) {r : Run S E A}
      → ((s : S) → live (d s) ≡ live s)
      → Ends live P Q r
      → Ends live P Q (on_error_run d r)
  Ends-on_error_run d f (returned p) = returned p
  Ends-on_error_run {Q} d f (failed {s} q) = failed (rw (f s) q)
  Ends-on_error_run d f aborted = aborted

  pub Ends-or_abort_run :
      {F A : Type 0} {P : A → ℕ → Type 0} {Q R : ℕ → Type 0} {r : Run S E A}
      → Ends live P Q r
      → Ends {E = F} live P R (or_abort_run r)
  Ends-or_abort_run (returned p) = returned p
  Ends-or_abort_run (failed q) = aborted
  Ends-or_abort_run aborted = aborted

-- A run that ends with `n` handles open, whether it returns or fails.
abbrev pub EndsAt : {S E A : Type 0} → (S → ℕ) → ℕ → Run S E A → Type 0
EndsAt live n r = Ends live (λ _ m. m ≡ n) (λ m. m ≡ n) r

pub EndsAt-and_then :
    {S E A B : Type 0} {live : S → ℕ} {n : ℕ} {r : Run S E A} {k : A → M S E B}
    → EndsAt live n r
    → ((a : A) (s : S) → live s ≡ n → EndsAt live n (k a s))
    → EndsAt live n (and_then r k)
EndsAt-and_then = Ends-and_then

-- A program that leaves as many handles open as it finds.
abbrev pub Neutral : {S E A : Type 0} → (S → ℕ) → M S E A → Type 0
Neutral {S} live m = (s : S) → EndsAt live (live s) (m s)

module _ {S : Type 0} (live : S → ℕ) where
  pub Neutral-at :
      {E A : Type 0} (m : M S E A) (n : ℕ) (s : S)
      → Neutral live m
      → live s ≡ n
      → EndsAt live n (m s)
  Neutral-at m n s h e = rw e at (h s)

  pub write_loop-Neutral :
      {Err : Type 0} (E : Type 0) (write : Bytes → M S Err ℕ)
      → ((bytes : Bytes) → Neutral live (write bytes))
      → (fuel : ℕ) (rest : Bytes) → Neutral {E = E} live (write_loop write fuel rest)
  unfolding write_loop
  write_loop-Neutral E write h fuel [] s = returned refl
  write_loop-Neutral E write h zero (c ∷ cs) s = aborted
  write_loop-Neutral E write h (suc fuel) (c ∷ cs) s =
      Ends-and_then (Ends-or_abort_run (h (c ∷ cs) s)) (elim [
        | zero ↦ λ s1 e. returned e
        | suc n ↦ λ s1 e.
            Neutral-at (write_loop write fuel (drop n cs)) (live s) s1
              (write_loop-Neutral E write h fuel (drop n cs)) e
      ])
