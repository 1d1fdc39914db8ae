-- ===== src/Prelude/Effects.antt =====
-- Programs over an explicit state that may return a value, return an error as `tl::expected` does,
-- or abort the process.
use mathlib.Core.Path.{◌≡◌, refl}

pub data Run (S E A : Type 0) : Type 0 where
  ok : A → S → Run S E A
  err : E → S → Run S E A
  abort : S → Run S E A

abbrev pub M : Type 0 → Type 0 → Type 0 → Type 0
M S E A = S → Run S E A

abbrev pub pure : {S E A : Type 0} → A → M S E A
pure a s = ok a s

abbrev pub throw : {S E A : Type 0} → E → M S E A
throw e s = err e s

abbrev pub abort_process : {S E A : Type 0} → M S E A
abort_process s = abort s

module _ {S E A B : Type 0} where
  abbrev pub and_then : Run S E A → (A → M S E B) → Run S E B
  and_then (ok a s) k = k a s
  and_then (err e s) k = err e s
  and_then (abort s) k = abort s

  infixl 5 ◌>>=◌ ◌>>◌
  abbrev pub ◌>>=◌ : M S E A → (A → M S E B) → M S E B
  m >>= k = λ s. and_then (m s) k

  abbrev pub ◌>>◌ : M S E A → M S E B → M S E B
  m >> n = m >>= λ _. n

-- `if (!r.has_value()) return tl::unexpected(f(r.error()));`
abbrev pub map_error_run : {S E F A : Type 0} → (E → F) → Run S E A → Run S F A
map_error_run f (ok a s) = ok a s
map_error_run f (err e s) = err (f e) s
map_error_run f (abort s) = abort s

abbrev pub map_error : {S E F A : Type 0} → (E → F) → M S E A → M S F A
map_error f m = λ s. map_error_run f (m s)

-- A destructor that runs when the scope is left by a return, with a value or with an error.
abbrev pub after_run : {S E A : Type 0} → (S → S) → Run S E A → Run S E A
after_run d (ok a s) = ok a (d s)
after_run d (err e s) = err e (d s)
after_run d (abort s) = abort s

abbrev pub scoped : {S E A : Type 0} → (S → S) → M S E A → M S E A
scoped d m = λ s. after_run d (m s)

-- `.or_else([](auto err) { std::abort(); }).value()`
abbrev pub or_abort_run : {S E F A : Type 0} → Run S E A → Run S F A
or_abort_run (ok a s) = ok a s
or_abort_run (err e s) = abort s
or_abort_run (abort s) = abort s

abbrev pub or_abort : {S E F A : Type 0} → M S E A → M S F A
or_abort m = λ s. or_abort_run (m s)

pub and_then-ext :
    {S E A B : Type 0} {k l : A → M S E B} (r : Run S E A)
    → ((a : A) (s : S) → k a s ≡ l a s)
    → and_then r k ≡ and_then r l
and_then-ext (ok a s) h = h a s
and_then-ext (err e s) h = refl
and_then-ext (abort s) h = refl

-- A destructor that runs only when the scope is left by an error.
abbrev pub on_error_run : {S E A : Type 0} → (S → S) → Run S E A → Run S E A
on_error_run d (ok a s) = ok a s
on_error_run d (err e s) = err e (d s)
on_error_run d (abort s) = abort s

abbrev pub on_error : {S E A : Type 0} → (S → S) → M S E A → M S E A
on_error d m = λ s. on_error_run d (m s)
