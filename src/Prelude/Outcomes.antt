-- ===== src/Prelude/Outcomes.antt =====
-- Statements about the value that a run returns, if it returns one.
use compute_sdk_cpp.Prelude.Effects.{Run, ok, err, abort, M, and_then, after_run, or_abort_run}
use mathlib.Core.Path.{◌≡◌}
use native.Mathlib.Omega.{arith}

pub data Yields {S E A : Type 0} (P : A → Type 0) : Run S E A → Type 0 where
  returned : {a : A} {s : S} → P a → Yields P (ok a s)
  failed : {e : E} {s : S} → Yields P (err e s)
  aborted : {s : S} → Yields P (abort s)

pub Yields-and_then :
    {S E A B : Type 0} {P : B → Type 0} {k : A → M S E B} (r : Run S E A)
    → ((a : A) (s : S) → Yields P (k a s))
    → Yields P (and_then r k)
Yields-and_then (ok a s) h = h a s
Yields-and_then (err e s) h = failed
Yields-and_then (abort s) h = aborted

pub Yields-after_run :
    {S E A : Type 0} {P : A → Type 0} (d : S → S) {r : Run S E A}
    → Yields P r
    → Yields P (after_run d r)
Yields-after_run d (returned p) = returned p
Yields-after_run d failed = failed
Yields-after_run d aborted = aborted

-- What a run that is known to return gives.
pub Yields-ok :
    {S E A : Type 0} {P : A → Type 0} {a : A} {s : S} (r : Run S E A)
    → Yields P r
    → r ≡ ok a s
    → P a
Yields-ok {P} {a} (ok b t) (returned p) e = let same : b ≡ a = ground arith in rw same at p
Yields-ok (err x t) p e = absurd (ground arith)
Yields-ok (abort t) p e = absurd (ground arith)

-- A run that ends in a state with `P`, however it ends.
pub data Within {S E A : Type 0} (P : S → Type 0) : Run S E A → Type 0 where
  returned : {a : A} {s : S} → P s → Within P (ok a s)
  failed : {e : E} {s : S} → P s → Within P (err e s)
  aborted : {s : S} → P s → Within P (abort s)

pub Within-and_then :
    {S E A B : Type 0} {P : S → Type 0} {k : A → M S E B} {r : Run S E A}
    → Within P r
    → ((a : A) (s : S) → P s → Within P (k a s))
    → Within P (and_then r k)
Within-and_then (returned p) h = h _ _ p
Within-and_then (failed p) h = failed p
Within-and_then (aborted p) h = aborted p

pub Within-or_abort_run :
    {S E F A : Type 0} {P : S → Type 0} {r : Run S E A}
    → Within P r
    → Within {E = F} P (or_abort_run r)
Within-or_abort_run (returned p) = returned p
Within-or_abort_run (failed p) = aborted p
Within-or_abort_run (aborted p) = aborted p

-- Where a run that is known to return ends.
pub Within-ok :
    {S E A : Type 0} {P : S → Type 0} {a : A} {s : S} (r : Run S E A)
    → Within P r
    → r ≡ ok a s
    → P s
Within-ok {P} {s = s} (ok b t) (returned p) e = let same : t ≡ s = ground arith in rw same at p
Within-ok (err x t) p e = absurd (ground arith)
Within-ok (abort t) p e = absurd (ground arith)
