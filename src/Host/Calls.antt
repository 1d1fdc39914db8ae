-- ===== src/Host/Calls.antt =====
-- The shapes of a call over the bridge: the source's out parameters, null boxes and `err` pointers.
use compute_sdk_cpp.Prelude.Int.{ℤ, pos, negsuc}
use compute_sdk_cpp.Prelude.{ℕ, ◌-◌, ◌%◌, ◌^◌, Bool, Option, none, some, ◌⊎◌, if◌then◌else◌}
use compute_sdk_cpp.Prelude.Effects.{M, Run, pure, throw, ok, err, abort, abort_process, ◌>>◌}

-- `return this->box->f();`
abbrev pub read : {S E A : Type 0} → (S → A × S) → M S E A
read call s = let (a, s1) = call s in ok a s1

-- `if (this->box->f(out)) { return {out}; } else { return std::nullopt; }`
abbrev pub optional : {S E A : Type 0} → (S → (Bool × A) × S) → M S E (Option A)
optional call s = let ((has, out), s1) = call s in pure (if has then some out else none) s1

-- The same where the function may also set `err`, which is tested first.
abbrev pub some_if : {A : Type 0} → Bool → A → Option A
some_if has out = if has then some out else none

abbrev pub effect : {S E : Type 0} → (S → S) → M S E (Unit {0})
effect call s = ok tt (call s)

-- `.map([this]() { return std::move(*this); })`
abbrev pub then_this : {S E A : Type 0} → A → M S E (Unit {0}) → M S E A
then_this a set = do set; pure a

-- A value of type `expected`: the error, or the result.
abbrev pub Expected : Type 0 → Type 0 → Type 0
Expected Err A = Err ⊎ A

-- `try_fe!` of src/error.rs, which writes `err` whether the crate succeeds or fails, so that it does not
-- matter what `stale` it held before: the out parameter, if it is set, and `err`.
abbrev pub try_fe :
    {S E Err A : Type 0} → Option Err → Run S Err A → Run S E (Option A × Option Err)
try_fe stale (ok a s) = ok (some a, none) s
try_fe stale (err e s) = ok (none, some e) s
try_fe stale (abort s) = abort s

-- `if (err != nullptr) { return unexpected(err); } else { return out; }`
abbrev pub test_err : {S Err A : Type 0} → Option A × Option Err → M S Err A
test_err (_, some e) = throw e
test_err (some a, none) = pure a
test_err (none, none) = abort_process

-- A signed count that is passed as a `uint32_t`, and as a `uint64_t`.
abbrev pub to_u32 : ℤ → ℕ
to_u32 (pos n) = n % 2 ^ 32
to_u32 (negsuc n) = 2 ^ 32 - 1 - n % 2 ^ 32

abbrev pub to_u64 : ℤ → ℕ
to_u64 (pos n) = n % 2 ^ 64
to_u64 (negsuc n) = 2 ^ 64 - 1 - n % 2 ^ 64
