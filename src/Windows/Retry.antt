-- ===== src/Windows/Retry.antt =====
-- psutil/_pswindows.py: `retry_error_partial_copy`. Delays are counted in tenths of a millisecond.
pub mod Bounds
use Prim.Native.Nat.{min}
use psutil.Prelude.{ℕ, zero, suc, ◌*◌, ◌==◌, List, [], ◌∷◌, Error, if◌then◌else◌}
use psutil.Windows.Errors.{WinError, Call, returned, refused, raised}

abbrev pub error_partial_copy : ℕ
error_partial_copy = 299

-- What the wrapper comes to, and the delays that it slept for.
abbrev pub Slept : Type 0 → Type 0
Slept A = Call A × List ℕ

abbrev pub with_sleep : {A : Type 0} → ℕ → Slept A → Slept A
with_sleep delay (call, delays) = (call, delay ∷ delays)

-- The body of the loop at a delay, of what the attempt comes to and of what the next rounds do.
abbrev pub by_attempt : {A : Type 0} → ℕ → Call A → Slept A → Slept A
by_attempt delay (returned a) next = (returned a, [])
by_attempt delay (raised x) next = (raised x, [])
by_attempt delay (refused e) next =
    if e.winerror == error_partial_copy then with_sleep delay next else (refused e, [])

-- `for _ in range(times)`; `fun i` is what the call comes to `i` rounds later.
unfoldable pub attempts : {A : Type 0} → ℕ → (ℕ → Call A) → ℕ → ℕ → Slept A
attempts pid fun zero delay = (raised (Error.access_denied pid), [])
attempts pid fun (suc times) delay =
    by_attempt delay (fun 0) (attempts pid (λ i. fun (suc i)) times (min (delay * 2) 400))

unfoldable pub retry_error_partial_copy : {A : Type 0} → ℕ → (ℕ → Call A) → Slept A
unfolding attempts
retry_error_partial_copy pid fun = attempts pid fun 33 1
