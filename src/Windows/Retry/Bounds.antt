-- ===== src/Windows/Retry/Bounds.antt =====
-- How often and how long `retry_error_partial_copy` tries.
use Prim.Native.Nat.{min}
use psutil.Prelude.{
  ℕ, zero, suc, ◌+◌, ◌*◌, ◌≡◌, ◌≤◌, ◌<◌, ◌==◌, refl, ◌∙◌, Bool, true, false, List, [], ◌∷◌, Error,
  arith, ap,
}
use psutil.Windows.Errors.{Call, returned, refused, raised}
use psutil.Windows.Retry.{Slept, error_partial_copy, by_attempt, attempts, retry_error_partial_copy}

abbrev pub is_partial : {A : Type 0} → Call A → Bool
is_partial (refused e) = e.winerror == error_partial_copy
is_partial _ = false

-- The delays of `k` sleeps in a row, and their sum.
unfoldable pub delays_from : ℕ → ℕ → List ℕ
delays_from zero delay = []
delays_from (suc k) delay = delay ∷ delays_from k (min (delay * 2) 400)

unfoldable pub sum : List ℕ → ℕ
sum [] = 0
sum (d ∷ ds) = d + sum ds

by_attempt_keeps :
    {A : Type 0} (delay : ℕ) (call : Call A) (next : Slept A)
    → is_partial call ≡ false
    → by_attempt delay call next ≡ (call, [])
by_attempt_keeps delay (returned a) next h = refl
by_attempt_keeps delay (raised x) next h = refl
by_attempt_keeps delay (refused e) next h = rw (h) refl

by_attempt_again :
    {A : Type 0} (delay : ℕ) (call : Call A) (next : Slept A)
    → is_partial call ≡ true
    → by_attempt delay call next ≡ (next.0, delay ∷ next.1)
by_attempt_again delay (returned a) next h = absurd (ground (arith, h))
by_attempt_again delay (raised x) next h = absurd (ground (arith, h))
by_attempt_again delay (refused e) next h = rw (h) refl

attempts_first :
    {A : Type 0} (pid : ℕ) (fun : ℕ → Call A) (k times delay : ℕ)
    → k < times
    → ((i : ℕ) → i < k → is_partial (fun i) ≡ true)
    → is_partial (fun k) ≡ false
    → attempts pid fun times delay ≡ (fun k, delays_from k delay)
unfolding attempts delays_from
attempts_first pid fun k zero delay h p q = absurd (omega arith)
attempts_first pid fun zero (suc times) delay h p q = by_attempt_keeps delay (fun 0) _ q
attempts_first pid fun (suc k) (suc times) delay h p q =
    let next = min (delay * 2) 400 in
    let rest : attempts pid (λ i. fun (suc i)) times next ≡ (fun (suc k), delays_from k next) =
      attempts_first pid (λ i. fun (suc i)) k times next (omega arith)
        (λ i l. p (suc i) (omega arith)) q in
    by_attempt_again delay (fun 0) _ (p 0 (omega arith))
    ∙ ap (λ (s : Slept _). (s.0, delay ∷ s.1)) rest

attempts_give_up :
    {A : Type 0} (pid : ℕ) (fun : ℕ → Call A) (times delay : ℕ)
    → ((i : ℕ) → i < times → is_partial (fun i) ≡ true)
    → attempts pid fun times delay ≡ (raised (Error.access_denied pid), delays_from times delay)
unfolding attempts delays_from
attempts_give_up pid fun zero delay p = refl
attempts_give_up pid fun (suc times) delay p =
    let next = min (delay * 2) 400 in
    by_attempt_again delay (fun 0) _ (p 0 (omega arith))
    ∙ ap (λ (s : Slept _). (s.0, delay ∷ s.1))
        (attempts_give_up pid (λ i. fun (suc i)) times next (λ i l. p (suc i) (omega arith)))

-- If attempt `k`, counted from 0, is the first that does not fail with ERROR_PARTIAL_COPY, and `k` is less
-- than 33, the wrapper comes to what that attempt came to, after `k` sleeps that double up to a limit.
pub retry_error_partial_copy_first :
    {A : Type 0} (pid : ℕ) (fun : ℕ → Call A) (k : ℕ)
    → k < 33
    → ((i : ℕ) → i < k → is_partial (fun i) ≡ true)
    → is_partial (fun k) ≡ false
    → retry_error_partial_copy pid fun ≡ (fun k, delays_from k 1)
unfolding retry_error_partial_copy
retry_error_partial_copy_first pid fun k h p q = attempts_first pid fun k 33 1 h p q

-- If all of the first 33 attempts fail with ERROR_PARTIAL_COPY, the wrapper raises AccessDenied of the PID
-- after 33 sleeps.
pub retry_error_partial_copy_gives_up :
    {A : Type 0} (pid : ℕ) (fun : ℕ → Call A)
    → ((i : ℕ) → i < 33 → is_partial (fun i) ≡ true)
    → retry_error_partial_copy pid fun ≡ (raised (Error.access_denied pid), delays_from 33 1)
unfolding retry_error_partial_copy
retry_error_partial_copy_gives_up pid fun p = attempts_give_up pid fun 33 1 p

sum-by_attempt :
    {A : Type 0} (delay : ℕ) (call : Call A) (next : Slept A)
    → sum (by_attempt delay call next).1 ≤ delay + sum next.1
unfolding sum
sum-by_attempt delay (returned a) next = omega arith
sum-by_attempt delay (raised x) next = omega arith
sum-by_attempt delay (refused e) next = ground arith

sum-attempts :
    {A : Type 0} (pid : ℕ) (fun : ℕ → Call A) (times delay : ℕ)
    → sum (attempts pid fun times delay).1 ≤ sum (delays_from times delay)
unfolding attempts delays_from sum
sum-attempts pid fun zero delay = omega arith
sum-attempts pid fun (suc times) delay = omega (
  arith,
  sum-by_attempt delay (fun 0) (attempts pid (λ i. fun (suc i)) times (min (delay * 2) 400)),
  sum-attempts pid (λ i. fun (suc i)) times (min (delay * 2) 400),
)

-- Whatever the attempts come to, the wrapper sleeps for at most 1.0111 seconds in all.
pub retry_error_partial_copy_sleeps :
    {A : Type 0} (pid : ℕ) (fun : ℕ → Call A) → sum (retry_error_partial_copy pid fun).1 ≤ 10111
unfolding retry_error_partial_copy delays_from sum
retry_error_partial_copy_sleeps pid fun = sum-attempts pid fun 33 1
