-- ===== src/Tests/Caches.antt =====
-- `oneshot` with two getters, known by numbers.
use psutil.Prelude.{
  ℕ, ◌≡◌, refl, none, some, List, [], ◌∷◌, Result, ok, err, Error, Exec, ℕ_discrete,
}
use psutil.Prelude.Dict.{lookup}
use psutil.Oneshot.{Cache, Caches, call, calls, oneshot}
use psutil.Oneshot.Kept.{call_again, oneshot_fresh}

abbrev between : List (ℕ × Result ℕ)
between = (2, ok 20) ∷ (1, ok 11) ∷ (2, err Error.os_error) ∷ []

abbrev answered : Result ℕ × Cache ℕ ℕ
answered = call ℕ_discrete 1 (ok 10) (some [])

answered_ten : answered.0 ≡ ok 10
unfolding call lookup
answered_ten = refl

call_again_run :
    call ℕ_discrete 1 (ok 99) (calls ℕ_discrete between answered.1)
    ≡ (ok 10, calls ℕ_discrete between answered.1)
call_again_run = call_again ℕ_discrete 1 10 [] (ok 10) (ok 99) between answered_ten

abbrev inactive : Caches ℕ ℕ
inactive = record { front = none; platform = none }

-- A body that asks one getter of each object, and raises what the second one raised.
body : Exec (Caches ℕ ℕ) ℕ
body c =
    let (r, front) = call ℕ_discrete 1 (ok 10) c.front in
    let (r', platform) = call ℕ_discrete 2 (err Error.os_error) c.platform in
    (r', record { front = front; platform = platform })

oneshot_fresh_example :
    (call ℕ_discrete 1 (ok 99) (oneshot body inactive).1.front ≡ (ok 99, none))
    × (call ℕ_discrete 1 (ok 99) (oneshot body inactive).1.platform ≡ (ok 99, none))
oneshot_fresh_example = oneshot_fresh ℕ_discrete body inactive 1 (ok 99) refl
