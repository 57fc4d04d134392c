-- ===== src/Windows/Waiting/Ends.antt =====
-- When `wait` ends, and what it returned means.
use psutil.Prelude.{
  ℕ, zero, suc, ◌+◌, ◌≡◌, ◌≢◌, ◌<◌, ◌≤◌, ap, refl, ◌⊎◌, inl, inr, Bool, true, false, Option, none,
  some, arith,
}
use mathlib.Core.Option.{some-injective}
use psutil.Prelude.Int.{ℤ}
use psutil.Windows.Errors.{Codes, Call, returned, refused, raised}
use psutil.Windows.Errors.Handled.{wrap_exceptions-eq-returned}
use psutil.Windows.Waiting.{
  ProcWait, exited, timed_out, abandoned, failed, Look, deadline, is_late, Wait, by_look, poll,
  by_proc_wait, wrapped, wait,
}

-- The first look at which the PID does not exist.
pub record IsGoneAt (looks : ℕ → Look) (n : ℕ) : Type 0 where
  pub gone : (looks n).exists ≡ returned false
  pub before : (i : ℕ) → i < n → (looks i).exists ≡ returned true

by_look_value :
    (pid : ℕ) (code : Option ℤ) (e : Call Bool) (late : Bool) (next : Wait) {r : Option ℤ}
    → by_look pid code e late next ≡ some (returned r)
    → ((e ≡ returned false) × (r ≡ code)) ⊎ ((e ≡ returned true) × (next ≡ some (returned r)))
by_look_value pid code (returned false) late next h = inl (refl, cc)
by_look_value pid code (returned true) true next h = absurd (ground (arith, h))
by_look_value pid code (returned true) false next h = inr (refl, h)
by_look_value pid code (refused e) late next h = absurd (ground (arith, h))
by_look_value pid code (raised x) late next h = absurd (ground (arith, h))

before_suc :
    (looks : ℕ → Look) (n : ℕ)
    → (looks 0).exists ≡ returned true
    → ((i : ℕ) → i < n → (looks (suc i)).exists ≡ returned true)
    → (i : ℕ) → i < suc n
    → (looks i).exists ≡ returned true
before_suc looks n e h zero l = e
before_suc looks n e h (suc i) l = h i (omega arith)

IsGoneAt-suc :
    (looks : ℕ → Look) (n : ℕ)
    → (looks 0).exists ≡ returned true
    → IsGoneAt (λ i. looks (suc i)) n
    → IsGoneAt looks (suc n)
IsGoneAt-suc looks n e h = record { gone = h.gone; before = before_suc looks n e h.before }

poll_value :
    (pid : ℕ) (code : Option ℤ) (stop_at : Option ℕ) (fuel : ℕ) (looks : ℕ → Look) {r : Option ℤ}
    → poll pid code stop_at fuel looks ≡ some (returned r)
    → (r ≡ code) × ((n : ℕ) × IsGoneAt looks n)
unfolding poll
poll_value pid code stop_at zero looks h = absurd (ground (arith, h))
poll_value pid code stop_at (suc fuel) looks h =
    elim (by_look_value pid code ((looks 0).exists) (is_late stop_at (looks 0).now) _ h) [
      | inl k ↦ (k.1, (0, record { gone = k.0; before = λ i l. absurd (omega arith) }))
      | inr k ↦
          let (e, (n, g)) = poll_value pid code stop_at fuel (λ i. looks (suc i)) k.1 in
          (e, (suc n, IsGoneAt-suc looks n k.0 g))
    ]

wrapped-eq-returned :
    (codes : Codes) (pid : ℕ) (w : Wait) {r : Option ℤ}
    → wrapped codes pid w ≡ some (returned r)
    → w ≡ some (returned r)
wrapped-eq-returned codes pid none h = absurd (ground (arith, h))
wrapped-eq-returned codes pid (some call) h =
    ap some (wrap_exceptions-eq-returned codes pid call (some-injective _ _ h))

-- Where the exit code comes from.
abbrev pub IsCode : ProcWait → Option ℤ → Type 0
IsCode (exited code) r = r ≡ code
IsCode abandoned r = r ≡ none
IsCode timed_out r = ⊥
IsCode (failed e) r = ⊥

by_proc_wait_value :
    (pid : ℕ) (stop_at : Option ℕ) (fuel : ℕ) (looks : ℕ → Look) (p : ProcWait) {r : Option ℤ}
    → by_proc_wait pid stop_at fuel looks p ≡ some (returned r)
    → IsCode p r × ((n : ℕ) × IsGoneAt looks n)
by_proc_wait_value pid stop_at fuel looks (exited code) h = poll_value pid code stop_at fuel looks h
by_proc_wait_value pid stop_at fuel looks abandoned h = poll_value pid none stop_at fuel looks h
by_proc_wait_value pid stop_at fuel looks timed_out h = absurd (ground (arith, h))
by_proc_wait_value pid stop_at fuel looks (failed e) h = absurd (ground (arith, h))

-- If wait on Windows returns, `proc_wait` gave the exit code that is returned, or was abandoned and None is
-- returned; and the loop saw that the PID does not exist, after it saw it exist at each look before.
pub wait_value :
    (codes : Codes) (pid : ℕ) (timeout : Option ℕ) (start : ℕ) (p : ProcWait) (looks : ℕ → Look)
    (fuel : ℕ) (r : Option ℤ)
    → wait codes pid timeout start p looks fuel ≡ some (returned r)
    → IsCode p r × ((n : ℕ) × IsGoneAt looks n)
unfolding wait
wait_value codes pid timeout start p looks fuel r h =
    by_proc_wait_value pid (deadline timeout start) fuel looks p (wrapped-eq-returned codes pid _ h)

by_look_ends :
    (pid : ℕ) (code : Option ℤ) (e : Call Bool) (late : Bool) (next : Wait)
    → (late ≡ true) ⊎ (next ≢ none)
    → by_look pid code e late next ≢ none
by_look_ends pid code (returned false) late next h = ground arith
by_look_ends pid code (returned true) true next h = ground arith
by_look_ends pid code (returned true) false next (inl l) = absurd (ground (arith, l))
by_look_ends pid code (returned true) false next (inr h) = h
by_look_ends pid code (refused e) late next h = ground arith
by_look_ends pid code (raised x) late next h = ground arith

poll_ends :
    (pid : ℕ) (code : Option ℤ) (stop_at : Option ℕ) (k : ℕ) (looks : ℕ → Look)
    → is_late stop_at (looks k).now ≡ true
    → poll pid code stop_at (suc k) looks ≢ none
unfolding poll
poll_ends pid code stop_at zero looks h = by_look_ends pid code ((looks 0).exists) _ none (inl h)
poll_ends pid code stop_at (suc k) looks h =
    by_look_ends pid code ((looks 0).exists) _ _
      (inr (poll_ends pid code stop_at k (λ i. looks (suc i)) h))

wrapped_ends : (codes : Codes) (pid : ℕ) (w : Wait) → w ≢ none → wrapped codes pid w ≢ none
wrapped_ends codes pid none h = h
wrapped_ends codes pid (some call) h = ground arith

by_proc_wait_ends :
    (pid : ℕ) (stop_at : Option ℕ) (k : ℕ) (looks : ℕ → Look) (p : ProcWait)
    → is_late stop_at (looks k).now ≡ true
    → by_proc_wait pid stop_at (suc k) looks p ≢ none
by_proc_wait_ends pid stop_at k looks (exited code) h = poll_ends pid code stop_at k looks h
by_proc_wait_ends pid stop_at k looks abandoned h = poll_ends pid none stop_at k looks h
by_proc_wait_ends pid stop_at k looks timed_out h = ground arith
by_proc_wait_ends pid stop_at k looks (failed e) h = ground arith

is_late_lem : (n now : ℕ) → 0 < n → n ≤ now → is_late (some n) now ≡ true
is_late_lem zero now h l = absurd (omega arith)
is_late_lem (suc n) now h l = ground arith

-- A wait on Windows with a deadline has an outcome by the first look at which the timer has passed it,
-- whatever else the system answers, if the deadline is not 0.
pub wait_ends :
    (codes : Codes) (pid timeout start : ℕ) (p : ProcWait) (looks : ℕ → Look) (k : ℕ)
    → 0 < start + timeout
    → start + timeout ≤ (looks k).now
    → wait codes pid (some timeout) start p looks (suc k) ≢ none
unfolding wait
wait_ends codes pid timeout start p looks k h l = wrapped_ends codes pid _ (
    by_proc_wait_ends pid (some (start + timeout)) k looks p
      (is_late_lem (start + timeout) (looks k).now h l))
