-- ===== src/WaitProcs.antt =====
-- psutil/__init__.py: `wait_procs`. Processes are the numbers by which a set tells them apart, and a
-- set is a list in the order in which it is gone through, which no theorem depends on.
pub mod Passes
pub mod Verdicts
pub mod Ends
use psutil.Prelude.{
  ℕ, zero, suc, ◌+◌, ◌-◌, ◌*◌, Bool, true, false, Option, none, some, List, [], ◌∷◌, ite,
  ℕ_discrete, Result, ok, err, Error, leb, ◌==◌, if◌then◌else◌, length, elem, ◌>>=◌,
}
use psutil.Prelude.Int.{ℤ, pos, negsuc}

-- A timeout in ticks, as a fraction.
pub record Ticks : Type 0 where
  pub num : ℕ
  pub den : ℕ

-- What `proc.wait(timeout)` comes to: a return code, `TimeoutExpired`, or another exception.
pub data Waited : Type 0 where
  returned : Option ℤ → Waited
  expired : Waited
  raised : Error → Waited

-- What the system answers, at each step: a step is one look at one process.
pub record Answers : Type 0 where
  pub wait : ℕ → ℕ → Ticks → Waited
  pub is_running : ℕ → ℕ → Bool
  pub timer : ℕ → ℕ
  -- ticks in a second
  pub hz : ℕ

-- The set `gone`, each process with its `returncode` and in the order of the calls of `callback`, and
-- the step that comes next.
pub record Gone : Type 0 where
  pub procs : List (ℕ × Option ℤ)
  pub step : ℕ

-- `set(procs)`
unfoldable pub set_of : List ℕ → List ℕ
unfolding elem
set_of [] = []
set_of (p ∷ procs) = let rest = set_of procs in if elem p rest then rest else p ∷ rest

abbrev pub pids_of : List (ℕ × Option ℤ) → List ℕ
pids_of [] = []
pids_of ((p, _) ∷ l) = p ∷ pids_of l

-- `alive - gone`
unfoldable pub without : List ℕ → List ℕ → List ℕ
unfolding elem
without [] gone = []
without (p ∷ alive) gone = let rest = without alive gone in if elem p gone then rest else p ∷ rest

-- `returncode is not None or not proc.is_running()`
abbrev pub is_gone : Option ℤ → Bool → Bool
is_gone (some code) running = true
is_gone none true = false
is_gone none false = true

abbrev pub judged : ℕ → Bool → Waited → Gone → Result Gone
judged p running (Waited.raised e) g = err e
judged p running Waited.expired g = ok (record g { step = suc g.step })
judged p running (Waited.returned code) g =
    if is_gone code running
    then ok (record { procs = (p, code) ∷ g.procs; step = suc g.step })
    else ok (record g { step = suc g.step })

-- `check_gone`
unfoldable pub check_gone : Answers → ℕ → Ticks → Gone → Result Gone
check_gone a p timeout g = judged p (a.is_running g.step p) (a.wait g.step p timeout) g

-- `min(left, max_timeout)`, where `left` is whole.
abbrev pub min_ticks : ℕ → Ticks → Ticks
min_ticks left most =
    if leb (left * most.den) most.num then record { num = left; den = 1 } else most

-- `for proc in alive`, of `len(alive)` processes; the answer says whether the time is over.
unfoldable pub pass : Answers → Option ℕ → ℕ → List ℕ → Gone → Result (Bool × Gone)
unfolding check_gone
pass a deadline len [] g = ok (false, g)
pass a none len (p ∷ alive) g = do
  g' ← check_gone a p (record { num = a.hz; den = len }) g
  pass a none len alive g'
pass a (some deadline) len (p ∷ alive) g =
    let rest = pass a (some deadline) len alive in
    if leb deadline (a.timer g.step)
    then ok (true, g)
    else (check_gone a p (min_ticks (deadline - a.timer g.step) (record { num = a.hz; den = len }))
          g
        >>= rest)

-- What the whole comes to; `none` is fuel that ran out.
abbrev pub Outcome : Type 0 → Type 0
Outcome A = Option (Result A)

abbrev pub next_round :
    Result (Bool × Gone) → (Bool → Gone → Outcome (List ℕ × Gone)) → Outcome (List ℕ × Gone)
next_round (ok (over, g)) f = f over g
next_round (err e) f = some (err e)

-- `while alive`; `over` is `timeout is not None and timeout <= 0`.
unfoldable pub rounds : ℕ → Answers → Option ℕ → Bool → List ℕ → Gone → Outcome (List ℕ × Gone)
unfolding pass without
rounds fuel a deadline over [] g = some (ok ([], g))
rounds fuel a deadline true (p ∷ alive) g = some (ok (p ∷ alive, g))
rounds zero a deadline false (p ∷ alive) g = none
rounds (suc fuel) a deadline false (p ∷ alive) g =
    next_round (pass a deadline (length (p ∷ alive)) (p ∷ alive) g)
      (λ over g'. rounds fuel a deadline over (without (p ∷ alive) (pids_of g'.procs)) g')

-- The last attempt.
unfoldable pub last_look : Answers → List ℕ → Gone → Result Gone
unfolding check_gone
last_look a [] g = ok g
last_look a (p ∷ alive) g = do
  g' ← check_gone a p (record { num = 0; den = 1 }) g
  last_look a alive g'

abbrev pub Verdict : Type 0
Verdict = List (ℕ × Option ℤ) × List ℕ

unfoldable pub finish : Answers → List ℕ × Gone → Result Verdict
unfolding last_look without
finish a (alive, g) = do g' ← last_look a alive g; ok (g'.procs, without alive (pids_of g'.procs))

abbrev pub and_finish : Answers → Outcome (List ℕ × Gone) → Outcome Verdict
and_finish a none = none
and_finish a (some (err e)) = some (err e)
and_finish a (some (ok r)) = some (finish a r)

abbrev start : Gone
start = record { procs = []; step = 1 }

-- `callable_` is whether `callback`, if it is given, can be called. `timer 0` is read for the deadline.
unfoldable pub wait_procs : ℕ → Answers → Option ℤ → Bool → List ℕ → Outcome Verdict
unfolding rounds finish set_of
wait_procs fuel a (some (negsuc n)) callable_ procs = some (err Error.value_error)
wait_procs fuel a timeout false procs = some (err Error.type_error)
wait_procs fuel a none true procs = and_finish a (rounds fuel a none false (set_of procs) start)
wait_procs fuel a (some (pos t)) true procs =
    and_finish a (rounds fuel a (some (a.timer 0 + t)) (t == 0) (set_of procs) start)
