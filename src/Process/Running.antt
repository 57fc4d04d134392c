-- ===== src/Process/Running.antt =====
-- psutil/__init__.py: `Process.is_running` and `Process._raise_if_pid_reused`.
pub mod Verdict
use psutil.Prelude.{
  ℕ, Bool, true, false, not, ◌||◌, none, some, List, [], ◌∷◌, ite, ℕ_discrete, Result, ok, err,
  Error, Exec, if◌then◌else◌,
}
use psutil.Prelude.Int.{pos}
use psutil.Platform.{Platform}
use psutil.Process.Defs.{Process, Kernel, World}
use psutil.Process.Identity.{init, eq}

-- `set.add`
unfoldable pub add : ℕ → List ℕ → List ℕ
add n [] = n ∷ []
add n (m ∷ ms) = ite (ℕ_discrete m n) (m ∷ ms) (m ∷ add n ms)

abbrev pub mark_gone : World → World
mark_gone w = record w { self = record w.self { gone = true } }

abbrev pub mark_reused : World → World
mark_reused w = record w {
  self = record w.self { pid_reused = true };
  pids_reused = add w.self.pid w.pids_reused;
}

-- The `try` block, once `Process(self.pid)` has returned `other`. The `NoSuchProcess` that it
-- raises for a reused PID is caught by its own handler, which marks the object as gone too.
compare_with : Process → Exec World Bool
compare_with other w =
    if eq w.self other then (ok true, w) else (ok false, mark_gone (mark_reused w))

-- The handlers, in the order in which they stand.
judge : Result Process → Exec World Bool
unfolding compare_with
judge (ok other) w = compare_with other w
judge (err (Error.zombie_process _)) w = (ok true, w)
judge (err (Error.no_such_process _)) w = (ok false, mark_gone w)
judge (err e) w = (err e, w)

unfoldable pub is_running : Platform → Kernel → Exec World Bool
unfolding judge
is_running os k w =
    if w.gone || w.pid_reused then (ok false, w) else judge (init os k false (some (pos w.pid))) w

abbrev raise_if_set : Bool → Exec World (Unit {0})
raise_if_set true w = (err (Error.no_such_process w.pid), w)
raise_if_set false w = (ok tt, w)

-- `not self.is_running() and self._pid_reused`
abbrev after_check : Result Bool → Exec World (Unit {0})
after_check (ok true) w = (ok tt, w)
after_check (ok false) w = raise_if_set w.pid_reused w
after_check (err e) w = (err e, w)

unfoldable pub raise_if_pid_reused : Platform → Kernel → Exec World (Unit {0})
unfolding is_running
raise_if_pid_reused os k w =
    if w.pid_reused
    then (err (Error.no_such_process w.pid), w)
    else (let (r, w') = is_running os k w in after_check r w')
