-- ===== src/Process/Parents.antt =====
-- psutil/__init__.py: `Process.ppid`, `Process.parent` and `Process.parents`, with nothing prefetched.
pub mod Chain
use psutil.Prelude.{
  ℕ, zero, suc, true, false, Option, none, some, List, [], ◌∷◌, Result, ok, err, Error, Exec, leb,
  ◌==◌, if◌then◌else◌, ◌>>=◌,
}
use psutil.Prelude.Int.{pos}
use psutil.Platform.{Platform}
use psutil.Process.Defs.{Process, Kernel, World}
use psutil.Process.Identity.{init, create_time}
use psutil.Process.Running.{raise_if_pid_reused}
use psutil.Process.Children.{probe}

abbrev kept_ppid : Result ℕ → Exec World ℕ
kept_ppid (ok n) w = (ok n, record w { self = record w.self { ppid = some n } })
kept_ppid (err e) w = (err e, w)

-- `self._ppid or self._proc.ppid()`
abbrev or_ask_ppid : Option ℕ → Result ℕ → Exec World ℕ
or_ask_ppid (some (suc n)) answer w = (ok (suc n), w)
or_ask_ppid (some zero) answer w = kept_ppid answer w
or_ask_ppid none answer w = kept_ppid answer w

abbrev ask_ppid : Platform → Result ℕ → Exec World ℕ
ask_ppid Platform.windows answer w = or_ask_ppid w.ppid answer w
ask_ppid _ answer w = (answer, w)

abbrev checked : Platform → Result ℕ → Result (Unit {0}) × World → Result ℕ × World
checked os answer (ok u, w) = ask_ppid os answer w
checked os answer (err e, w) = (err e, w)

-- `ppid`: the kernel of the check, and the answer of `_proc.ppid()`.
unfoldable pub ppid : Platform → Kernel → Result ℕ → Exec World ℕ
unfolding raise_if_pid_reused
ppid os k answer w = checked os answer (raise_if_pid_reused os k w)

-- The `try` block: `Process(ppid)`, if it is not younger.
abbrev if_older : Kernel → ℕ → Process → Result (Option Process)
if_older k t p = do u ← (create_time k p).0; ok (if leb u t then some (create_time k p).1 else none)

-- `except NoSuchProcess`, which also catches its subclass ZombieProcess.
abbrev unless_gone : Result (Option Process) → Result (Option Process)
unless_gone (err (Error.no_such_process _)) = ok none
unless_gone (err (Error.zombie_process _)) = ok none
unless_gone r = r

unfoldable pub older : Platform → Kernel → ℕ → ℕ → Result (Option Process)
unfolding init create_time
older os k t n = unless_gone (init os k false (some (pos n)) >>= if_older k t)

-- What one call of `parent` meets: the kernel at the identity check, the answers of `_proc.ppid()`, the
-- kernels at the question for the process's own creation time and for the parent, and the lowest PID.
pub record Moment : Type 0 where
  pub lowest : ℕ
  pub check : Kernel
  pub ppid_of : ℕ → Result ℕ
  pub own : Kernel
  pub other : Kernel

abbrev of_ppid : Platform → Moment → Result ℕ × World → Result (Option Process) × World
of_ppid os m (ok n, w) = (probe os m.own w.pid >>= (λ t. older os m.other t n), w)
of_ppid os m (err e, w) = (err e, w)

unfoldable pub parent : Platform → Moment → Exec World (Option Process)
unfolding ppid probe older
parent os m w =
    if w.pid == m.lowest then (ok none, w) else of_ppid os m (ppid os m.check (m.ppid_of w.pid) w)

-- The objects that the loop went through as it left them, from the process itself on, the set
-- `_pids_reused`, and whether a call of `parent` raised.
abbrev pub Walked : Type 0
Walked = List Process × List ℕ × Result (Unit {0})

abbrev pub behind : Process → Option Walked → Option Walked
behind p none = none
behind p (some (ps, reused, r)) = some (p ∷ ps, reused, r)

abbrev pub by_parent : (World → Option Walked) → Result (Option Process) × World → Option Walked
by_parent go (ok none, w) = some (w.self ∷ [], w.pids_reused, ok tt)
by_parent go (ok (some p), w) = behind w.self (go (record w { self = p }))
by_parent go (err e, w) = some (w.self ∷ [], w.pids_reused, err e)

-- `while proc is not None`, on fuel; `at` is what the call of each round meets.
unfoldable pub ancestors : Platform → (ℕ → Moment) → ℕ → ℕ → World → Option Walked
unfolding parent
ancestors os at zero i w = none
ancestors os at (suc fuel) i w =
    by_parent (λ w'. ancestors os at fuel (suc i) w') (parent os (at i) w)

abbrev pub rest_of : List Process → List Process
rest_of [] = []
rest_of (p ∷ ps) = ps

abbrev list_or_raise : Walked → Result (List Process)
list_or_raise (ps, reused, ok u) = ok (rest_of ps)
list_or_raise (ps, reused, err e) = err e

abbrev answer_of : Option Walked → Option (Result (List Process))
answer_of none = none
answer_of (some r) = some (list_or_raise r)

unfoldable pub parents : Platform → (ℕ → Moment) → ℕ → World → Option (Result (List Process))
unfolding ancestors
parents os at fuel w = answer_of (ancestors os at fuel 0 w)
