-- ===== src/Process/Children.antt =====
-- psutil/__init__.py: `Process.children`. A `Process` object in the answer is written as its PID.
pub mod Walk
use psutil.Prelude.{
  ℕ, zero, suc, Bool, true, false, Option, none, some, List, [], ◌∷◌, ◌++◌, Result, ok, err, Error,
  Exec, leb, ◌==◌, if◌then◌else◌, ◌>>=◌, elem, length, ◌+◌,
}
use psutil.Prelude.Int.{pos}
use psutil.Platform.{Platform}
use psutil.Process.Defs.{Process, Kernel, World}
use psutil.Process.Identity.{init, create_time}
use psutil.Process.Running.{raise_if_pid_reused}

-- `Process(pid).create_time()`
unfoldable pub probe : Platform → Kernel → ℕ → Result ℕ
probe os k pid = do p ← init os k false (some (pos pid)); (create_time k p).0

-- The `try` block for one child: whether it is not older than the process itself. A child that
-- is gone, or a zombie, is passed over.
unfoldable pub accept : ℕ → Result ℕ → Result Bool
accept ctime (ok t) = ok (leb ctime t)
accept ctime (err (Error.no_such_process _)) = ok false
accept ctime (err (Error.zombie_process _)) = ok false
accept ctime (err e) = err e

-- `ppid_map`: the PID of each process with that of its parent.
abbrev pub PpidMap : Type 0
PpidMap = List (ℕ × ℕ)

-- `reverse_ppid_map[pid]`
unfoldable pub kids : PpidMap → ℕ → List ℕ
kids [] pid = []
kids ((child, ppid) ∷ m) pid = let rest = kids m pid in if ppid == pid then child ∷ rest else rest

-- `look` is the answer that `Process(pid).create_time()` gives for each PID when it is asked.
module _ (look : ℕ → Result ℕ) (ctime : ℕ) where
  -- The loop over the direct children.
  unfoldable pub direct : List ℕ → List ℕ → Result (List ℕ)
  unfolding accept
  direct [] ret = ok ret
  direct (child ∷ l) ret = do
    intime ← accept ctime (look child)
    direct l (if intime then ret ++ child ∷ [] else ret)

  -- The inner loop of the recursive case. The top of the stack is the head of the list.
  unfoldable pub push_kids : List ℕ → List ℕ → List ℕ → Result (List ℕ × List ℕ)
  unfolding accept
  push_kids [] ret stack = ok (ret, stack)
  push_kids (child ∷ l) ret stack = do
    intime ← accept ctime (look child)
    push_kids l (if intime then ret ++ child ∷ [] else ret)
        (if intime then child ∷ stack else stack)

  -- `while stack`, on fuel.
  unfoldable pub walk : PpidMap → ℕ → List ℕ → List ℕ → List ℕ → Option (Result (List ℕ))
  unfolding push_kids kids elem
  walk m zero stack seen ret = none
  walk m (suc fuel) [] seen ret = some (ok ret)
  walk m (suc fuel) (pid ∷ stack) seen ret = elim (elem pid seen) [
    | true ↦ walk m fuel stack seen ret
    | false ↦ elim (push_kids (kids m pid) ret stack) [
      | err e ↦ some (err e)
      | ok (ret', stack') ↦ walk m fuel stack' (pid ∷ seen) ret'
    ]
  ]

  -- Each entry of the map is pushed at most once.
  abbrev pub enough : PpidMap → ℕ
  enough m = length m + 2

  unfoldable pub descendants : PpidMap → ℕ → Option (Result (List ℕ))
  unfolding walk
  descendants m pid = walk m (enough m) (pid ∷ []) [] []

abbrev after_check :
    Result (Unit {0}) × World
    → (World → Option (Result (List ℕ)))
    → Option (Result (List ℕ)) × World
after_check (ok u, w) f = (f w, w)
after_check (err e, w) f = (some (err e), w)

abbrev with_ctime : Result ℕ → (ℕ → Option (Result (List ℕ))) → Option (Result (List ℕ))
with_ctime (ok t) f = f t
with_ctime (err e) f = some (err e)

-- The kernel is asked at the check, for the map, for the own creation time, and for each child.
unfoldable pub children :
    Platform
    → Kernel
    → PpidMap
    → Kernel
    → (ℕ → Kernel)
    → Bool
    → World
    → Option (Result (List ℕ)) × World
unfolding probe direct descendants kids
children os k₀ m k₁ at recursive w = after_check (raise_if_pid_reused os k₀ w) λ w'.
    with_ctime (probe os k₁ w'.pid) λ ctime.
      let look = λ (pid : ℕ). probe os (at pid) pid in
      if recursive
      then descendants look ctime m w'.pid
      else some (direct look ctime (kids m w'.pid) [])
