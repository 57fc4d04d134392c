-- ===== src/Process/Parents/Chain.antt =====
-- Whether the walk from parent to parent ends.
use psutil.Prelude.{
  ℕ, zero, suc, ◌≡◌, ◌≢◌, ◌<◌, ◌≤◌, Bool, true, false, Option, none, some, Result, ok, err, Error,
  leb, ◌==◌, if◌then◌else◌, ◌>>=◌, refl, arith, ◌∙◌, Result-cases, inl, inr,
}
use psutil.Prelude.Int.{pos}
use psutil.Platform.{Platform, is_posix}
use psutil.Process.Defs.{Process, Kernel, World}
use psutil.Process.Identity.{init, create_time}
use psutil.Process.Running.{raise_if_pid_reused}
use psutil.Process.Children.{probe}
use psutil.Process.Identity.Birth.{init-IsFresh}
use psutil.Process.Signals.Safety.{requests-raise_if_pid_reused}
use psutil.Process.Parents.{
  Moment, Walked, ppid, ask_ppid, checked, of_ppid, older, if_older, unless_gone, parent, ancestors,
  behind, answer_of, by_parent, parents,
}

behind_some : (p : Process) (o : Option Walked) → o ≢ none → behind p o ≢ none
behind_some p none h = λ e. h refl
behind_some p (some r) h = λ e. cc

-- What a call of `parent` that returned an object found.
pub record Found (os : Platform) (m : Moment) (n : ℕ) (p : Process) : Type 0 where
  pub q : ℕ
  pub t : ℕ
  pub u : ℕ
  pub asked : m.ppid_of n ≡ ok q
  pub own_time : probe os m.own n ≡ ok t
  pub its_time : probe os m.other q ≡ ok u
  pub le : u ≤ t
  pub pid_eq : p.pid ≡ q

le_of_leb : (n m : ℕ) → leb n m ≡ true → n ≤ m
le_of_leb n m h = ground (arith, h)

unless_gone-some :
    (r : Result (Option Process)) (p : Process) → unless_gone r ≡ ok (some p) → r ≡ ok (some p)
unless_gone-some (ok o) p h = h
unless_gone-some (err (Error.no_such_process n)) p h = absurd (ground (arith, h))
unless_gone-some (err (Error.zombie_process n)) p h = absurd (ground (arith, h))
unless_gone-some (err e) p h = h

if_older-some :
    (k : Kernel) (t : ℕ) (o p : Process)
    → if_older k t o ≡ ok (some p)
    → (u : ℕ) × ((create_time k o).0 ≡ ok u) × (u ≤ t) × (p.pid ≡ o.pid)
unfolding create_time
if_older-some k t o p h = elim (Result-cases (create_time k o).0) [
  | inr (x, e) ↦ absurd (ground (arith, h, e))
  | inl (u, e) ↦ (u, e, ground (arith, h, e), ground (arith, h, e))
]

-- What `Process(ppid)` found, if it found a parent.
older-some :
    (os : Platform) (k : Kernel) (t q : ℕ) (p : Process)
    → older os k t q ≡ ok (some p)
    → (u : ℕ) × (probe os k q ≡ ok u) × (u ≤ t) × (p.pid ≡ q)
unfolding older probe
older-some os k t q p h = elim (Result-cases (init os k false (some (pos q)))) [
  | inl (o, e) ↦
      let back = unless_gone-some (init os k false (some (pos q)) >>= if_older k t) p h in
      let (u, f, le, same) = if_older-some k t o p (rw e at back) in
      (u, rw e f, le, same ∙ (init-IsFresh os k q e).pid)
  | inr (x, e) ↦
      let back = unless_gone-some (init os k false (some (pos q)) >>= if_older k t) p h in
      absurd (ground (arith, rw e at back))
]

ask_posix :
    (os : Platform) (a : Result ℕ) (w : World) → is_posix os ≡ true → ask_ppid os a w ≡ (a, w)
ask_posix Platform.windows a w h = absurd (ground (arith, h))
ask_posix os a w h = refl

checked_pid :
    (os : Platform) (a : Result ℕ) (n : ℕ) (r : Result (Unit {0}) × World)
    → is_posix os ≡ true
    → (checked os a r).0 ≡ ok n
    → (a ≡ ok n) × ((checked os a r).1.pid ≡ r.1.pid)
checked_pid os a n (ok u, w) posix h =
    rw (ask_posix os a w posix) (rw (ask_posix os a w posix) at h, refl)
checked_pid os a n (err e, w) posix h = absurd (ground (arith, h))

of_ppid-some :
    (os : Platform) (m : Moment) (r : Result ℕ × World) (p : Process)
    → (of_ppid os m r).0 ≡ ok (some p)
    → (q : ℕ) × (t : ℕ) × (r.0 ≡ ok q)
      × (probe os m.own r.1.pid ≡ ok t)
      × (older os m.other t q ≡ ok (some p))
of_ppid-some os m (ok q, w) p h = elim (Result-cases (probe os m.own w.pid)) [
  | inl (t, e) ↦ (q, t, refl, e, rw e at h)
  | inr (x, e) ↦ absurd (ground (arith, rw e at h))
]
of_ppid-some os m (err e, w) p h = absurd (ground (arith, h))

-- What a call of `parent` that returned an object found.
parent-Found :
    (os : Platform) (m : Moment) (w : World) (p : Process)
    → is_posix os ≡ true
    → (of_ppid os m (ppid os m.check (m.ppid_of w.pid) w)).0 ≡ ok (some p)
    → Found os m w.pid p
unfolding ppid
parent-Found os m w p posix h =
    let (q, t, asked, own, found) = of_ppid-some os m (ppid os m.check (m.ppid_of w.pid) w) p h in
    let (answer, same) =
      checked_pid os (m.ppid_of w.pid) q (raise_if_pid_reused os m.check w) posix asked in
    let (u, its, le, pid) = older-some os m.other t q p found in
    record {
      q = q;
      t = t;
      u = u;
      asked = answer;
      own_time = rw (same, (requests-raise_if_pid_reused os m.check w).1) at own;
      its_time = its;
      le = le;
      pid_eq = pid;
    }

-- `at` is a system in which each parent that is not younger has a lower rank.
abbrev pub Ranked : Platform → (ℕ → Moment) → (ℕ → ℕ) → Type 0
Ranked os at rank =
    (i n q t u : ℕ)
    → (at i).ppid_of n ≡ ok q
    → probe os (at i).own n ≡ ok t
    → probe os (at i).other q ≡ ok u
    → u ≤ t
    → rank q < rank n

by_parent_ends :
    (go : World → Option Walked) (r : Result (Option Process) × World)
    → ((p : Process) (w : World) → r.0 ≡ ok (some p) → go (record w { self = p }) ≢ none)
    → by_parent go r ≢ none
by_parent_ends go (ok none, w) h = λ e. cc
by_parent_ends go (ok (some p), w) h = behind_some w.self (go (record w { self = p })) (h p w refl)
by_parent_ends go (err e, w) h = λ e. cc

else_some :
    (lowest : Bool) (w : World) (r : Result (Option Process) × World) (p : Process)
    → (if lowest then (ok none, w) else r).0 ≡ ok (some p)
    → r.0 ≡ ok (some p)
else_some true w r p h = absurd (ground (arith, h))
else_some false w r p h = h

rank_below :
    (rank : ℕ → ℕ) (n q p fuel : ℕ) → rank q < rank n → p ≡ q → rank n < suc fuel → rank p < fuel
rank_below rank n q p fuel below same enough = rw same (omega arith)

ancestors_total :
    (os : Platform) (at : ℕ → Moment) (rank : ℕ → ℕ) (fuel i : ℕ) (w : World)
    → is_posix os ≡ true
    → Ranked os at rank
    → rank w.pid < fuel
    → ancestors os at fuel i w ≢ none
unfolding ancestors parent
ancestors_total os at rank zero i w posix h enough = absurd (omega arith)
ancestors_total os at rank (suc fuel) i w posix h enough =
    by_parent_ends (λ w'. ancestors os at fuel (suc i) w') (parent os (at i) w)
      λ p w' e.
        let m = at i in
        let found = parent-Found os m w p posix (
          else_some (w.pid == m.lowest) w (of_ppid os m (ppid os m.check (m.ppid_of w.pid) w)) p
            e) in
        ancestors_total os at rank fuel (suc i) (record w' { self = p }) posix h
          (rank_below rank w.pid found.q p.pid fuel
            (h i w.pid found.q found.t found.u found.asked found.own_time found.its_time found.le)
            found.pid_eq enough)

answer_of_total : (o : Option Walked) → o ≢ none → answer_of o ≢ none
answer_of_total none h = λ e. h refl
answer_of_total (some r) h = λ e. cc

-- On POSIX, where each parent that is not younger than its child has a lower rank, however the system
-- changes from one call of parent to the next, parents() ends, with a list or an exception, within as
-- many rounds as the rank of the process and one more.
pub parents_total :
    (os : Platform) (at : ℕ → Moment) (rank : ℕ → ℕ) (w : World)
    → is_posix os ≡ true
    → Ranked os at rank
    → parents os at (suc (rank w.pid)) w ≢ none
unfolding parents
parents_total os at rank w posix h =
    answer_of_total (ancestors os at (suc (rank w.pid)) 0 w)
      (ancestors_total os at rank (suc (rank w.pid)) 0 w posix h (omega arith))
