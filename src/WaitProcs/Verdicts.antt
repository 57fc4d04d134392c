-- ===== src/WaitProcs/Verdicts.antt =====
-- What `wait_procs` answers.
use psutil.Prelude.{
  AllOk, bind-AllOk, ℕ, zero, suc, ◌+◌, ◌≡◌, refl, sym, subst, Bool, true, false, Option, none,
  some, List, [], ◌∷◌, Result, ok, err, arith, elem, length, if◌then◌else◌, ◌==◌,
}
use psutil.Prelude.Int.{ℤ, pos, negsuc}
use psutil.WaitProcs.{
  Answers, Gone, set_of, pids_of, without, pass, rounds, last_look, next_round, finish, and_finish,
  wait_procs, Outcome, Verdict,
}
use psutil.WaitProcs.Passes.{
  NoDup, Apart, AllSeen, Sound, Looked, pass-Looked, last_look-Looked, elem-without, without-NoDup,
  elem-set_of, set_of-NoDup,
}

abbrev AllSome : {A : Type 0} → (A → Type 0) → Outcome A → Type 0
AllSome P none = Unit
AllSome P (some r) = AllOk P r

module _ (a : Answers) (procs : List ℕ) where
  -- `alive` and `gone` share the processes out.
  record Shared (alive : List ℕ) (g : Gone) : Type 0 where
    pub sound : Sound a g
    pub once : NoDup alive
    pub each : (p : ℕ) → elem p procs ≡ (if elem p (pids_of g.procs) then true else elem p alive)
    pub apart : Apart alive (pids_of g.procs)

  Looked-Shared :
      (l : List ℕ) (g g' : Gone)
      → Shared l g
      → Looked a l g g'
      → Shared (without l (pids_of g'.procs)) g'
  Looked-Shared l g g' s h = record {
    sound = h.sound;
    once = without-NoDup l (pids_of g'.procs) s.once;
    each = λ p. ground (arith, s.each p, h.keeps p, h.only p, elem-without p l (pids_of g'.procs));
    apart = λ p e. ground (arith, e, elem-without p l (pids_of g'.procs));
  }

  next_round-AllSome :
      (l : List ℕ) (g : Gone) (f : Bool → Gone → Outcome (List ℕ × Gone)) (r : Result (Bool × Gone))
      → AllOk (λ x. Looked a l g x.1) r
      → ((over : Bool) (g' : Gone) → Looked a l g g' → AllSome (λ x. Shared x.0 x.1) (f over g'))
      → AllSome (λ x. Shared x.0 x.1) (next_round r f)
  next_round-AllSome l g f (ok (over, g')) h k = k over g' h
  next_round-AllSome l g f (err e) h k = tt

  rounds-Shared :
      (fuel : ℕ) (deadline : Option ℕ) (over : Bool) (alive : List ℕ) (g : Gone)
      → Shared alive g
      → AllSome (λ r. Shared r.0 r.1) (rounds fuel a deadline over alive g)
  unfolding rounds
  rounds-Shared fuel deadline over [] g s = s
  rounds-Shared fuel deadline true (p ∷ alive) g s = s
  rounds-Shared zero deadline false (p ∷ alive) g s = tt
  rounds-Shared (suc fuel) deadline false (p ∷ alive) g s =
      next_round-AllSome (p ∷ alive) g
        (λ over g'. rounds fuel a deadline over (without (p ∷ alive) (pids_of g'.procs)) g')
        (pass a deadline (length (p ∷ alive)) (p ∷ alive) g)
        (pass-Looked a deadline (length (p ∷ alive)) (p ∷ alive) g s.once s.apart s.sound)
        (λ over g' h.
          rounds-Shared fuel deadline over (without (p ∷ alive) (pids_of g'.procs)) g'
            (Looked-Shared (p ∷ alive) g g' s h))

  -- The two lists share out the processes, no process stands twice, and every process in the first was
  -- found gone with its code.
  pub record IsVerdict (v : Verdict) : Type 0 where
    pub gone_once : NoDup (pids_of v.0)
    pub alive_once : NoDup v.1
    pub each : (p : ℕ) → elem p procs ≡ (if elem p (pids_of v.0) then true else elem p v.1)
    pub apart : (p : ℕ) → elem p v.1 ≡ true → elem p (pids_of v.0) ≡ false
    pub seen : AllSeen a v.0

  Shared-IsVerdict : (alive : List ℕ) (g : Gone) → Shared alive g → IsVerdict (g.procs, alive)
  Shared-IsVerdict alive g s = record {
    gone_once = s.sound.0;
    alive_once = s.once;
    each = s.each;
    apart = s.apart;
    seen = s.sound.1;
  }

  finish-IsVerdict :
      (alive : List ℕ) (g : Gone) → Shared alive g → AllOk IsVerdict (finish a (alive, g))
  unfolding finish
  finish-IsVerdict alive g s =
      bind-AllOk IsVerdict (last_look a alive g)
        (λ g'. ok (g'.procs, without alive (pids_of g'.procs)))
        (last_look-Looked a alive g s.once s.apart s.sound)
        (λ g' h.
          Shared-IsVerdict (without alive (pids_of g'.procs)) g' (Looked-Shared alive g g' s h))

  and_finish-IsVerdict :
      (o : Outcome (List ℕ × Gone))
      → AllSome (λ r. Shared r.0 r.1) o
      → AllSome IsVerdict (and_finish a o)
  and_finish-IsVerdict none h = tt
  and_finish-IsVerdict (some (err e)) h = tt
  and_finish-IsVerdict (some (ok (alive, g))) h = finish-IsVerdict alive g h

  start-Shared : Shared (set_of procs) (record { procs = []; step = 1 })
  unfolding elem
  start-Shared = record {
    sound = (tt, tt);
    once = set_of-NoDup procs;
    each = λ p. sym (elem-set_of p procs);
    apart = λ p e. refl;
  }

  -- The same for the whole, whatever it comes to.
  wait_procs-AllSome :
      (fuel : ℕ) (timeout : Option ℤ) (callable_ : Bool)
      → AllSome IsVerdict (wait_procs fuel a timeout callable_ procs)
  unfolding wait_procs
  wait_procs-AllSome fuel (some (negsuc n)) callable_ = tt
  wait_procs-AllSome fuel none false = tt
  wait_procs-AllSome fuel (some (pos t)) false = tt
  wait_procs-AllSome fuel none true =
      and_finish-IsVerdict (rounds fuel a none false (set_of procs) _)
        (rounds-Shared fuel none false (set_of procs) _ start-Shared)
  wait_procs-AllSome fuel (some (pos t)) true =
      and_finish-IsVerdict (rounds fuel a (some (a.timer 0 + t)) (t == 0) (set_of procs) _)
        (rounds-Shared fuel (some (a.timer 0 + t)) (t == 0) (set_of procs) _ start-Shared)

  -- If `wait_procs` returns, its two lists share out the given processes, with none in both and none
  -- twice, so that the callback was called once for each that is gone; and for each of those a `wait`
  -- returned its code, and the code was not None or the process was not running.
  pub wait_procs-IsVerdict :
      (fuel : ℕ) (timeout : Option ℤ) (callable_ : Bool) (v : Verdict)
      → wait_procs fuel a timeout callable_ procs ≡ some (ok v)
      → IsVerdict v
  wait_procs-IsVerdict fuel timeout callable_ v e =
      subst (λ (o : Outcome Verdict). AllSome IsVerdict o) e
        (wait_procs-AllSome fuel timeout callable_)
