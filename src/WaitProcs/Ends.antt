-- ===== src/WaitProcs/Ends.antt =====
-- With a timeout `wait_procs` ends.
use psutil.Prelude.{
  AllOk, bind-AllOk, ℕ, zero, suc, ◌+◌, ◌≤◌, ◌≡◌, ◌≢◌, refl, ◌⊎◌, inl, inr, Bool, true, false,
  Option, none, some, List, [], ◌∷◌, Result, ok, err, Bool-cases, arith, subst, leb, length, ◌==◌,
}
use psutil.Prelude.Int.{pos}
use psutil.WaitProcs.{
  Answers, Ticks, Waited, Gone, set_of, pids_of, without, is_gone, judged, check_gone, pass, rounds,
  next_round, and_finish, wait_procs, Outcome,
}

le→leb : (a b : ℕ) → a ≤ b → leb a b ≡ true
le→leb a b h = ground arith

module _ (a : Answers) where
  judged_step :
      (p : ℕ) (running : Bool) (w : Waited) (g : Gone)
      → AllOk (λ g'. g'.step ≡ suc g.step) (judged p running w g)
  judged_step p running (Waited.raised e) g = tt
  judged_step p running Waited.expired g = refl
  judged_step p running (Waited.returned code) g = elim (Bool-cases (is_gone code running)) [
    | inl e ↦ rw (e) refl
    | inr e ↦ rw (e) refl
  ]

  check_gone_step :
      (p : ℕ) (t : Ticks) (g : Gone) → AllOk (λ g'. g'.step ≡ suc g.step) (check_gone a p t g)
  unfolding check_gone
  check_gone_step p t g = judged_step p (a.is_running g.step p) (a.wait g.step p t) g

  -- A pass is cut short, or takes a step for each process.
  Advanced : ℕ → Bool × Gone → Type 0
  Advanced n r = (r.0 ≡ true) ⊎ (n ≤ r.1.step)

  moved :
      (l : List ℕ) (g g₁ : Gone)
      → g₁.step ≡ suc g.step
      → length l + g₁.step ≡ suc (length l) + g.step
  moved l g g₁ e = omega (arith, e)

  pass_steps :
      (t len : ℕ) (l : List ℕ) (g : Gone)
      → AllOk (Advanced (length l + g.step)) (pass a (some t) len l g)
  unfolding pass Advanced
  pass_steps t len [] g = inr (omega arith)
  pass_steps t len (p ∷ l) g = elim (Bool-cases (leb t (a.timer g.step))) [
    | inl over ↦ rw (over) (inl refl)
    | inr left ↦ rw (left) (
        bind-AllOk (Advanced (length (p ∷ l) + g.step)) (check_gone a p _ g) (pass a (some t) len l)
          (check_gone_step p _ g)
          (λ g₁ e.
            subst (λ n. AllOk (Advanced n) (pass a (some t) len l g₁)) (moved l g g₁ e)
              (pass_steps t len l g₁)))
  ]

  rounds_over :
      (fuel : ℕ) (deadline : Option ℕ) (l : List ℕ) (g : Gone)
      → rounds fuel a deadline true l g ≢ none
  unfolding rounds
  rounds_over fuel deadline [] g = λ e. ground (arith, e)
  rounds_over fuel deadline (p ∷ l) g = λ e. ground (arith, e)

  pass_late :
      (t len p : ℕ) (l : List ℕ) (g : Gone)
      → t ≤ a.timer g.step
      → pass a (some t) len (p ∷ l) g ≡ ok (true, g)
  unfolding pass
  pass_late t len p l g h = rw (le→leb t (a.timer g.step) h) refl

  next_round_ends :
      (n : ℕ) (r : Result (Bool × Gone)) (f : Bool → Gone → Outcome (List ℕ × Gone))
      → AllOk (Advanced n) r
      → ((g : Gone) → f true g ≢ none)
      → ((g : Gone) → n ≤ g.step → f false g ≢ none)
      → next_round r f ≢ none
  unfolding Advanced
  next_round_ends n (err e) f h over go = λ q. ground (arith, q)
  next_round_ends n (ok (true, g)) f h over go = over g
  next_round_ends n (ok (false, g)) f (inl e) over go = absurd (ground (arith, e))
  next_round_ends n (ok (false, g)) f (inr le) over go = go g le

  -- From step `n` on the time is over.
  abbrev pub OverFrom : ℕ → ℕ → Type 0
  OverFrom n t = (m : ℕ) → n ≤ m → t ≤ a.timer m

  rounds_ends :
      (k n t : ℕ) (over : Bool) (l : List ℕ) (g : Gone)
      → OverFrom n t
      → n ≤ k + g.step
      → rounds (suc k) a (some t) over l g ≢ none
  unfolding rounds
  rounds_ends k n t over [] g late h = λ e. ground (arith, e)
  rounds_ends k n t true (p ∷ l) g late h = λ e. ground (arith, e)
  rounds_ends zero n t false (p ∷ l) g late h =
      rw (pass_late t (length (p ∷ l)) p l g (late g.step (omega arith)))
        (rounds_over 0 (some t) (without (p ∷ l) (pids_of g.procs)) g)
  rounds_ends (suc k) n t false (p ∷ l) g late h =
      next_round_ends (length (p ∷ l) + g.step) (pass a (some t) (length (p ∷ l)) (p ∷ l) g)
        (λ over g'. rounds (suc k) a (some t) over (without (p ∷ l) (pids_of g'.procs)) g')
        (pass_steps t (length (p ∷ l)) (p ∷ l) g)
        (λ g'. rounds_over (suc k) (some t) (without (p ∷ l) (pids_of g'.procs)) g')
        (λ g' le.
          rounds_ends k n t false (without (p ∷ l) (pids_of g'.procs)) g' late (omega arith))

  and_finish_ends : (o : Outcome (List ℕ × Gone)) → o ≢ none → and_finish a o ≢ none
  and_finish_ends none h = absurd (h refl)
  and_finish_ends (some (ok r)) h = λ e. ground (arith, e)
  and_finish_ends (some (err x)) h = λ e. ground (arith, e)

  -- With a timeout, and a timer that is past the deadline from step n + 1 on, `wait_procs` comes to an
  -- outcome within n + 1 rounds, whatever else the system answers.
  pub wait_procs_ends :
      (n t : ℕ) (callable_ : Bool) (procs : List ℕ)
      → ((m : ℕ) → suc n ≤ m → a.timer 0 + t ≤ a.timer m)
      → wait_procs (suc n) a (some (pos t)) callable_ procs ≢ none
  unfolding wait_procs
  wait_procs_ends n t false procs late = λ e. ground (arith, e)
  wait_procs_ends n t true procs late =
      and_finish_ends (rounds (suc n) a (some (a.timer 0 + t)) (t == 0) (set_of procs) _)
        (rounds_ends n (suc n) (a.timer 0 + t) (t == 0) (set_of procs) _ late (omega arith))
