-- ===== src/Tests/Groups.antt =====
-- Three processes: one that ends, one that is no child and goes away, one that stays.
use psutil.Prelude.{
  ℕ, ◌*◌, ◌≡◌, ◌≢◌, true, none, some, [], ◌∷◌, ok, refl, arith, ltb, if◌then◌else◌, elem,
  ℕ_discrete, ◌==◌,
}
use psutil.Prelude.Int.{pos}
use psutil.WaitProcs.{Answers, Waited, Verdict, wait_procs}
use psutil.WaitProcs.Verdicts.{IsVerdict, wait_procs-IsVerdict}
use psutil.WaitProcs.Ends.{wait_procs_ends}

abbrev answer : ℕ → ℕ → Waited
answer n p =
    if p == 1
    then (if ltb n 3 then Waited.expired else Waited.returned (some (pos 5)))
    else if p == 2
    then Waited.returned none
    else Waited.expired

abbrev answers : Answers
answers = record {
  wait = λ n p t. answer n p;
  is_running = λ n p. ltb n 2;
  timer = λ n. 10 * n;
  hz = 100;
}

abbrev verdict : Verdict
verdict = ((2, none) ∷ (1, some (pos 5)) ∷ [], 3 ∷ [])

found : wait_procs 9 answers (some (pos 80)) true (1 ∷ 2 ∷ 3 ∷ 1 ∷ []) ≡ some (ok verdict)
unfolding wait_procs elem ℕ_discrete
found = refl

wait_procs-IsVerdict_example : IsVerdict answers (1 ∷ 2 ∷ 3 ∷ 1 ∷ []) verdict
wait_procs-IsVerdict_example =
    wait_procs-IsVerdict answers (1 ∷ 2 ∷ 3 ∷ 1 ∷ []) 9 (some (pos 80)) true verdict found

wait_procs_ends_example : wait_procs 9 answers (some (pos 80)) true (1 ∷ 2 ∷ []) ≢ none
wait_procs_ends_example = wait_procs_ends answers 8 80 true (1 ∷ 2 ∷ []) (λ m h. omega (arith, h))
