-- ===== src/Cpu/Threads.antt =====
-- Calls without an interval measure from the last call of the same thread.
use psutil.Prelude.{
  ℕ, ◌≡◌, ◌≢◌, Option, none, some, false, List, [], ◌∷◌, ok, arith, ℕ_discrete, Bool-cases, inl,
  inr,
}
use psutil.Prelude.Int.{ℤ}
use psutil.Prelude.Dict.{lookup, lookup-insert, lookup-insert_self}
use psutil.Platform.{Platform}
use psutil.Cpu.{
  Times, calculate, Last, cpu_percent, cpu_percent_each, measure, measure_each, is_negative,
}

module _ {A : Type 0} (f : Times → Times → A) (tid : ℕ) where
  measure_stored :
      (b n t : Times) (l : Last)
      → lookup ℕ_discrete tid l.total ≡ some t
      → (measure f none tid b n l).0 ≡ ok (f t n)
  unfolding measure
  measure_stored b n t l e = rw (e)

  stored-measure :
      (i : Option ℤ) (b n : Times) (l : Last)
      → is_negative i ≡ false
      → lookup ℕ_discrete tid (measure f i tid b n l).1.total ≡ some n
  unfolding measure
  stored-measure i b n l e = rw (e) (lookup-insert_self ℕ_discrete tid n l.total)

  stored-measure_other :
      (i : Option ℤ) (other : ℕ) (b n t : Times) (l : Last)
      → other ≢ tid
      → lookup ℕ_discrete tid l.total ≡ some t
      → lookup ℕ_discrete tid (measure f i other b n l).1.total ≡ some t
  unfolding measure
  stored-measure_other i other b n t l ne e = elim (Bool-cases (is_negative i)) [
    | inl neg ↦ rw (neg, e)
    | inr not_neg ↦ rw (not_neg) (ground (arith, lookup-insert ℕ_discrete other tid n l.total))
  ]

-- A call of cpu_percent, without and with percpu=True: its interval, its thread and what it reads.
pub data Call : Type 0 where
  system_wide : Option ℤ → ℕ → Times → Times → Call
  per_cpu : Option ℤ → ℕ → List Times → List Times → Call

-- What the calls leave, one after another, whether they return or raise.
pub after_calls : Platform → List Call → Last → Last
after_calls os [] l = l
after_calls os (system_wide i thread before now ∷ calls) l =
    after_calls os calls (cpu_percent os i thread before now l).1
after_calls os (per_cpu i thread before now ∷ calls) l =
    after_calls os calls (cpu_percent_each os i thread before now l).1

-- No call for the whole system is by the thread.
abbrev pub NoneBy : ℕ → List Call → Type 0
NoneBy tid [] = Unit
NoneBy tid (system_wide i thread before now ∷ calls) = (thread ≢ tid) × NoneBy tid calls
NoneBy tid (per_cpu i thread before now ∷ calls) = NoneBy tid calls

total-measure_each :
    {A : Type 0} (f : Times → Times → A) (i : Option ℤ) (thread : ℕ) (before now : List Times)
    (l : Last)
    → (measure_each f i thread before now l).1.total ≡ l.total
unfolding measure_each
total-measure_each f i thread before now l = ground arith

stored-after_calls :
    (os : Platform) (tid : ℕ) (calls : List Call) (t : Times) (l : Last)
    → NoneBy tid calls
    → lookup ℕ_discrete tid l.total ≡ some t
    → lookup ℕ_discrete tid (after_calls os calls l).total ≡ some t
unfolding after_calls cpu_percent cpu_percent_each
stored-after_calls os tid [] t l apart e = e
stored-after_calls os tid (system_wide i thread b n ∷ calls) t l apart e =
    stored-after_calls os tid calls t (measure (calculate os) i thread b n l).1 apart.1
      (stored-measure_other (calculate os) tid i thread b n t l apart.0 e)
stored-after_calls os tid (per_cpu i thread b n ∷ calls) t l apart e =
    stored-after_calls os tid calls t (measure_each (calculate os) i thread b n l).1 apart
      (rw (total-measure_each (calculate os) i thread b n l) e)

-- Two calls of cpu_percent for the whole system by one thread, the first without a negative interval and
-- the second without any, measure the time between their last readings, whatever calls with
-- percpu=True and by other threads came between them, as many as they are.
pub cpu_percent_threads :
    (os : Platform) (tid : ℕ) (i : Option ℤ) (b₁ n₁ b₂ n₂ : Times) (calls : List Call) (l : Last)
    → is_negative i ≡ false
    → NoneBy tid calls
    → (cpu_percent os none tid b₂ n₂ (after_calls os calls (cpu_percent os i tid b₁ n₁ l).1)).0
      ≡ ok (calculate os n₁ n₂)
unfolding cpu_percent
cpu_percent_threads os tid i b₁ n₁ b₂ n₂ calls l positive apart =
    let f = calculate os in
    let l₁ = (measure f i tid b₁ n₁ l).1 in
    measure_stored f tid b₂ n₂ n₁ (after_calls os calls l₁)
      (stored-after_calls os tid calls n₁ l₁ apart (stored-measure f tid i b₁ n₁ l positive))
