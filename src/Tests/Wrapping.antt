-- ===== src/Tests/Wrapping.antt =====
-- `_WrapNumbers` on a disk whose counter wraps, and one that goes away.
use psutil.Prelude.{
  ℕ, true, false, List, get_elem?, ◌+◌, ◌-◌, some, none, [], ◌∷◌, ok, Result, ◌≡◌, refl, inr, ltb,
  if◌then◌else◌, ℕ_discrete, arith,
}
use psutil.Prelude.Dict.{lookup, insert, erase}
use psutil.Wrap.{Table, WrapNumbers, empty, run, cache_clear, dec_remkey}
use psutil.Wrap.Rerun.{counter}
use psutil.Wrap.Run.{IsValid, last, empty-IsValid}
use psutil.Wrap.Increment
use psutil.Wrap.Odometer.{Calls, Shows, counted, missing, done, shows, after, calls-refine}
use psutil.IoCounters.{Counters, io_counters, values}
use psutil.IoCounters.Totals.{column, io_counters_sum, io_counters_increment}

-- Keys are numbers here: 0 for the caller, 1 and 2 for two disks.
abbrev first : Table ℕ
first = (1, 300 ∷ 5 ∷ []) ∷ (2, 7 ∷ 7 ∷ []) ∷ []

abbrev second : Table ℕ
second = (1, 100 ∷ 6 ∷ []) ∷ []

abbrev third : Table ℕ
third = (1, 90 ∷ 6 ∷ []) ∷ (2, 1 ∷ 8 ∷ []) ∷ []

state : Result (Table ℕ × WrapNumbers ℕ) → WrapNumbers ℕ
state (ok (d, w)) = w
state _ = empty

output : Result (Table ℕ × WrapNumbers ℕ) → Table ℕ
output (ok (d, w)) = d
output _ = []

abbrev dec : Discrete ℕ
dec = ℕ_discrete

abbrev w₁ : WrapNumbers ℕ
w₁ = state (run dec first 0 empty)

abbrev w₂ : WrapNumbers ℕ
w₂ = state (run dec second 0 w₁)

three_calls :
    (output (run dec second 0 w₁) ≡ (1, 400 ∷ 6 ∷ []) ∷ [])
    × (output (run dec third 0 w₂) ≡ (1, 490 ∷ 6 ∷ []) ∷ (2, 1 ∷ 8 ∷ []) ∷ [])
unfolding run state output lookup insert erase dec_remkey ℕ_discrete
three_calls = (refl, refl)

run_total_run :
    (new : Table ℕ) × (w' : WrapNumbers ℕ) × (run dec first 0 empty ≡ ok (new, w')) × IsValid dec w'
unfolding last lookup ℕ_discrete
run_total_run =
    Increment.run_total dec 0 first empty (empty-IsValid dec) (refl, (refl, tt))
      ((λ os h. absurd (cc)), ((λ os h. absurd (cc)), tt))

run_increment_example :
    (y : ℕ) × (counter dec 1 0 first ≡ some y)
    × (counter dec 1 0 (output (run dec second 0 w₁))
        ≡ some (y + (if ltb 100 300 then 100 else 100 - 300)))
unfolding last lookup ℕ_discrete run state output insert erase dec_remkey counter
run_increment_example =
    Increment.run_increment dec 0 first second first (output (run dec second 0 w₁)) empty w₁ w₂ 1 0
      300 100 (empty-IsValid dec) (refl, (refl, tt))
      ((λ os h. absurd (cc)), ((λ os h. absurd (cc)), tt)) (refl, tt) ((λ os h. ground arith), tt)
      refl refl refl refl

-- Disk 2 goes away and comes back; its first counter is read as 7, nothing, and 1.
three_runs :
    Calls dec 0 2 0 empty (state (run dec third 0 w₂)) (some 7 ∷ none ∷ some 1 ∷ []) (7 ∷ 1 ∷ [])
unfolding last lookup ℕ_discrete run state output insert erase dec_remkey counter
three_runs =
    counted first first 7 7 (refl, (refl, tt)) ((λ os h. absurd (cc)), ((λ os h. absurd (cc)), tt))
      refl refl refl
      (missing second (output (run dec second 0 w₁)) (refl, tt) ((λ os h. ground arith), tt) refl
        refl
        (counted third (output (run dec third 0 w₂)) 1 1 (refl, (refl, tt))
          ((λ os h. ground arith), ((λ os h. absurd (cc)), tt)) refl refl refl done))

calls-refine_example :
    (7 ∷ 1 ∷ [] ≡ shows none (some 7 ∷ none ∷ some 1 ∷ []))
    × IsValid dec (state (run dec third 0 w₂))
    × Shows dec 0 2 0 (after none (some 7 ∷ none ∷ some 1 ∷ [])) (state (run dec third 0 w₂))
unfolding last lookup
calls-refine_example = calls-refine dec 0 2 0 none (empty-IsValid dec) refl three_runs

run-cache_clear_at_once :
    (w' : WrapNumbers ℕ) × (run dec second 0 (cache_clear dec (some 0) empty) ≡ ok (second, w'))
    × IsValid dec w'
run-cache_clear_at_once =
    Increment.run-cache_clear dec 0 (some 0) second empty (empty-IsValid dec) (inr refl)

-- The platform's counters through `disk_io_counters`, by device and in all.
outcome : Result (Counters ℕ) × WrapNumbers ℕ → Table ℕ
outcome (ok (Counters.each d), w) = d
outcome _ = []

abbrev w₃ : WrapNumbers ℕ
w₃ = (io_counters dec 0 true true first empty).1

io_counters_sum_run :
    (t : List ℕ) × (io_counters dec 0 false false first empty ≡ (ok (Counters.total t), empty))
    × (get_elem? t 1 ≡ some (column 1 (values first)))
io_counters_sum_run =
    io_counters_sum dec 0 1 (300 ∷ 5 ∷ []) ((2, 7 ∷ 7 ∷ []) ∷ []) empty 2 1 (refl, (refl, tt))
      (omega arith)

io_counters_increment_run :
    (y : ℕ) × (counter dec 1 0 first ≡ some y)
    × (counter dec 1 0 (outcome (io_counters dec 0 true true second w₃))
        ≡ some (y + (if ltb 100 300 then 100 else 100 - 300)))
unfolding last lookup ℕ_discrete run io_counters outcome insert erase dec_remkey counter
io_counters_increment_run =
    io_counters_increment dec 0 first second first (outcome (io_counters dec 0 true true second w₃))
      empty w₃ (io_counters dec 0 true true second w₃).1 1 0 300 100 (empty-IsValid dec)
      (refl, (refl, tt)) ((λ os h. absurd (cc)), ((λ os h. absurd (cc)), tt)) (refl, tt)
      ((λ os h. ground arith), tt) refl refl refl refl
