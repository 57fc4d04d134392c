-- ===== src/ProcessIter.antt =====
-- psutil/__init__.py: `pids`, `process_iter`, and the module-level state that they keep.
pub mod Entries
pub mod Cache
pub mod Table
pub mod Calls
use psutil.Prelude.{
  ℕ, zero, suc, Bool, true, false, Option, none, some, List, [], ◌∷◌, ◌++◌, map, Result, ok, err,
  Error, Exec, elem, ite, ℕ_discrete, if◌then◌else◌, ◌>>=◌, not,
}
use psutil.Prelude.Int.{pos}
use psutil.Prelude.Dict.{Dict, lookup, insert, erase}
use psutil.Prelude.Sort.{sorted, firsts}
use psutil.Platform.{Platform}
use psutil.Process.Defs.{Process, Kernel, Value}
use psutil.Process.Identity.{init}
use psutil.Process.AsDict.{Info}

-- `_pmap`, `_pids_reused` and `_LOWEST_PID`.
pub record Module : Type 0 where
  pub pmap : Dict ℕ Process
  pub pids_reused : List ℕ
  pub lowest_pid : Option ℕ

abbrev tagged : List ℕ → List (ℕ × Unit {0})
tagged = map (λ n. (n, tt))

abbrev first_or_raise : List ℕ → Module → Result (List ℕ) × Module
first_or_raise [] m = (err Error.index_error, m)
first_or_raise (n ∷ ns) m = (ok (n ∷ ns), record m { lowest_pid = some n })

-- `pids`; `system` is what the platform module lists.
unfoldable pub pids : List ℕ → Exec Module (List ℕ)
pids system m = first_or_raise (firsts (sorted (tagged system))) m

-- `for pid in …: remove(pid)`
unfoldable pub remove_all : List ℕ → Dict ℕ Process → Dict ℕ Process
remove_all [] d = d
remove_all (n ∷ ns) d = remove_all ns (erase ℕ_discrete n d)

-- `a - b`, in the order of `a`.
unfoldable pub minus : List ℕ → List ℕ → List ℕ
minus [] bs = []
minus (a ∷ l) bs = let rest = minus l bs in if elem a bs then rest else a ∷ rest

-- `list(pmap.items()) + list(dict.fromkeys(new_pids).items())`
unfoldable pub listed : Dict ℕ Process → List ℕ → List (ℕ × Option Process)
listed d new_pids = map (λ e. (e.0, some e.1)) d ++ map (λ n. (n, none)) new_pids

-- What becomes of one entry: the process is yielded, it is passed over, it is removed, or another
-- exception ends the generator.
pub data Visit : Type 0 where
  give : Process → Visit
  skip drop : Visit
  fail : Error → Option Process → Visit

abbrev pub cleared : Process → Process
cleared p = record p { prefetch = []; ad_value = none }

-- `proc.as_dict(attrs, ad_value)` and the handlers round it; the process is known by then.
abbrev prefetched : Process → Value → Result Info → Visit
prefetched p ad (ok info) = give (record p { prefetch = info; ad_value = some ad })
prefetched p ad (err (Error.zombie_process _)) = give p
prefetched p ad (err (Error.no_such_process _)) = drop
prefetched p ad (err e) = fail e (some p)

pub record Outcome : Type 0 where
  pub yielded : List Process
  pub pmap : Dict ℕ Process
  pub raised : Option Error

abbrev gives : Process → Outcome → Outcome
gives p o = record o { yielded = p ∷ o.yielded }

-- The copy of the table after `gone_pids` and `_pids_reused` were removed.
unfoldable pub pruned : List ℕ → Module → Dict ℕ Process
unfolding minus remove_all
pruned a m = remove_all m.pids_reused (remove_all (minus (firsts m.pmap) a) m.pmap)

-- `new_pids` are found before the reused ones are removed.
unfoldable pub entries : List ℕ → Module → List (ℕ × Option Process)
unfolding pruned listed
entries a m = sorted (listed (pruned a m) (minus a (firsts m.pmap)))

abbrev finish : Outcome → Module → Outcome × Module
finish o m = (o, record m { pmap = o.pmap; pids_reused = [] })

-- `fetch` is `as_dict` with the caller's `attrs`, or `none` where these are `None`.
module _ (os : Platform) (at : ℕ → Kernel) (fetch : Option (Process → Result Info))
    (ad : Value) where
  unfoldable pub refresh : Process → Visit
  refresh proc = elim fetch [
    | none ↦ give (cleared proc)
    | some f ↦ prefetched (cleared proc) ad (f (cleared proc))
  ]

  abbrev added : Result Process → (Process → Visit) → Visit
  added (ok p) f = f p
  added (err (Error.zombie_process _)) f = skip
  added (err (Error.no_such_process _)) f = drop
  added (err e) f = fail e none

  unfoldable pub visit : ℕ → Option Process → Visit
  unfolding refresh
  visit pid none = added (init os (at pid) false (some (pos pid))) refresh
  visit pid (some proc) = refresh proc

  -- The loop. After `budget` more processes the consumer closes the generator.
  unfoldable pub iterate : ℕ → List (ℕ × Option Process) → Dict ℕ Process → Outcome
  unfolding visit
  iterate budget [] d = record { yielded = []; pmap = d; raised = none }
  iterate zero (e ∷ ls) d = record { yielded = []; pmap = d; raised = none }
  iterate (suc budget) ((pid, proc) ∷ ls) d = elim (visit pid proc) [
    | give p ↦ gives p (iterate budget ls (insert ℕ_discrete pid p d))
    | skip ↦ iterate (suc budget) ls d
    | drop ↦ iterate (suc budget) ls (erase ℕ_discrete pid d)
    | fail e none ↦ record { yielded = []; pmap = d; raised = some e }
    | fail e (some p) ↦ record { yielded = []; pmap = insert ℕ_discrete pid p d; raised = some e }
  ]

  abbrev with_pids : ℕ → Result (List ℕ) × Module → Outcome × Module
  with_pids budget (err e, m) = (record { yielded = []; pmap = m.pmap; raised = some e }, m)
  with_pids budget (ok a, m) = finish (iterate (suc budget) (entries a m) (pruned a m)) m

  -- The consumer takes one process, and at most `budget` more.
  unfoldable pub process_iter : ℕ → List ℕ → Module → Outcome × Module
  unfolding iterate entries pids
  process_iter budget system m = with_pids budget (pids system m)

-- `process_iter.cache_clear`
unfoldable pub cache_clear : Module → Module
cache_clear m = record m { pmap = [] }
