-- ===== src/Tests/Listing.antt =====
-- Calls of `process_iter`.
use psutil.Prelude.{ℕ, false, none, List, [], ◌∷◌, ◌≡◌, refl, elem, ℕ_discrete}
use psutil.Prelude.Dict.{lookup, insert, erase}
use psutil.Prelude.Sort.{firsts, sorted}
use psutil.Platform.{Platform}
use psutil.Process.Defs.{Kernel, Kill, null}
use psutil.Process.Identity.{init}
use psutil.ProcessIter.{Module, entries, process_iter}
use psutil.ProcessIter.Entries.{keys}
use psutil.ProcessIter.Cache.{Same, Ascending}
use psutil.ProcessIter.Table.{IsTable}
use psutil.ProcessIter.Calls
use psutil.ProcessIter.Calls.{AllListed, LacksPid, listing}
use psutil.Tests.World.{kernel, process}

abbrev linux : Platform
linux = Platform.linux

abbrev at : ℕ → Kernel
at n = kernel n 100 Kill.delivered

-- PID 3 is cached, PID 7 is cached and known to be reused.
abbrev cached : Module
cached = record {
  pmap = (7, process 7 50) ∷ (3, process 3 60) ∷ [];
  pids_reused = 7 ∷ [];
  lowest_pid = none;
}

cached-IsTable : IsTable cached.pmap
unfolding elem ℕ_discrete
cached-IsTable = record { distinct = (refl, (refl, tt)); matches = (refl, (refl, tt)) }

abbrev system : List ℕ
system = 9 ∷ 3 ∷ 7 ∷ []

-- The first call leaves PID 7 out; the second has it again.
two_calls :
    ((process_iter linux at none null 9 system cached).0.yielded
      ≡ process 3 60 ∷ process 9 100 ∷ [])
    × ((process_iter linux at none null 9 system
          (process_iter linux at none null 9 system cached).1).0.yielded
        ≡ process 3 60 ∷ process 7 100 ∷ process 9 100 ∷ [])
unfolding process_iter ℕ_discrete init insert erase sorted elem
two_calls = (refl, refl)

process_iter-Ascending_example :
    Ascending (process_iter linux at none null 9 system cached).0.yielded
    × AllListed system (process_iter linux at none null 9 system cached).0.yielded
    × IsTable (process_iter linux at none null 9 system cached).1.pmap
unfolding elem ℕ_discrete
process_iter-Ascending_example =
    Calls.process_iter-Ascending linux at none null 9 system cached (λ e. cc)
      (refl, (refl, (refl, tt))) cached-IsTable

process_iter-Same_run : Same (process 3 60) (process 3 60)
unfolding process_iter ℕ_discrete init insert erase sorted elem lookup
process_iter-Same_run =
    Calls.process_iter-Same linux at none null 9 system cached (λ e. cc) 3 (process 3 60)
      (process 3 60) cached-IsTable refl refl

process_iter_misses_reused_example :
    LacksPid 7 (process_iter linux at none null 9 system cached).0.yielded
    × (elem 7 (keys (process_iter linux at none null 9 system cached).1.pmap) ≡ false)
    × (elem 7
          (firsts (entries (listing system) (process_iter linux at none null 9 system cached).1))
        ≡ elem 7 system)
unfolding elem ℕ_discrete
process_iter_misses_reused_example =
    Calls.process_iter_misses_reused linux at none null 9 system cached (λ e. cc) 7 system
      cached-IsTable refl refl
