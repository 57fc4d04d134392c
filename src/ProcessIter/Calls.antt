-- ===== src/ProcessIter/Calls.antt =====
-- Whole calls of `process_iter`, one after the other.
use psutil.Prelude.{
  ℕ, suc, ◌≡◌, ◌≢◌, refl, true, false, Option, some, List, [], ◌∷◌, elem, ℕ_discrete, arith, ap,
  Result,
}
use psutil.Prelude.Dict.{lookup}
use psutil.Prelude.Sort.{
  sorted, insert_by, firsts, DistinctFirsts, Increasing, Below, elem-sorted, sorted-Increasing,
}
use psutil.Platform.{Platform}
use psutil.Process.Defs.{Process, Kernel, Value}
use psutil.Process.AsDict.{Info}
use psutil.ProcessIter.{
  Module, entries, pruned, iterate, pids, process_iter, Outcome, tagged, first_or_raise, with_pids,
}
use psutil.ProcessIter.Entries.{keys, Distinct, elem-entries, entries-Increasing, keys-pruned}
use psutil.ProcessIter.Cache.{
  Same, Within, Ascending, iterate-Ascending, iterate-Within, iterate-Holds,
}
use psutil.ProcessIter.Table.{
  IsTable, iterate-IsTable, iterate_absent, entries-MatchesAll, entries-Lists, pruned-IsTable,
  lookup-pruned,
}

-- `sorted(system)`
abbrev pub listing : List ℕ → List ℕ
listing system = firsts (sorted (tagged system))

firsts-tagged : (l : List ℕ) → firsts (tagged l) ≡ l
firsts-tagged [] = refl
firsts-tagged (n ∷ l) = rw (firsts-tagged l)

tagged-DistinctFirsts : (l : List ℕ) → Distinct l → DistinctFirsts (tagged l)
tagged-DistinctFirsts [] d = tt
tagged-DistinctFirsts (n ∷ l) d = (rw firsts-tagged d.0, tagged-DistinctFirsts l d.1)

not-elem_of_Below : (n : ℕ) (l : List (ℕ × Unit {0})) → Below n l → elem n (firsts l) ≡ false
unfolding elem
not-elem_of_Below n [] b = refl
not-elem_of_Below n (x ∷ l) b = ground (arith, not-elem_of_Below n l b.1)

firsts-Distinct : (l : List (ℕ × Unit {0})) → Increasing l → Distinct (firsts l)
firsts-Distinct [] i = tt
firsts-Distinct (x ∷ l) i = (not-elem_of_Below x.0 l i.0, firsts-Distinct l i.1)

listing-Distinct : (system : List ℕ) → Distinct system → Distinct (listing system)
listing-Distinct system d =
    firsts-Distinct _ (sorted-Increasing (tagged system) (tagged-DistinctFirsts system d))

elem-listing : (n : ℕ) (system : List ℕ) → elem n (listing system) ≡ elem n system
elem-listing n system = rw elem-sorted (rw firsts-tagged)

-- No process of the list has the PID `n`.
abbrev pub LacksPid : ℕ → List Process → Type 0
LacksPid n [] = Unit
LacksPid n (p ∷ l) = (p.pid ≢ n) × LacksPid n l

-- Every process of the list has a PID that the system lists.
abbrev pub AllListed : List ℕ → List Process → Type 0
AllListed system [] = Unit
AllListed system (p ∷ l) = (elem p.pid system ≡ true) × AllListed system l

LacksPid-Within :
    (n : ℕ) (ls : List (ℕ × Option Process)) (l : List Process)
    → elem n (firsts ls) ≡ false
    → Within ls l
    → LacksPid n l
LacksPid-Within n ls [] h w = tt
LacksPid-Within n ls (p ∷ l) h w =
    (λ e. cc (ap (λ (k : ℕ). elem k (firsts ls)) e, w.0), LacksPid-Within n ls l h w.1)

AllListed-Within :
    (system : List ℕ) (m : Module) (l : List Process)
    → Within (entries (listing system) m) l
    → AllListed system l
AllListed-Within system m [] w = tt
AllListed-Within system m (p ∷ l) w = (
  ground (arith, elem-entries (listing system) m p.pid, elem-listing p.pid system),
  AllListed-Within system m l w.1,
)

insert_by_ne : (x : ℕ × Unit {0}) (l : List (ℕ × Unit {0})) → firsts (insert_by x l) ≢ []
unfolding insert_by
insert_by_ne x [] = λ e. cc
insert_by_ne x (y ∷ l) = ground arith

listing_ne : (system : List ℕ) → system ≢ [] → listing system ≢ []
unfolding sorted
listing_ne [] ne = absurd (ne refl)
listing_ne (n ∷ l) ne = insert_by_ne (n, tt) (sorted (tagged l))

module _ (os : Platform) (at : ℕ → Kernel) (fetch : Option (Process → Result Info))
    (ad : Value) where
  record Ran (budget : ℕ) (l : List ℕ) (m : Module) (r : Outcome × Module) : Type 0 where
    result : r.0 ≡ iterate os at fetch ad (suc budget) (entries l m) (pruned l m)
    table : r.1.pmap ≡ r.0.pmap
    emptied : r.1.pids_reused ≡ []

  with_pids-Ran :
      (budget : ℕ) (l : List ℕ) (m : Module)
      → l ≢ []
      → Ran budget l m (with_pids os at fetch ad budget (first_or_raise l m))
  unfolding entries pruned
  with_pids-Ran budget [] m ne = absurd (ne refl)
  with_pids-Ran budget (n ∷ l) m ne = record { result = refl; table = refl; emptied = refl }

  module _ (budget : ℕ) (system : List ℕ) (m : Module) (ne : system ≢ []) where
    process_iter-Ran : Ran budget (listing system) m (process_iter os at fetch ad budget system m)
    unfolding process_iter pids
    process_iter-Ran = with_pids-Ran budget (listing system) m (listing_ne system ne)

    -- A call yields processes in strictly increasing order of PID, each of them one that the system
    -- lists, and leaves the table a dict whose objects stand under their own PIDs. (It is not
    -- assumed that the call runs to its end, nor that it raises nothing.)
    pub process_iter-Ascending :
        Distinct system
        → IsTable m.pmap
        → Ascending (process_iter os at fetch ad budget system m).0.yielded
          × AllListed system (process_iter os at fetch ad budget system m).0.yielded
          × IsTable (process_iter os at fetch ad budget system m).1.pmap
    process_iter-Ascending d t =
        let r = process_iter-Ran in
        let es = entries (listing system) m in
        let ma = entries-MatchesAll (listing system) m t in
        (
          rw r.result (
              iterate-Ascending os at fetch ad (suc budget) es _
                (entries-Increasing (listing system) m (listing-Distinct system d) t.distinct) ma),
          rw r.result
              (AllListed-Within system m _ (iterate-Within os at fetch ad (suc budget) es _ ma)),
          rw (r.table, r.result)
              (iterate-IsTable os at fetch ad (suc budget) es _ ma
                (pruned-IsTable (listing system) m t)),
        )

    -- An object that was cached is kept: what the table holds under its PID afterwards, if anything,
    -- is the same object, up to what was prefetched.
    pub process_iter-Same :
        (n : ℕ) (p q : Process)
        → IsTable m.pmap
        → lookup ℕ_discrete n m.pmap ≡ some p
        → lookup ℕ_discrete n (process_iter os at fetch ad budget system m).1.pmap ≡ some q
        → Same p q
    process_iter-Same n p q t old new =
        let r = process_iter-Ran in
        iterate-Holds os at fetch ad n p (suc budget) (entries (listing system) m)
          (pruned (listing system) m) (entries-Lists n p (listing system) m t old)
          (λ q' f. ground (arith, lookup-pruned n (listing system) m q' f)) q
          (rw (r.table, r.result) at new)

    -- A PID whose object is known to be reused is missed: this call yields no process for it, though
    -- the system lists it. The next call looks at it again exactly if the system still lists it, and
    -- finds no object for it in the table.
    pub process_iter_misses_reused :
        (n : ℕ) (system' : List ℕ)
        → IsTable m.pmap
        → elem n (keys m.pmap) ≡ true
        → elem n m.pids_reused ≡ true
        → LacksPid n (process_iter os at fetch ad budget system m).0.yielded
          × (elem n (keys (process_iter os at fetch ad budget system m).1.pmap) ≡ false)
          × (elem n
                (firsts (entries (listing system') (process_iter os at fetch ad budget system m).1))
              ≡ elem n system')
    process_iter_misses_reused n system' t cached reused =
        let r = process_iter-Ran in
        let es = entries (listing system) m in
        let missed : elem n (firsts es) ≡ false =
          ground (arith, elem-entries (listing system) m n) in
        let gone : elem n (keys (process_iter os at fetch ad budget system m).1.pmap) ≡ false =
          rw (r.table, r.result)
            (iterate_absent os at fetch ad n (suc budget) es _ missed
              (ground (arith, keys-pruned (listing system) m n))) in
        (
          rw r.result (
              LacksPid-Within n es _ missed (
                iterate-Within os at fetch ad (suc budget) es _
                  (entries-MatchesAll (listing system) m t))),
          gone,
          ground (
            arith,
            elem-entries (listing system') (process_iter os at fetch ad budget system m).1 n,
            elem-listing n system',
          ),
        )
