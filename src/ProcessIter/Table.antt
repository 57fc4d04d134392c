-- ===== src/ProcessIter/Table.antt =====
-- The table `_pmap` stays a dict whose objects stand under their own PIDs.
use psutil.Prelude.{
  ℕ, zero, suc, ◌≡◌, inl, inr, refl, true, false, Option, none, some, List, [], ◌∷◌, map, elem, ite,
  ℕ_discrete, arith, Result, Bool-cases, leb,
}
use psutil.Prelude.Dict.{Dict, lookup, insert, erase, lookup-erase}
use psutil.Prelude.Sort.{sorted, insert_by, firsts, DistinctFirsts}
use psutil.Platform.{Platform}
use psutil.Process.Defs.{Process, Kernel, Value}
use psutil.Process.AsDict.{Info}
use psutil.ProcessIter.{Module, minus, remove_all, pruned, entries, listed, visit, iterate}
use psutil.ProcessIter.Entries.{keys, keys-erase, erase-DistinctFirsts, elem-minus}
use psutil.ProcessIter.Cache.{Matches, MatchesEntry, MatchesAll, Lists, Visit-cases, visit-pid}

pub record IsTable (d : Dict ℕ Process) : Type 0 where
  pub distinct : DistinctFirsts d
  pub matches : Matches d

keys-insert :
    (n k : ℕ) (p : Process) (d : Dict ℕ Process)
    → elem n (keys (insert ℕ_discrete k p d)) ≡ ite (ℕ_discrete k n) true (elem n (keys d))
unfolding insert elem
keys-insert n k p [] = refl
keys-insert n k p (e ∷ d) = ground (arith, keys-insert n k p d)

insert-DistinctFirsts :
    (k : ℕ) (p : Process) (d : Dict ℕ Process)
    → DistinctFirsts d
    → DistinctFirsts (insert ℕ_discrete k p d)
unfolding insert elem
insert-DistinctFirsts k p [] h = (refl, tt)
insert-DistinctFirsts k p (e ∷ d) h =
    ground (arith, insert-DistinctFirsts k p d, keys-insert e.0 k p d)

insert-Matches :
    (k : ℕ) (p : Process) (d : Dict ℕ Process)
    → p.pid ≡ k
    → Matches d
    → Matches (insert ℕ_discrete k p d)
unfolding insert
insert-Matches k p [] e h = (e, tt)
insert-Matches k p (x ∷ d) e h = ground (arith, insert-Matches k p d)

erase-Matches : (k : ℕ) (d : Dict ℕ Process) → Matches d → Matches (erase ℕ_discrete k d)
unfolding erase
erase-Matches k [] h = tt
erase-Matches k (x ∷ d) h = ground (arith, erase-Matches k d)

insert-IsTable :
    (k : ℕ) (p : Process) (d : Dict ℕ Process)
    → p.pid ≡ k
    → IsTable d
    → IsTable (insert ℕ_discrete k p d)
insert-IsTable k p d e h = record {
  distinct = insert-DistinctFirsts k p d h.distinct;
  matches = insert-Matches k p d e h.matches;
}

erase-IsTable : (k : ℕ) (d : Dict ℕ Process) → IsTable d → IsTable (erase ℕ_discrete k d)
erase-IsTable k d h = record {
  distinct = erase-DistinctFirsts k d h.distinct;
  matches = erase-Matches k d h.matches;
}

pub remove_all-IsTable : (ns : List ℕ) (d : Dict ℕ Process) → IsTable d → IsTable (remove_all ns d)
unfolding remove_all
remove_all-IsTable [] d h = h
remove_all-IsTable (n ∷ ns) d h = remove_all-IsTable ns _ (erase-IsTable n d h)

pub pruned-IsTable : (a : List ℕ) (m : Module) → IsTable m.pmap → IsTable (pruned a m)
unfolding pruned
pruned-IsTable a m h =
    remove_all-IsTable m.pids_reused _ (remove_all-IsTable (minus (firsts m.pmap) a) m.pmap h)

lookup-remove_all :
    (n : ℕ) (ns : List ℕ) (d : Dict ℕ Process) (p : Process)
    → lookup ℕ_discrete n (remove_all ns d) ≡ some p
    → lookup ℕ_discrete n d ≡ some p
unfolding remove_all
lookup-remove_all n [] d p h = h
lookup-remove_all n (k ∷ ns) d p h =
    let e = lookup-remove_all n ns (erase ℕ_discrete k d) p h in
    ground (arith, lookup-erase ℕ_discrete k n d)

pub lookup-pruned :
    (n : ℕ) (a : List ℕ) (m : Module) (p : Process)
    → lookup ℕ_discrete n (pruned a m) ≡ some p
    → lookup ℕ_discrete n m.pmap ≡ some p
unfolding pruned
lookup-pruned n a m p h =
    lookup-remove_all n (minus (firsts m.pmap) a) m.pmap p (lookup-remove_all n m.pids_reused _ p h)

-- Sorting keeps what is said of each entry.
module _ (P : ℕ × Option Process → Type 0) where
  abbrev Each : List (ℕ × Option Process) → Type 0
  Each [] = Unit
  Each (e ∷ l) = P e × Each l

  insert_by-Each :
      (e : ℕ × Option Process) (l : List (ℕ × Option Process)) → P e → Each l → Each (insert_by e l)
  unfolding insert_by
  insert_by-Each e [] h i = (h, tt)
  insert_by-Each e (x ∷ l) h i = elim (Bool-cases (leb e.0 x.0)) [
    | inl le ↦ rw le (h, i)
    | inr gt ↦ rw gt (i.0, insert_by-Each e l h i.1)
  ]

  sorted-Each : (l : List (ℕ × Option Process)) → Each l → Each (sorted l)
  unfolding sorted
  sorted-Each [] h = tt
  sorted-Each (e ∷ l) h = insert_by-Each e (sorted l) h.0 (sorted-Each l h.1)

  listed-Each :
      (d : Dict ℕ Process) (ns : List ℕ)
      → Each (map (λ e. (e.0, some e.1)) d)
      → Each (map (λ n. (n, none)) ns)
      → Each (listed d ns)
  unfolding listed
  listed-Each [] ns hd hn = hn
  listed-Each (e ∷ d) ns hd hn = (hd.0, listed-Each d ns hd.1 hn)

old-MatchesAll : (d : Dict ℕ Process) → Matches d → Each MatchesEntry (map (λ e. (e.0, some e.1)) d)
old-MatchesAll [] h = tt
old-MatchesAll (e ∷ d) h = (h.0, old-MatchesAll d h.1)

new-MatchesAll : (ns : List ℕ) → Each MatchesEntry (map (λ n. (n, none)) ns)
new-MatchesAll [] = tt
new-MatchesAll (n ∷ ns) = (tt, new-MatchesAll ns)

Each-MatchesAll : (ls : List (ℕ × Option Process)) → Each MatchesEntry ls → MatchesAll ls
Each-MatchesAll [] h = tt
Each-MatchesAll (e ∷ ls) h = (h.0, Each-MatchesAll ls h.1)

pub entries-MatchesAll : (a : List ℕ) (m : Module) → IsTable m.pmap → MatchesAll (entries a m)
unfolding entries
entries-MatchesAll a m h = Each-MatchesAll _ (
    sorted-Each MatchesEntry _ (
      listed-Each MatchesEntry (pruned a m) (minus a (firsts m.pmap))
        (old-MatchesAll _ (pruned-IsTable a m h).matches) (new-MatchesAll _)))

pub elem-keys_of_lookup :
    (n : ℕ) (d : Dict ℕ Process) (q : Process)
    → lookup ℕ_discrete n d ≡ some q
    → elem n (keys d) ≡ true
unfolding lookup elem
elem-keys_of_lookup n [] q h = absurd (cc)
elem-keys_of_lookup n (e ∷ d) q h = ground (arith, elem-keys_of_lookup n d q)

module _ (n : ℕ) (p : Process) where
  abbrev ListsEntry : ℕ × Option Process → Type 0
  ListsEntry e = e.0 ≡ n → e.1 ≡ some p

  old-Lists :
      (d : Dict ℕ Process)
      → DistinctFirsts d
      → ((q : Process) → lookup ℕ_discrete n d ≡ some q → q ≡ p)
      → Each ListsEntry (map (λ e. (e.0, some e.1)) d)
  unfolding lookup
  old-Lists [] u h = tt
  old-Lists (e ∷ d) u h = (
    λ same. ground (arith, h e.1),
    old-Lists d u.1 (λ q found. ground (arith, h q, elem-keys_of_lookup n d q)),
  )

  new-Lists : (ns : List ℕ) → elem n ns ≡ false → Each ListsEntry (map (λ k. (k, none)) ns)
  unfolding elem
  new-Lists [] h = tt
  new-Lists (k ∷ ns) h = ground (arith, new-Lists ns)

  Each-Lists : (ls : List (ℕ × Option Process)) → Each ListsEntry ls → Lists n p ls
  Each-Lists [] h = tt
  Each-Lists (e ∷ ls) h = (h.0, Each-Lists ls h.1)

  -- The one entry for a cached PID is its object.
  pub entries-Lists :
      (a : List ℕ) (m : Module)
      → IsTable m.pmap
      → lookup ℕ_discrete n m.pmap ≡ some p
      → Lists n p (entries a m)
  unfolding entries
  entries-Lists a m h found = Each-Lists _ (
      sorted-Each ListsEntry _ (
        listed-Each ListsEntry (pruned a m) (minus a (firsts m.pmap))
          (old-Lists (pruned a m) (pruned-IsTable a m h).distinct
            (λ q f. ground (arith, lookup-pruned n a m q f)))
          (new-Lists _
            (ground (arith, elem-minus n a (firsts m.pmap), elem-keys_of_lookup n m.pmap p)))))

module _ (os : Platform) (at : ℕ → Kernel) (fetch : Option (Process → Result Info))
    (ad : Value) where
  pub iterate-IsTable :
      (budget : ℕ) (ls : List (ℕ × Option Process)) (d : Dict ℕ Process)
      → MatchesAll ls
      → IsTable d
      → IsTable (iterate os at fetch ad budget ls d).pmap
  unfolding iterate
  iterate-IsTable budget [] d m t = t
  iterate-IsTable zero (e ∷ ls) d m t = t
  iterate-IsTable (suc budget) ((n, q) ∷ ls) d m t = elim (Visit-cases (visit os at fetch ad n q)) [
    | inl (p, e) ↦
        rw (e, iterate)
          (iterate-IsTable budget ls (insert ℕ_discrete n p d) m.1
            (insert-IsTable n p d (visit-pid os at fetch ad n q p (inl e) m.0) t))
    | inr (inl e) ↦ rw (e, iterate) (iterate-IsTable (suc budget) ls d m.1 t)
    | inr (inr (inl e)) ↦
        rw (e, iterate)
          (iterate-IsTable (suc budget) ls (erase ℕ_discrete n d) m.1 (erase-IsTable n d t))
    | inr (inr (inr (x, none, e))) ↦ rw (e, iterate) t
    | inr (inr (inr (x, some p, e))) ↦
        rw (e, iterate) (insert-IsTable n p d (visit-pid os at fetch ad n q p (inr (x, e)) m.0) t)
  ]

  -- What is not listed is not put into the table.
  pub iterate_absent :
      (n budget : ℕ) (ls : List (ℕ × Option Process)) (d : Dict ℕ Process)
      → elem n (firsts ls) ≡ false
      → elem n (keys d) ≡ false
      → elem n (keys (iterate os at fetch ad budget ls d).pmap) ≡ false
  unfolding iterate elem
  iterate_absent n budget [] d h k = k
  iterate_absent n zero (e ∷ ls) d h k = k
  iterate_absent n (suc budget) ((i, q) ∷ ls) d h k =
      elim (Visit-cases (visit os at fetch ad i q)) [
        | inl (p, e) ↦
            rw (e, iterate)
              (iterate_absent n budget ls (insert ℕ_discrete i p d) (ground arith)
                (ground (arith, keys-insert n i p d)))
        | inr (inl e) ↦ rw (e, iterate) (iterate_absent n (suc budget) ls d (ground arith) k)
        | inr (inr (inl e)) ↦
            rw (e, iterate)
              (iterate_absent n (suc budget) ls (erase ℕ_discrete i d) (ground arith)
                (ground (arith, keys-erase n i d)))
        | inr (inr (inr (x, none, e))) ↦ rw (e, iterate) k
        | inr (inr (inr (x, some p, e))) ↦ rw (e, iterate) (ground (arith, keys-insert n i p d))
      ]
