-- ===== src/ProcessIter/Entries.antt =====
-- Which PIDs a call of `process_iter` looks at, and in which order.
use psutil.Prelude.{
  ℕ, ◌≡◌, refl, true, false, not, ◌&&◌, List, [], ◌∷◌, elem, ite, ℕ_discrete, if◌then◌else◌, arith,
  ◌∙◌,
}
use psutil.Prelude.Dict.{Dict, erase}
use psutil.Prelude.Sort.{firsts, DistinctFirsts, Increasing, elem-sorted, sorted-Increasing}
use psutil.Process.Defs.{Process}
use psutil.ProcessIter.{Module, minus, remove_all, pruned, entries, listed}

abbrev pub keys : Dict ℕ Process → List ℕ
keys = firsts

pub elem-minus :
    (n : ℕ) (a b : List ℕ) → elem n (minus a b) ≡ (if elem n b then false else elem n a)
unfolding minus elem
elem-minus n [] b = ground arith
elem-minus n (x ∷ a) b = ground (arith, elem-minus n a b)

pub keys-erase :
    (n k : ℕ) (d : Dict ℕ Process)
    → elem n (keys (erase ℕ_discrete k d)) ≡ ite (ℕ_discrete k n) false (elem n (keys d))
unfolding erase elem
keys-erase n k [] = ground arith
keys-erase n k (e ∷ d) = ground (arith, keys-erase n k d)

pub keys-remove_all :
    (n : ℕ) (ns : List ℕ) (d : Dict ℕ Process)
    → elem n (keys (remove_all ns d)) ≡ (if elem n ns then false else elem n (keys d))
unfolding remove_all elem
keys-remove_all n [] d = refl
keys-remove_all n (k ∷ ns) d =
    ground (arith, keys-remove_all n ns (erase ℕ_discrete k d), keys-erase n k d)

pub erase-DistinctFirsts :
    (k : ℕ) (d : Dict ℕ Process) → DistinctFirsts d → DistinctFirsts (erase ℕ_discrete k d)
unfolding erase
erase-DistinctFirsts k [] h = tt
erase-DistinctFirsts k (e ∷ d) h = ground (arith, erase-DistinctFirsts k d, keys-erase e.0 k d)

pub remove_all-DistinctFirsts :
    (ns : List ℕ) (d : Dict ℕ Process) → DistinctFirsts d → DistinctFirsts (remove_all ns d)
unfolding remove_all
remove_all-DistinctFirsts [] d h = h
remove_all-DistinctFirsts (k ∷ ns) d h = remove_all-DistinctFirsts ns _ (erase-DistinctFirsts k d h)

-- No number stands twice.
abbrev pub Distinct : List ℕ → Type 0
Distinct [] = Unit
Distinct (x ∷ l) = (elem x l ≡ false) × Distinct l

minus-Distinct : (a b : List ℕ) → Distinct a → Distinct (minus a b)
unfolding minus
minus-Distinct [] b h = tt
minus-Distinct (x ∷ a) b h = ground (arith, minus-Distinct a b, elem-minus x a b)

firsts-listed :
    (n : ℕ) (d : Dict ℕ Process) (ns : List ℕ)
    → elem n (firsts (listed d ns)) ≡ (if elem n (keys d) then true else elem n ns)
unfolding listed elem
firsts-listed n [] [] = refl
firsts-listed n [] (x ∷ ns) = ground (arith, firsts-listed n [] ns)
firsts-listed n (e ∷ d) ns = ground (arith, firsts-listed n d ns)

listed-DistinctFirsts :
    (d : Dict ℕ Process) (ns : List ℕ)
    → DistinctFirsts d
    → Distinct ns
    → ((n : ℕ) → elem n (keys d) ≡ true → elem n ns ≡ false)
    → DistinctFirsts (listed d ns)
unfolding listed elem
listed-DistinctFirsts [] [] hd hn apart = tt
listed-DistinctFirsts [] (x ∷ ns) hd hn apart =
    (firsts-listed x [] ns ∙ hn.0, listed-DistinctFirsts [] ns tt hn.1 (λ n e. absurd (cc)))
listed-DistinctFirsts (e ∷ d) ns hd hn apart = (
  ground (arith, firsts-listed e.0 d ns, apart e.0),
  listed-DistinctFirsts d ns hd.1 hn (λ n there. apart n (ground arith)),
)

module _ (a : List ℕ) (m : Module) where
  pub keys-pruned :
      (n : ℕ)
      → elem n (keys (pruned a m))
        ≡ (elem n (keys m.pmap) && (elem n a && not (elem n m.pids_reused)))
  unfolding pruned
  keys-pruned n = ground (
    arith,
    keys-remove_all n m.pids_reused (remove_all (minus (firsts m.pmap) a) m.pmap),
    keys-remove_all n (minus (firsts m.pmap) a) m.pmap,
    elem-minus n (firsts m.pmap) a,
  )

  -- A call looks at a PID exactly when the system lists it and the PID is not one that is cached and
  -- known to be reused.
  pub elem-entries :
      (n : ℕ)
      → elem n (firsts (entries a m))
        ≡ (elem n a && not (elem n (keys m.pmap) && elem n m.pids_reused))
  unfolding entries
  elem-entries n = ground (
    arith,
    elem-sorted n (listed (pruned a m) (minus a (firsts m.pmap))),
    firsts-listed n (pruned a m) (minus a (firsts m.pmap)),
    keys-pruned n,
    elem-minus n a (firsts m.pmap),
  )

  -- It looks at them in increasing order, and at none twice.
  pub entries-Increasing : Distinct a → DistinctFirsts m.pmap → Increasing (entries a m)
  unfolding entries
  entries-Increasing ha hm = sorted-Increasing _ (
      listed-DistinctFirsts (pruned a m) (minus a (firsts m.pmap))
        (unfold pruned in
          remove_all-DistinctFirsts m.pids_reused _
            (remove_all-DistinctFirsts (minus (firsts m.pmap) a) m.pmap hm))
        (minus-Distinct a (firsts m.pmap) ha)
        (λ n e. ground (arith, keys-pruned n, elem-minus n a (firsts m.pmap))))
