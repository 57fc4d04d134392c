-- ===== src/Process/Setters/Sorted.antt =====
-- `sorted(set(cpus))` is increasing, and has the same CPUs.
use psutil.Prelude.{ℕ, ◌≡◌, ◌<◌, refl, true, List, [], ◌∷◌, arith, elem, ite, ℕ_discrete}
use psutil.Process.Setters.{put_sorted, sorted_set}

abbrev pub Below : ℕ → List ℕ → Type 0
Below n [] = Unit
Below n (x ∷ l) = (n < x) × Below n l

abbrev pub Increasing : List ℕ → Type 0
Increasing [] = Unit
Increasing (x ∷ l) = Below x l × Increasing l

elem-put_sorted :
    (j n : ℕ) (l : List ℕ) → elem j (put_sorted n l) ≡ ite (ℕ_discrete n j) true (elem j l)
unfolding put_sorted elem
elem-put_sorted j n [] = refl
elem-put_sorted j n (x ∷ l) = ground (arith, elem-put_sorted j n l)

pub elem-sorted_set : (j : ℕ) (l : List ℕ) → elem j (sorted_set l) ≡ elem j l
unfolding sorted_set elem
elem-sorted_set j [] = refl
elem-sorted_set j (n ∷ l) = ground (arith, elem-put_sorted j n (sorted_set l), elem-sorted_set j l)

Below-lt : (m n : ℕ) (l : List ℕ) → m < n → Below n l → Below m l
Below-lt m n [] h b = tt
Below-lt m n (x ∷ l) h b = (omega arith, Below-lt m n l h b.1)

Below-put_sorted : (m n : ℕ) (l : List ℕ) → m < n → Below m l → Below m (put_sorted n l)
unfolding put_sorted
Below-put_sorted m n [] h b = (h, tt)
Below-put_sorted m n (x ∷ l) h b = ground (arith, Below-put_sorted m n l h b.1)

put_sorted-Increasing : (n : ℕ) (l : List ℕ) → Increasing l → Increasing (put_sorted n l)
unfolding put_sorted
put_sorted-Increasing n [] h = (tt, tt)
put_sorted-Increasing n (x ∷ l) h =
    ground (arith, h.0, h.1, put_sorted-Increasing n l h.1, Below-put_sorted x n l, Below-lt n x l)

increasing : (l : List ℕ) → Increasing (sorted_set l)
unfolding sorted_set
increasing [] = tt
increasing (n ∷ l) = put_sorted-Increasing n (sorted_set l) (increasing l)

-- What the getter of cpu_affinity returns is increasing, so that no CPU is in it twice, and has just the
-- CPUs that the platform listed.
pub sorted_set-Increasing :
    (l : List ℕ) → Increasing (sorted_set l) × ((j : ℕ) → elem j (sorted_set l) ≡ elem j l)
sorted_set-Increasing l = (increasing l, λ j. elem-sorted_set j l)
