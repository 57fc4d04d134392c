-- ===== src/ProcessIter/Cache.antt =====
-- What `process_iter` yields, and what it keeps between calls.
use psutil.Prelude.{
  ℕ, zero, suc, ◌<◌, ◌≡◌, ◌⊎◌, inl, inr, refl, true, false, Option, none, some, List, [], ◌∷◌, elem,
  ℕ_discrete, arith, sym, subst, Result, Error, Result-cases,
}
use psutil.Prelude.Int.{pos}
use psutil.Prelude.Dict.{Dict, lookup, insert, erase, lookup-insert, lookup-erase}
use psutil.Prelude.Sort.{firsts, Increasing, Below}
use psutil.Platform.{Platform}
use psutil.Process.Defs.{Process, Kernel, Value}
use psutil.Process.Identity.{init}
use psutil.Process.Identity.Birth.{init-IsFresh}
use psutil.Process.AsDict.{Info}
use psutil.ProcessIter.{visit, Visit, give, skip, drop, fail, iterate}

-- The same object: only what `process_iter` prefetches may differ.
abbrev pub Same : Process → Process → Type 0
Same p q = q ≡ record p { prefetch = q.prefetch; ad_value = q.ad_value }

-- Every cached object stands under its own PID.
abbrev pub Matches : List (ℕ × Process) → Type 0
Matches [] = Unit
Matches (e ∷ d) = (e.1.pid ≡ e.0) × Matches d

abbrev pub MatchesEntry : ℕ × Option Process → Type 0
MatchesEntry (n, none) = Unit
MatchesEntry (n, some p) = p.pid ≡ n

abbrev pub MatchesAll : List (ℕ × Option Process) → Type 0
MatchesAll [] = Unit
MatchesAll (e ∷ ls) = MatchesEntry e × MatchesAll ls

-- The PIDs of a list of processes, in increasing order and all above `n`.
abbrev pub Above : ℕ → List Process → Type 0
Above n [] = Unit
Above n (p ∷ l) = (n < p.pid) × Above n l

abbrev pub Ascending : List Process → Type 0
Ascending [] = Unit
Ascending (p ∷ l) = Above p.pid l × Ascending l

pub Visit-cases :
    (v : Visit)
    → ((p : Process) × (v ≡ give p))
      ⊎ ((v ≡ skip) ⊎ ((v ≡ drop) ⊎ ((e : Error) × (o : Option Process) × (v ≡ fail e o))))
Visit-cases (give p) = inl (p, refl)
Visit-cases skip = inr (inl refl)
Visit-cases drop = inr (inr (inl refl))
Visit-cases (fail e o) = inr (inr (inr (e, o, refl)))

-- What the table holds under `n` is `p`, up to prefetched values, or nothing.
abbrev pub Holds : ℕ → Process → Dict ℕ Process → Type 0
Holds n p d = (q : Process) → lookup ℕ_discrete n d ≡ some q → Same p q

abbrev pub Lists : ℕ → Process → List (ℕ × Option Process) → Type 0
Lists n p [] = Unit
Lists n p (e ∷ ls) = (e.0 ≡ n → e.1 ≡ some p) × Lists n p ls

-- Every yielded process stands under a PID that was listed.
abbrev pub Within : List (ℕ × Option Process) → List Process → Type 0
Within ls [] = Unit
Within ls (p ∷ l) = (elem p.pid (firsts ls) ≡ true) × Within ls l

Within-cons :
    (e : ℕ × Option Process) (ls : List (ℕ × Option Process)) (l : List Process)
    → Within ls l
    → Within (e ∷ ls) l
unfolding elem
Within-cons e ls [] w = tt
Within-cons e ls (p ∷ l) w = (ground arith, Within-cons e ls l w.1)

stores :
    (n : ℕ) (p : Process) (d : Dict ℕ Process) (k : ℕ) (q : Process)
    → Holds n p d
    → (k ≡ n → Same p q)
    → Holds n p (insert ℕ_discrete k q d)
stores n p d k q h s r f = elim (ℕ_discrete k n) [
  | yes same ↦ ground (arith, lookup-insert ℕ_discrete k n q d, s same)
  | no other ↦ ground (arith, lookup-insert ℕ_discrete k n q d, h r)
]

module _ (os : Platform) (at : ℕ → Kernel) (fetch : Option (Process → Result Info))
    (ad : Value) where
  pub visit-pid :
      (n : ℕ) (q : Option Process) (p : Process)
      → (visit os at fetch ad n q ≡ give p)
        ⊎ ((x : Error) × (visit os at fetch ad n q ≡ fail x (some p)))
      → MatchesEntry (n, q)
      → p.pid ≡ n
  unfolding visit
  visit-pid n (some p₀) p h m = ground arith
  visit-pid n none p h m = elim (Result-cases (init os (at n) false (some (pos n)))) [
    | inl (p₀, born) ↦ ground (arith, (init-IsFresh os (at n) n born).pid)
    | inr (e, raised) ↦ ground arith
  ]

  visit-Same :
      (k : ℕ) (o : Option Process) (p q : Process) (x : Error)
      → o ≡ some p
      → (visit os at fetch ad k o ≡ give q) ⊎ (visit os at fetch ad k o ≡ fail x (some q))
      → Same p q
  unfolding visit
  visit-Same k o p q x e h = ground arith

  pub iterate-Above :
      (k budget : ℕ) (ls : List (ℕ × Option Process)) (d : Dict ℕ Process)
      → Below k ls
      → MatchesAll ls
      → Above k (iterate os at fetch ad budget ls d).yielded
  unfolding iterate
  iterate-Above k budget [] d b m = tt
  iterate-Above k zero (e ∷ ls) d b m = tt
  iterate-Above k (suc budget) ((n, q) ∷ ls) d b m = elim (Visit-cases (visit os at fetch ad n q)) [
    | inl (p, e) ↦
        rw (e, iterate)
          (
            rw (visit-pid n q p (inl e) m.0) b.0,
            iterate-Above k budget ls (insert ℕ_discrete n p d) b.1 m.1,
          )
    | inr (inl e) ↦ rw (e, iterate) (iterate-Above k (suc budget) ls d b.1 m.1)
    | inr (inr (inl e)) ↦
        rw (e, iterate) (iterate-Above k (suc budget) ls (erase ℕ_discrete n d) b.1 m.1)
    | inr (inr (inr (x, none, e))) ↦ rw (e, iterate) tt
    | inr (inr (inr (x, some p, e))) ↦ rw (e, iterate) tt
  ]

  pub iterate-Ascending :
      (budget : ℕ) (ls : List (ℕ × Option Process)) (d : Dict ℕ Process)
      → Increasing ls
      → MatchesAll ls
      → Ascending (iterate os at fetch ad budget ls d).yielded
  unfolding iterate
  iterate-Ascending budget [] d i m = tt
  iterate-Ascending zero (e ∷ ls) d i m = tt
  iterate-Ascending (suc budget) ((n, q) ∷ ls) d i m =
      elim (Visit-cases (visit os at fetch ad n q)) [
        | inl (p, e) ↦
            rw (e, iterate)
              (
                subst
                    (λ t.
                      Above t (iterate os at fetch ad budget ls (insert ℕ_discrete n p d)).yielded)
                    (sym (visit-pid n q p (inl e) m.0))
                    (iterate-Above n budget ls (insert ℕ_discrete n p d) i.0 m.1),
                iterate-Ascending budget ls (insert ℕ_discrete n p d) i.1 m.1,
              )
        | inr (inl e) ↦ rw (e, iterate) (iterate-Ascending (suc budget) ls d i.1 m.1)
        | inr (inr (inl e)) ↦
            rw (e, iterate) (iterate-Ascending (suc budget) ls (erase ℕ_discrete n d) i.1 m.1)
        | inr (inr (inr (x, none, e))) ↦ rw (e, iterate) tt
        | inr (inr (inr (x, some p, e))) ↦ rw (e, iterate) tt
      ]

  pub iterate-Within :
      (budget : ℕ) (ls : List (ℕ × Option Process)) (d : Dict ℕ Process)
      → MatchesAll ls
      → Within ls (iterate os at fetch ad budget ls d).yielded
  unfolding iterate elem
  iterate-Within budget [] d m = tt
  iterate-Within zero (e ∷ ls) d m = tt
  iterate-Within (suc budget) ((n, q) ∷ ls) d m = elim (Visit-cases (visit os at fetch ad n q)) [
    | inl (p, e) ↦
        rw (e, iterate)
          (
            ground (arith, visit-pid n q p (inl e) m.0),
            Within-cons (n, q) ls _ (iterate-Within budget ls (insert ℕ_discrete n p d) m.1),
          )
    | inr (inl e) ↦ rw (e, iterate) (Within-cons (n, q) ls _ (iterate-Within (suc budget) ls d m.1))
    | inr (inr (inl e)) ↦
        rw (e, iterate)
          (Within-cons (n, q) ls _ (iterate-Within (suc budget) ls (erase ℕ_discrete n d) m.1))
    | inr (inr (inr (x, none, e))) ↦ rw (e, iterate) tt
    | inr (inr (inr (x, some p, e))) ↦ rw (e, iterate) tt
  ]

  pub iterate-Holds :
      (n : ℕ) (p : Process) (budget : ℕ) (ls : List (ℕ × Option Process)) (d : Dict ℕ Process)
      → Lists n p ls
      → Holds n p d
      → Holds n p (iterate os at fetch ad budget ls d).pmap
  unfolding iterate
  iterate-Holds n p budget [] d l h = h
  iterate-Holds n p zero (e ∷ ls) d l h = h
  iterate-Holds n p (suc budget) ((k, q) ∷ ls) d l h =
      elim (Visit-cases (visit os at fetch ad k q)) [
        | inl (p', e) ↦
            rw (e, iterate)
              (iterate-Holds n p budget ls (insert ℕ_discrete k p' d) l.1
                (stores n p d k p' h λ same. visit-Same k q p p' Error.os_error (l.0 same) (inl e)))
        | inr (inl e) ↦ rw (e, iterate) (iterate-Holds n p (suc budget) ls d l.1 h)
        | inr (inr (inl e)) ↦
            rw (e, iterate)
              (iterate-Holds n p (suc budget) ls (erase ℕ_discrete k d) l.1
                (λ r f. ground (arith, lookup-erase ℕ_discrete k n d, h r)))
        | inr (inr (inr (x, none, e))) ↦ rw (e, iterate) h
        | inr (inr (inr (x, some p', e))) ↦
            rw (e, iterate) (stores n p d k p' h λ same. visit-Same k q p p' x (l.0 same) (inr e))
      ]
