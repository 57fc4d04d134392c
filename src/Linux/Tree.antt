-- ===== src/Linux/Tree.antt =====
-- `Process.children` of psutil/__init__.py on what `ppid_map` of psutil/_pslinux.py returns.
use psutil.Prelude.{
  ℕ, ◌≡◌, ◌↔◌, inl, inr, refl, sym, ap, ◌∙◌, subst, Bool, true, false, Option, none, some, List, [],
  ◌∷◌, Result, ok, err, arith, ℕ_discrete, elem, ite, if◌then◌else◌, ok-injective, Result-cases,
}
use psutil.Prelude.Dict.{Dict, lookup, insert}
use psutil.Prelude.Sort.{firsts, DistinctFirsts}
use psutil.Text.{Bytes}
use psutil.Linux.Files.{OsError, Read, content, failed}
use psutil.Linux.Stat.{note_parent, ppid_map, stored, read_ppid, fields_of}
use psutil.Linux.Stat.Parents.{AllRead, ppid_map-lookup}
use psutil.Process.Children.{accept, kids, descendants}
use psutil.Process.Children.Walk.{Descends, child, deeper, descendants_iff}

elem-firsts-insert :
    (j k v : ℕ) (d : Dict ℕ ℕ)
    → elem j (firsts (insert ℕ_discrete k v d)) ≡ ite (ℕ_discrete k j) true (elem j (firsts d))
unfolding insert elem
elem-firsts-insert j k v [] = refl
elem-firsts-insert j k v ((i, w) ∷ d) = ground (arith, elem-firsts-insert j k v d)

insert-DistinctFirsts :
    (k v : ℕ) (d : Dict ℕ ℕ) → DistinctFirsts d → DistinctFirsts (insert ℕ_discrete k v d)
unfolding insert elem
insert-DistinctFirsts k v [] h = (refl, tt)
insert-DistinctFirsts k v ((i, w) ∷ d) h =
    ground (arith, h.0, h.1, insert-DistinctFirsts k v d h.1, elem-firsts-insert i k v d)

elem-kids-firsts : (c p : ℕ) (d : Dict ℕ ℕ) → elem c (kids d p) ≡ true → elem c (firsts d) ≡ true
unfolding elem kids
elem-kids-firsts c p [] h = h
elem-kids-firsts c p ((i, w) ∷ d) h = ground (arith, h, elem-kids-firsts c p d)

-- The children of `p` are the keys whose value is `p`.
elem-kids→lookup :
    (c p : ℕ) (d : Dict ℕ ℕ)
    → DistinctFirsts d
    → elem c (kids d p) ≡ true
    → lookup ℕ_discrete c d ≡ some p
unfolding elem kids lookup
elem-kids→lookup c p [] u h = absurd (ground (arith, h))
elem-kids→lookup c p ((i, w) ∷ d) u h =
    ground (arith, h, u.0, elem-kids-firsts c p d, elem-kids→lookup c p d u.1)

lookup→elem-kids :
    (c p : ℕ) (d : Dict ℕ ℕ) → lookup ℕ_discrete c d ≡ some p → elem c (kids d p) ≡ true
unfolding elem kids lookup
lookup→elem-kids c p [] h = absurd (ground (arith, h))
lookup→elem-kids c p ((i, w) ∷ d) h = ground (arith, h, lookup→elem-kids c p d)

stored-DistinctFirsts :
    (pid : ℕ) (d d' : Dict ℕ ℕ) (r : Result ℕ)
    → DistinctFirsts d
    → stored pid d r ≡ ok d'
    → DistinctFirsts d'
stored-DistinctFirsts pid d d' (ok ppid) u h =
    subst DistinctFirsts (ok-injective _ d' h) (insert-DistinctFirsts pid ppid d u)
stored-DistinctFirsts pid d d' (err e) u h = absurd (ground (arith, h))

note_parent-DistinctFirsts :
    (pid : ℕ) (r : Read Bytes) (d d' : Dict ℕ ℕ)
    → DistinctFirsts d
    → note_parent pid r d ≡ ok d'
    → DistinctFirsts d'
unfolding note_parent
note_parent-DistinctFirsts pid (content stat) d d' u h =
    stored-DistinctFirsts pid d d' (read_ppid (fields_of stat)) u h
note_parent-DistinctFirsts pid (failed OsError.not_found) d d' u h =
    subst DistinctFirsts (ok-injective d d' h) u
note_parent-DistinctFirsts pid (failed OsError.lookup) d d' u h =
    subst DistinctFirsts (ok-injective d d' h) u
note_parent-DistinctFirsts pid (failed OsError.permission) d d' u h = absurd (ground (arith, h))
note_parent-DistinctFirsts pid (failed OsError.invalid) d d' u h = absurd (ground (arith, h))
note_parent-DistinctFirsts pid (failed OsError.name_too_long) d d' u h = absurd (ground (arith, h))
note_parent-DistinctFirsts pid (failed OsError.other) d d' u h = absurd (ground (arith, h))

module _ (stat : ℕ → Read Bytes) where
  ppid_map-DistinctFirsts :
      (pids : List ℕ) (d d' : Dict ℕ ℕ)
      → DistinctFirsts d
      → ppid_map stat pids d ≡ ok d'
      → DistinctFirsts d'
  unfolding ppid_map
  ppid_map-DistinctFirsts [] d d' u h = subst DistinctFirsts (ok-injective d d' h) u
  ppid_map-DistinctFirsts (pid ∷ pids) d d' u h =
      elim (Result-cases (note_parent pid (stat pid) d)) [
        | inl (d1, e) ↦
            ppid_map-DistinctFirsts pids d1 d' (note_parent-DistinctFirsts pid (stat pid) d d1 u e)
              (rw e at h)
        | inr (x, e) ↦ absurd (cc (rw e at h))
      ]

module _ (stat : ℕ → Read Bytes) (parent : ℕ → Option ℕ) (pids : List ℕ) (look : ℕ → Result ℕ)
    (ctime : ℕ) where
  -- The process `c` was listed, the kernel says that `p` is its parent, and it can be queried and is not
  -- older than the process whose children are asked for.
  pub record IsChild (p c : ℕ) : Type 0 where
    pub listed : elem c pids ≡ true
    pub parent_eq : parent c ≡ some p
    pub in_time : accept ctime (look c) ≡ ok true

  pub data Below (root : ℕ) : ℕ → Type 0 where
    one : {c : ℕ} → IsChild root c → Below root c
    more : {p c : ℕ} → Below root p → IsChild p c → Below root c

  listed_parent :
      (c p : ℕ) (t : Bool)
      → (if t then parent c else none) ≡ some p
      → (t ≡ true) × (parent c ≡ some p)
  listed_parent c p true h = (refl, h)
  listed_parent c p false h = absurd (ground (arith, h))

  module _ (d : Dict ℕ ℕ) (u : DistinctFirsts d)
      (at : (j : ℕ) → lookup ℕ_discrete j d ≡ (if elem j pids then parent j else none)) where
    kid-IsChild :
        (p c : ℕ) → elem c (kids d p) ≡ true → accept ctime (look c) ≡ ok true → IsChild p c
    kid-IsChild p c k a =
        let (l, e) = listed_parent c p (elem c pids) (sym (at c) ∙ elem-kids→lookup c p d u k) in
        record { listed = l; parent_eq = e; in_time = a }

    child-kid : (p c : ℕ) → IsChild p c → elem c (kids d p) ≡ true
    child-kid p c h =
        lookup→elem-kids c p d
          (at c ∙ ap (λ (t : Bool). if t then parent c else none) h.listed ∙ h.parent_eq)

    Descends-Below : (root c : ℕ) → Descends look ctime d root c → Below root c
    Descends-Below root c (child k) = one (kid-IsChild root c k.0 k.1)
    Descends-Below root c (deeper {p = p} h k) =
        more (Descends-Below root p h) (kid-IsChild p c k.0 k.1)

    Below-Descends : (root c : ℕ) → Below root c → Descends look ctime d root c
    Below-Descends root c (one h) = child (child-kid root c h, h.in_time)
    Below-Descends root c (more {p = p} b h) =
        deeper (Below-Descends root p b) (child-kid p c h, h.in_time)

  -- On Linux, where each stat file that ppid_map reads is well formed and others are missing because their
  -- process is gone: if the recursive traversal of children over that map returns a list, it holds exactly the
  -- PIDs that a chain of listed processes leads to from the process, each the parent of the next by its stat
  -- file, where each of the processes can be queried and is not older than the process itself.
  pub descendants-ppid_map :
      (root c : ℕ) (ret : List ℕ) (d : Dict ℕ ℕ)
      → AllRead stat parent pids
      → ppid_map stat pids [] ≡ ok d
      → descendants look ctime d root ≡ some (ok ret)
      → (elem c ret ≡ true) ↔ Below root c
  descendants-ppid_map root c ret d h e r =
      let (d', e', at) = ppid_map-lookup stat parent pids h in
      let same : d' ≡ d = ok-injective d' d (sym e' ∙ e) in
      let at' =
        subst
          (λ (m : Dict ℕ ℕ).
            (j : ℕ) → lookup ℕ_discrete j m ≡ (if elem j pids then parent j else none))
          same at in
      let u = ppid_map-DistinctFirsts stat pids [] d tt e in
      let (f, g) = descendants_iff look ctime d root ret c r in
      (λ x. Descends-Below d u at' root c (f x), λ b. g (Below-Descends d u at' root c b))
