-- ===== src/Process/Children/Walk.antt =====
-- The recursive case of `children`: the traversal ends, and finds exactly the descendants.
use psutil.Prelude.{
  ℕ, zero, suc, ◌+◌, ◌≤◌, ◌<◌, ◌≡◌, ◌⊎◌, ◌↔◌, inl, inr, refl, Bool, true, false, some, List, [],
  ◌∷◌, ◌++◌, Result, ok, err, if◌then◌else◌, elem, elem-append, length, arith, Bool-cases,
  Result-cases, ok-injective, ap, subst,
}
use psutil.Process.Children.{accept, PpidMap, kids, push_kids, walk, enough, descendants}

module _ (look : ℕ → Result ℕ) (ctime : ℕ) (m : PpidMap) where
  -- The map names `p` as the parent of `c`, and `c` can be queried and is not older than the process.
  abbrev pub IsKid : ℕ → ℕ → Type 0
  IsKid p c = (elem c (kids m p) ≡ true) × (accept ctime (look c) ≡ ok true)

  pub data Descends (root : ℕ) : ℕ → Type 0 where
    child : {c : ℕ} → IsKid root c → Descends root c
    deeper : {p c : ℕ} → Descends root p → IsKid p c → Descends root c

  abbrev intime : Result Bool → Bool
  intime (ok b) = b
  intime (err e) = false

  pub record Pushed (l ret stack ret' stack' : List ℕ) : Type 0 where
    pub found :
        (c : ℕ)
        → elem c ret' ≡ (
            if elem c ret
            then true
            else (if elem c l then intime (accept ctime (look c)) else false))
    pub pushed :
        (c : ℕ)
        → elem c stack' ≡ (
            if elem c stack
            then true
            else (if elem c l then intime (accept ctime (look c)) else false))
    pub short : length stack' ≤ length stack + length l

  push_kids-Pushed :
      (l ret stack ret' stack' : List ℕ)
      → push_kids look ctime l ret stack ≡ ok (ret', stack')
      → Pushed l ret stack ret' stack'
  unfolding push_kids elem
  push_kids-Pushed [] ret stack ret' stack' h = record {
    found = λ c. ground arith;
    pushed = λ c. ground arith;
    short = omega (arith, ap (λ (q : List ℕ × List ℕ). length q.1) (ok-injective _ _ h));
  }
  push_kids-Pushed (x ∷ l) ret stack ret' stack' h = elim (Result-cases (accept ctime (look x))) [
    | inr (e, raised) ↦ absurd (cc (rw raised at h))
    | inl (true, yes_) ↦
        let p = push_kids-Pushed l (ret ++ x ∷ []) (x ∷ stack) ret' stack' (rw yes_ at h) in
        record {
          found = λ c. ground (arith, p.found c, elem-append c ret (x ∷ []));
          pushed = λ c. ground (arith, p.pushed c);
          short = omega (arith, p.short);
        }
    | inl (false, no_) ↦
        let p = push_kids-Pushed l ret stack ret' stack' (rw no_ at h) in
        record {
          found = λ c. ground (arith, p.found c);
          pushed = λ c. ground (arith, p.pushed c);
          short = omega (arith, p.short);
        }
  ]

  -- The entries of the map whose parent was not looked at yet.
  pending : PpidMap → List ℕ → ℕ
  pending [] seen = 0
  pending ((c, p) ∷ d) seen = let rest = pending d seen in if elem p seen then rest else suc rest

  pending-visit :
      (d : PpidMap) (p : ℕ) (seen : List ℕ)
      → elem p seen ≡ false
      → pending d (p ∷ seen) + length (kids d p) ≡ pending d seen
  unfolding pending kids elem
  pending-visit [] p seen h = omega arith
  pending-visit ((c, q) ∷ d) p seen h = ground (arith, pending-visit d p seen)

  pending-le : (d : PpidMap) (seen : List ℕ) → pending d seen ≤ length d
  unfolding pending
  pending-le [] seen = omega arith
  pending-le ((c, p) ∷ d) seen = ground (arith, pending-le d seen)

  -- Fuel beyond the stack and the pending entries is enough.
  walk_total :
      (fuel : ℕ) (stack seen ret : List ℕ)
      → length stack + pending m seen < fuel
      → (r : Result (List ℕ)) × (walk look ctime m fuel stack seen ret ≡ some r)
  unfolding walk
  walk_total zero stack seen ret h = absurd (omega arith)
  walk_total (suc fuel) [] seen ret h = (ok ret, refl)
  walk_total (suc fuel) (p ∷ stack) seen ret h = elim (Bool-cases (elem p seen)) [
    | inl old ↦
        let (r, done) = walk_total fuel stack seen ret (omega arith) in (r, rw (old, walk) done)
    | inr new ↦ elim (Result-cases (push_kids look ctime (kids m p) ret stack)) [
      | inr (e, raised) ↦ (err e, rw (new, walk) (rw raised refl))
      | inl ((ret', stack'), done) ↦
          let s = push_kids-Pushed (kids m p) ret stack ret' stack' done in
          let (r, rest) =
            walk_total fuel stack' (p ∷ seen) ret'
              (omega (arith, s.short, pending-visit m p seen new)) in
          (r, rw (new, walk) (rw done rest))
    ]
  ]

  module _ (root : ℕ) where
    -- What holds at the head of the loop.
    record Inv (stack seen ret : List ℕ) : Type 0 where
      rooted : (elem root seen ≡ true) ⊎ (elem root stack ≡ true)
      sound : (c : ℕ) → elem c ret ≡ true → Descends root c
      stacked : (p : ℕ) → elem p stack ≡ true → (p ≡ root) ⊎ Descends root p
      closed :
          (p c : ℕ)
          → elem p seen ≡ true
          → IsKid p c
          → (elem c ret ≡ true) × ((elem c seen ≡ true) ⊎ (elem c stack ≡ true))

    kid_of : (p c : ℕ) → (p ≡ root) ⊎ Descends root p → IsKid p c → Descends root c
    kid_of p c (inl e) k = child (rw (← e) k)
    kid_of p c (inr d) k = deeper d k

    Inv-skip :
        (p : ℕ) (stack seen ret : List ℕ)
        → elem p seen ≡ true
        → Inv (p ∷ stack) seen ret
        → Inv stack seen ret
    unfolding elem
    Inv-skip p stack seen ret old i = record {
      rooted = ground (arith, i.rooted);
      sound = i.sound;
      stacked = λ q e. i.stacked q (ground arith);
      closed = λ q c s k. ground (arith, i.closed q c s k);
    }

    Inv-visit :
        (p : ℕ) (stack seen ret stack' ret' : List ℕ)
        → Pushed (kids m p) ret stack ret' stack'
        → Inv (p ∷ stack) seen ret
        → Inv stack' (p ∷ seen) ret'
    unfolding elem
    Inv-visit p stack seen ret stack' ret' s i = record {
      rooted = ground (arith, i.rooted, s.pushed root);
      sound = λ c e. elim (Bool-cases (elem c ret)) [
        | inl old ↦ i.sound c old
        | inr new ↦
            kid_of p c (i.stacked p (ground arith))
              (ground (arith, s.found c), ground (arith, s.found c))
      ];
      stacked = λ q e. elim (Bool-cases (elem q stack)) [
        | inl old ↦ i.stacked q (ground arith)
        | inr new ↦ inr (
            kid_of p q (i.stacked p (ground arith))
              (ground (arith, s.pushed q), ground (arith, s.pushed q)))
      ];
      closed = λ q c e k. ground (arith, i.closed q c, s.found c, s.pushed c);
    }

    walk-Inv :
        (fuel : ℕ) (stack seen ret ret' : List ℕ)
        → Inv stack seen ret
        → walk look ctime m fuel stack seen ret ≡ some (ok ret')
        → (seen' : List ℕ) × Inv [] seen' ret'
    unfolding walk
    walk-Inv zero stack seen ret ret' i h = absurd (cc)
    walk-Inv (suc fuel) [] seen ret ret' i h =
        let e : ret ≡ ret' = ground arith in (seen, subst (Inv [] seen) e i)
    walk-Inv (suc fuel) (p ∷ stack) seen ret ret' i h = elim (Bool-cases (elem p seen)) [
      | inl old ↦
          walk-Inv fuel stack seen ret ret' (Inv-skip p stack seen ret old i) (rw (old, walk) at h)
      | inr new ↦ elim (Result-cases (push_kids look ctime (kids m p) ret stack)) [
        | inr (e, raised) ↦ absurd (cc (rw (raised, walk) at (rw (new, walk) at h)))
        | inl ((ret₁, stack₁), done) ↦
            let s = push_kids-Pushed (kids m p) ret stack ret₁ stack₁ done in
            walk-Inv fuel stack₁ (p ∷ seen) ret₁ ret' (Inv-visit p stack seen ret stack₁ ret₁ s i)
              (rw (done, walk) at (rw (new, walk) at h))
      ]
    ]

    Inv-start : Inv (root ∷ []) [] []
    unfolding elem
    Inv-start = record {
      rooted = ground arith;
      sound = λ c e. absurd (cc);
      stacked = λ p e. ground arith;
      closed = λ p c e k. absurd (cc);
    }

    Descends-found :
        (seen ret : List ℕ) (c : ℕ)
        → Inv [] seen ret
        → Descends root c
        → (elem c ret ≡ true) × (elem c seen ≡ true)
    unfolding elem
    Descends-found seen ret c i (child k) = ground (arith, i.rooted, i.closed root c)
    Descends-found seen ret c i (deeper {p = p} d k) =
        ground (arith, Descends-found seen ret p i d, i.closed p c)

    -- The traversal never runs out of its fuel; and unless a query raises something else than
    -- "no such process" or "zombie", it returns exactly the descendants: those that a chain of
    -- entries of the map joins to the process, each link of which can be queried and is not older.
    pub descendants_total : (r : Result (List ℕ)) × (descendants look ctime m root ≡ some r)
    unfolding descendants elem
    descendants_total =
        walk_total (enough look ctime m) (root ∷ []) [] [] (omega (arith, pending-le m []))

    pub descendants_iff :
        (ret : List ℕ) (c : ℕ)
        → descendants look ctime m root ≡ some (ok ret)
        → (elem c ret ≡ true) ↔ Descends root c
    unfolding descendants
    descendants_iff ret c h =
        let (seen, i) = walk-Inv (enough look ctime m) (root ∷ []) [] [] ret Inv-start h in
        (i.sound c, λ d. (Descends-found seen ret c i d).0)
