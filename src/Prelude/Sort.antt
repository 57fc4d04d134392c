-- ===== src/Prelude/Sort.antt =====
-- Python's `sorted` on pairs whose first parts are numbers that differ, and on numbers.
use psutil.Prelude.{ℕ, ◌<◌, ◌≡◌, refl, false, List, [], ◌∷◌, leb, if◌then◌else◌, arith, map, elem}

module _ {A : Type 0} where
  unfoldable pub insert_by : ℕ × A → List (ℕ × A) → List (ℕ × A)
  insert_by x [] = x ∷ []
  insert_by x (y ∷ l) = let rest = insert_by x l in if leb x.0 y.0 then x ∷ y ∷ l else y ∷ rest

  unfoldable pub sorted : List (ℕ × A) → List (ℕ × A)
  unfolding insert_by
  sorted [] = []
  sorted (x ∷ l) = insert_by x (sorted l)

  abbrev pub firsts : List (ℕ × A) → List ℕ
  firsts = map (λ x. x.0)

  -- `n` stands below every first part.
  abbrev pub Below : ℕ → List (ℕ × A) → Type 0
  Below n [] = Unit
  Below n (x ∷ l) = (n < x.0) × Below n l

  abbrev pub Increasing : List (ℕ × A) → Type 0
  Increasing [] = Unit
  Increasing (x ∷ l) = Below x.0 l × Increasing l

  abbrev pub DistinctFirsts : List (ℕ × A) → Type 0
  DistinctFirsts [] = Unit
  DistinctFirsts (x ∷ l) = (elem x.0 (firsts l) ≡ false) × DistinctFirsts l

  pub elem-insert_by :
      (n : ℕ) (x : ℕ × A) (l : List (ℕ × A))
      → elem n (firsts (insert_by x l)) ≡ elem n (x.0 ∷ firsts l)
  unfolding insert_by elem
  elem-insert_by n x [] = refl
  elem-insert_by n x (y ∷ l) = ground (arith, elem-insert_by n x l)

  pub elem-sorted : (n : ℕ) (l : List (ℕ × A)) → elem n (firsts (sorted l)) ≡ elem n (firsts l)
  unfolding sorted elem
  elem-sorted n [] = refl
  elem-sorted n (x ∷ l) = ground (arith, elem-insert_by n x (sorted l), elem-sorted n l)

  Below-lt : (m n : ℕ) (l : List (ℕ × A)) → m < n → Below n l → Below m l
  Below-lt m n [] h b = tt
  Below-lt m n (x ∷ l) h b = (omega arith, Below-lt m n l h b.1)

  Below-insert_by :
      (n : ℕ) (x : ℕ × A) (l : List (ℕ × A)) → n < x.0 → Below n l → Below n (insert_by x l)
  unfolding insert_by
  Below-insert_by n x [] h b = (h, tt)
  Below-insert_by n x (y ∷ l) h b = ground (arith, Below-insert_by n x l h b.1)

  insert_by-Increasing :
      (x : ℕ × A) (l : List (ℕ × A))
      → elem x.0 (firsts l) ≡ false
      → Increasing l
      → Increasing (insert_by x l)
  unfolding insert_by elem
  insert_by-Increasing x [] h i = (tt, tt)
  insert_by-Increasing x (y ∷ l) h i =
      ground (arith, insert_by-Increasing x l, Below-insert_by y.0 x l, Below-lt x.0 y.0 l)

  pub sorted-Increasing : (l : List (ℕ × A)) → DistinctFirsts l → Increasing (sorted l)
  unfolding sorted
  sorted-Increasing [] d = tt
  sorted-Increasing (x ∷ l) d =
      insert_by-Increasing x (sorted l) (ground (arith, elem-sorted x.0 l))
        (sorted-Increasing l d.1)
