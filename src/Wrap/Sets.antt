-- ===== src/Wrap/Sets.antt =====
-- The sets of reminder keys, and deleting what they hold.
use psutil.Prelude.{
  ℕ, true, false, none, ◌≡◌, ◌≢◌, List, [], ◌∷◌, refl, ite, arith, ok, if◌then◌else◌, Bool-cases,
  Option-cases, inl, inr,
}
use psutil.Prelude.Dict.{Dict, lookup, erase, lookup-erase}
use psutil.Wrap.{RemKey, dec_remkey, contains, add, drop_totals}

module _ {K : Type 0} (dec : Discrete K) where
  -- No element stands twice.
  abbrev pub Distinct : List (RemKey K) → Type 0
  Distinct [] = Unit
  Distinct (x ∷ xs) = (contains dec x xs ≡ false) × Distinct xs

  pub contains-add :
      (r q : RemKey K) (rs : List (RemKey K))
      → contains dec q (add dec r rs) ≡ ite (dec_remkey dec r q) true (contains dec q rs)
  unfolding add
  contains-add r q rs = elim (dec_remkey dec r q) [ yes p ↦ ground arith | no p ↦ ground arith ]

  pub add-Distinct : (r : RemKey K) (rs : List (RemKey K)) → Distinct rs → Distinct (add dec r rs)
  unfolding add
  add-Distinct r rs d = elim (Bool-cases (contains dec r rs)) [
    | inl e ↦ rw e d
    | inr e ↦ rw e (e, d)
  ]

  -- Every element of the set has a total, so none of the deletions fails, and exactly the totals of
  -- the elements are gone.
  pub drop_totals_total :
      (rs : List (RemKey K)) (t : Dict (RemKey K) ℕ)
      → Distinct rs
      → ((r : RemKey K) → contains dec r rs ≡ true → lookup (dec_remkey dec) r t ≢ none)
      → (t' : Dict (RemKey K) ℕ) × (drop_totals dec rs t ≡ ok t')
        × ((r : RemKey K)
            → lookup (dec_remkey dec) r t'
              ≡ (if contains dec r rs then none else lookup (dec_remkey dec) r t))
  unfolding drop_totals contains
  drop_totals_total [] t d h = (t, refl, λ r. refl)
  drop_totals_total (x ∷ rs) t d h = elim (Option-cases (lookup (dec_remkey dec) x t)) [
    | inl missing ↦ absurd (h x (ground arith) missing)
    | inr (n, found) ↦
        let (t', done, spec) =
          drop_totals_total rs (erase (dec_remkey dec) x t) d.1
            (λ r m. ground (arith, lookup-erase (dec_remkey dec) x r t, h r, d.0)) in
        (
          t',
          rw (found, drop_totals) done,
          λ r. ground (arith, spec r, lookup-erase (dec_remkey dec) x r t),
        )
  ]
