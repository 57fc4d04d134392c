-- ===== src/Wrap/Rerun.antt =====
-- A call after the first one, over the dicts of one name.
use psutil.Prelude.{
  ℕ, ◌+◌, Option, none, some, ◌≡◌, ◌⊎◌, List, [], arith, ok, get_elem?, Option-cases, inl, inr,
}
use psutil.Prelude.Dict.{lookup}
use psutil.Wrap.{Table, Reminders, total, keys_of, contains, rerun}
use psutil.Wrap.Dead.{IsTracked, Pruned, remove_dead_total}
use psutil.Wrap.Adjust.{wrapped}
use psutil.Wrap.Loop.{IsDict, Fits, Looped, adjust_all_total}

module _ {K : Type 0} (dec : Discrete K) where
  -- `d[k][j]`, if it is there.
  unfoldable pub counter : K → ℕ → Table K → Option ℕ
  counter k j d = elim (lookup dec k d) [ none ↦ none | some xs ↦ get_elem? xs j ]

  -- Only keys of the last input have reminders.
  pub record IsKnown (old : Table K) (rem : Reminders K) : Type 0 where
    pub known : (k : K) → lookup dec k old ≡ none → keys_of dec k rem ≡ []

  pub total-unknown :
      (k : K) (j : ℕ) (rem : Reminders K)
      → IsTracked dec rem
      → keys_of dec k rem ≡ []
      → total dec (k, j) rem ≡ 0
  unfolding contains
  total-unknown k j rem h e = ground (arith, h.tracked k j)

  pub record Rerun (input old new : Table K) (rem rem' : Reminders K) : Type 0 where
    pub values :
        (k : K) (j x : ℕ)
        → counter k j input ≡ some x
        → (lookup dec k old ≡ none) ⊎ ((o : ℕ) × (counter k j old ≡ some o))
        → counter k j new ≡ some (x + total dec (k, j) rem')
    pub grows :
        (k : K) (j x o : ℕ)
        → counter k j input ≡ some x
        → counter k j old ≡ some o
        → total dec (k, j) rem' ≡ total dec (k, j) rem + wrapped x o
    pub restarts : (k : K) (j : ℕ) → lookup dec k old ≡ none → total dec (k, j) rem' ≡ 0

  module _ (input old new : Table K) (rem rem₁ rem' : Reminders K) (known : IsKnown old rem)
      (p : Pruned dec old input rem rem₁) (l : Looped dec input old [] new rem₁ rem')
      (h : IsTracked dec rem') where
    rerun-IsKnown : IsKnown input rem'
    rerun-IsKnown = record {
      known = λ k e. elim (Option-cases (lookup dec k old)) [
        | inl missing ↦ ground (arith, known.known k, p.still k, l.absent k)
        | inr (os, there) ↦ ground (arith, p.gone k, l.absent k)
      ];
    }

    unknown_before : (k : K) → lookup dec k old ≡ none → keys_of dec k rem₁ ≡ []
    unknown_before k e = p.still k (known.known k e)

    unknown_after : (k : K) → lookup dec k old ≡ none → keys_of dec k rem' ≡ []
    unknown_after k e = elim (Option-cases (lookup dec k input)) [
      | inl missing ↦ ground (arith, unknown_before k, l.absent k)
      | inr (xs, there) ↦ ground (arith, unknown_before k, l.fresh k xs)
    ]

    rerun-restarts : (k : K) (j : ℕ) → lookup dec k old ≡ none → total dec (k, j) rem' ≡ 0
    rerun-restarts k j e = total-unknown k j rem' h (unknown_after k e)

    counter_cases :
        (k : K) (j x : ℕ) (d : Table K)
        → counter k j d ≡ some x
        → (xs : List ℕ) × (lookup dec k d ≡ some xs) × (get_elem? xs j ≡ some x)
    unfolding counter
    counter_cases k j x d e = elim (Option-cases (lookup dec k d)) [
      | inl missing ↦ ground arith
      | inr (xs, there) ↦ (xs, there, ground arith)
    ]

    rerun-grows :
        (k : K) (j x o : ℕ)
        → counter k j input ≡ some x
        → counter k j old ≡ some o
        → (total dec (k, j) rem' ≡ total dec (k, j) rem + wrapped x o)
          × (counter k j new ≡ some (x + total dec (k, j) rem'))
    unfolding counter
    rerun-grows k j x o ex eo =
        let (xs, inp, gx) = counter_cases k j x input ex in
        let (os, pre, go) = counter_cases k j o old eo in
        let (bits, out, c) = l.counted k xs os inp pre in ground (arith, c.at j x o, p.kept k j)

    rerun-values :
        (k : K) (j x : ℕ)
        → counter k j input ≡ some x
        → (lookup dec k old ≡ none) ⊎ ((o : ℕ) × (counter k j old ≡ some o))
        → counter k j new ≡ some (x + total dec (k, j) rem')
    unfolding counter
    rerun-values k j x ex (inl first) =
        let (xs, inp, gx) = counter_cases k j x input ex in
        ground (arith, l.fresh k xs, rerun-restarts k j)
    rerun-values k j x ex (inr (o, eo)) = (rerun-grows k j x o ex eo).1

  pub rerun_total :
      (input old : Table K) (rem : Reminders K)
      → IsDict dec input
      → Fits dec input old
      → IsTracked dec rem
      → IsKnown old rem
      → (new : Table K) × (rem' : Reminders K) × (rerun dec input old rem ≡ ok (new, rem'))
        × IsTracked dec rem'
        × IsKnown input rem'
        × Rerun input old new rem rem'
  unfolding rerun
  rerun_total input old rem u fits h known =
      let (rem₁, done₁, h₁, p) = remove_dead_total dec old input rem h in
      let (new, rem', done, h', l) = adjust_all_total dec input old [] rem₁ u fits h₁ in
      (
        new,
        rem',
        rw done₁ done,
        h',
        rerun-IsKnown input old new rem rem₁ rem' known p l h',
        record {
          values = rerun-values input old new rem rem₁ rem' known p l h';
          grows = λ k j x o ex eo.
              (rerun-grows input old new rem rem₁ rem' known p l h' k j x o ex eo).0;
          restarts = rerun-restarts input old new rem rem₁ rem' known p l h';
        },
      )
