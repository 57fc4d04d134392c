-- ===== src/Wrap/Loop.antt =====
-- The loop over the keys of the input.
use psutil.Prelude.{
  ℕ, ◌+◌, ◌≤◌, none, some, ◌≡◌, List, [], ◌∷◌, refl, arith, ok, length, get_elem?, Option-cases,
  inl, inr,
}
use psutil.Prelude.Dict.{lookup, insert, lookup-insert}
use psutil.Wrap.{Table, Reminders, total, keys_of, adjust_all}
use psutil.Wrap.Dead.{IsTracked}
use psutil.Wrap.Adjust.{wrapped, Adjusted, adjust_total}

module _ {K : Type 0} (dec : Discrete K) where
  -- A dict has a key once.
  abbrev pub IsDict : Table K → Type 0
  IsDict [] = Unit
  IsDict ((k, _) ∷ d) = (lookup dec k d ≡ none) × IsDict d

  -- No key has more counters than it had before.
  abbrev pub Fits : Table K → Table K → Type 0
  Fits [] old = Unit
  Fits ((k, xs) ∷ d) old =
      ((os : List ℕ) → lookup dec k old ≡ some os → length xs ≤ length os) × Fits d old

  pub record Counted (xs os bits : List ℕ) (k : K) (rem rem' : Reminders K) : Type 0 where
    pub at :
        (j x o : ℕ)
        → get_elem? xs j ≡ some x
        → get_elem? os j ≡ some o
        → (total dec (k, j) rem' ≡ total dec (k, j) rem + wrapped x o)
          × (get_elem? bits j ≡ some (x + total dec (k, j) rem'))

  pub record Looped (input old new new' : Table K) (rem rem' : Reminders K) : Type 0 where
    pub absent :
        (k : K)
        → lookup dec k input ≡ none
        → (keys_of dec k rem' ≡ keys_of dec k rem) × (lookup dec k new' ≡ lookup dec k new)
    pub totals :
        (k : K) (j : ℕ) → lookup dec k input ≡ none → total dec (k, j) rem' ≡ total dec (k, j) rem
    pub fresh :
        (k : K) (xs : List ℕ)
        → lookup dec k input ≡ some xs
        → lookup dec k old ≡ none
        → (lookup dec k new' ≡ some xs) × (keys_of dec k rem' ≡ keys_of dec k rem)
    pub counted :
        (k : K) (xs os : List ℕ)
        → lookup dec k input ≡ some xs
        → lookup dec k old ≡ some os
        → (bits : List ℕ) × (lookup dec k new' ≡ some bits) × Counted xs os bits k rem rem'

  Looped-fresh :
      (key : K) (ys : List ℕ) (input old new new' : Table K) (rem rem' : Reminders K)
      → lookup dec key old ≡ none
      → lookup dec key input ≡ none
      → Looped input old (insert dec key ys new) new' rem rem'
      → Looped ((key, ys) ∷ input) old new new' rem rem'
  unfolding lookup
  Looped-fresh key ys input old new new' rem rem' first once l = record {
    absent = λ k e. ground (arith, l.absent k, lookup-insert dec key k ys new);
    totals = λ k j e. ground (arith, l.totals k j);
    fresh = λ k xs e f. ground (arith, l.fresh k xs, l.absent k, lookup-insert dec key k ys new);
    counted = λ k xs os e f. l.counted k xs os (ground arith) f;
  }

  module _ (key : K) (ys ps bits : List ℕ) (input old new new' : Table K)
      (rem rem₁ rem' : Reminders K) where
    Counted-head :
        (a : Adjusted dec key 0 ys ps rem rem₁ bits)
        → lookup dec key input ≡ none
        → Looped input old (insert dec key bits new) new' rem₁ rem'
        → (lookup dec key new' ≡ some bits) × Counted ys ps bits key rem rem'
    Counted-head a once l = (
      ground (arith, l.absent key, lookup-insert dec key key bits new),
      record {
        at = λ j x o hx ho.
            let e : 0 + j ≡ j = omega arith in
            ground (arith, (rw e at (a.at j x o)), l.totals key j);
      },
    )

    Looped-counted :
        Adjusted dec key 0 ys ps rem rem₁ bits
        → lookup dec key old ≡ some ps
        → lookup dec key input ≡ none
        → Looped input old (insert dec key bits new) new' rem₁ rem'
        → Looped ((key, ys) ∷ input) old new new' rem rem'
    unfolding lookup
    Looped-counted a found once l = record {
      absent = λ k e. ground (arith, l.absent k, a.keys_other k, lookup-insert dec key k bits new);
      totals = λ k j e. ground (arith, l.totals k j, a.totals_other k j);
      fresh = λ k xs e f.
          ground (arith, l.fresh k xs, l.absent k, a.keys_other k, lookup-insert dec key k ys new);
      counted = λ k xs os e f. elim (dec key k) [
        | yes same ↦
            let (there, c) = Counted-head a once l in
            (bits, ground arith, record { at = λ j x o hx ho. ground (arith, c.at j x o) })
        | no other ↦
            let (b, there, c) = l.counted k xs os (ground arith) f in
            (
              b,
              there,
              record { at = λ j x o hx ho. ground (arith, c.at j x o, a.totals_other k j) },
            )
      ];
    }

  -- The loop never fails, and every key is counted from what it was before.
  pub adjust_all_total :
      (input old new : Table K) (rem : Reminders K)
      → IsDict input
      → Fits input old
      → IsTracked dec rem
      → (new' : Table K) × (rem' : Reminders K) × (adjust_all dec input old new rem
          ≡ ok (new', rem'))
        × IsTracked dec rem'
        × Looped input old new new' rem rem'
  unfolding adjust_all lookup
  adjust_all_total [] old new rem u fits h = (
    new,
    rem,
    refl,
    h,
    record {
      absent = λ k e. (refl, refl);
      totals = λ k j e. refl;
      fresh = λ k xs e f. cc;
      counted = λ k xs os e f. absurd (cc);
    },
  )
  adjust_all_total ((key, ys) ∷ input) old new rem u fits h =
      elim (Option-cases (lookup dec key old)) [
        | inl first ↦
            let (new', rem', done, tracked, l) =
              adjust_all_total input old (insert dec key ys new) rem u.1 fits.1 h in
            (
              new',
              rem',
              rw (first, adjust_all) done,
              tracked,
              Looped-fresh key ys input old new new' rem rem' first u.0 l,
            )
        | inr (ps, found) ↦
            let (bits, rem₁, done₁, tracked₁, a) =
              adjust_total dec key 0 ys ps rem (fits.0 ps found) h in
            let (new', rem', done, tracked, l) =
              adjust_all_total input old (insert dec key bits new) rem₁ u.1 fits.1 tracked₁ in
            (
              new',
              rem',
              rw (found, adjust_all) (rw done₁ done),
              tracked,
              Looped-counted key ys ps bits input old new new' rem rem₁ rem' a found u.0 l,
            )
      ]
