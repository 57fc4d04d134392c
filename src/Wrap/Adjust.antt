-- ===== src/Wrap/Adjust.antt =====
-- The loop over the counters of one key.
use psutil.Prelude.{
  ℕ, zero, suc, ◌+◌, ◌≤◌, ◌<◌, some, ◌≡◌, ◌≢◌, List, [], ◌∷◌, refl, ite, arith, ok, ltb, length,
  get_elem?, if◌then◌else◌, Bool-cases, inl, inr, if_pos, if_neg,
}
use psutil.Prelude.Dict.{lookup, lookup-insert}
use psutil.Wrap.{RemKey, Reminders, dec_remkey, add, total, keys_of, bump, adjust}
use psutil.Wrap.Sets.{Distinct, contains-add, add-Distinct}
use psutil.Wrap.Dead.{IsTracked}

-- What a counter that went from `o` to `x` adds to its reminder.
abbrev pub wrapped : ℕ → ℕ → ℕ
wrapped x o = if ltb x o then o else 0

module _ {K : Type 0} (dec : Discrete K) where
  module _ (key : K) (i x o : ℕ) (rem : Reminders K) where
    bump-total :
        (k : K) (j : ℕ)
        → total dec (k, j) (bump dec key i x o rem)
          ≡ ite
              (dec_remkey dec (key, i) (k, j))
              (total dec (key, i) rem + wrapped x o)
              (total dec (k, j) rem)
    unfolding bump total
    bump-total k j = ground (
      arith,
      lookup-insert (dec_remkey dec) (key, i) (k, j) (total dec (key, i) rem + o) rem.totals,
      lookup-insert (dec_remkey dec) (key, i) (k, j) (total dec (key, i) rem) rem.totals,
    )

    bump-keys :
        (k : K)
        → keys_of dec k (bump dec key i x o rem)
          ≡ ite
              (dec key k)
              (if ltb x o then add dec (key, i) (keys_of dec key rem) else keys_of dec key rem)
              (keys_of dec k rem)
    unfolding bump keys_of
    bump-keys k =
        ground (arith, lookup-insert dec key k (add dec (key, i) (keys_of dec key rem)) rem.keys)

    bump-lookup :
        (r : RemKey K)
        → lookup (dec_remkey dec) r (bump dec key i x o rem).totals
          ≡ ite
              (dec_remkey dec (key, i) r)
              (some (total dec (key, i) rem + wrapped x o))
              (lookup (dec_remkey dec) r rem.totals)
    unfolding bump
    bump-lookup r = ground (
      arith,
      lookup-insert (dec_remkey dec) (key, i) r (total dec (key, i) rem + o) rem.totals,
      lookup-insert (dec_remkey dec) (key, i) r (total dec (key, i) rem) rem.totals,
    )

    bump-Distinct :
        IsTracked dec rem → (k : K) → Distinct dec (keys_of dec k (bump dec key i x o rem))
    bump-Distinct h k = rw bump-keys (elim (dec key k) [
      | no p ↦ rw (if_neg _ p) (h.distinct k)
      | yes p ↦ rw (if_pos _ p) (elim (Bool-cases (ltb x o)) [
        | inl e ↦ rw e (add-Distinct dec (key, i) _ (h.distinct key))
        | inr e ↦ rw e (h.distinct key)
      ])
    ])

    pub bump-IsTracked : IsTracked dec rem → IsTracked dec (bump dec key i x o rem)
    bump-IsTracked h = record {
      distinct = bump-Distinct h;
      owned = λ k r m. ground (
        arith,
        bump-keys k,
        h.owned k r,
        h.owned key r,
        contains-add dec (key, i) r (keys_of dec key rem),
      );
      present = λ k r m. ground (
        arith,
        bump-keys k,
        bump-lookup r,
        h.present k r,
        h.present key r,
        contains-add dec (key, i) r (keys_of dec key rem),
      );
      tracked = λ k j m. ground (
        arith,
        bump-keys k,
        bump-total k j,
        h.tracked k j,
        h.tracked key j,
        contains-add dec (key, i) (k, j) (keys_of dec key rem),
      );
    }

  -- What the loop over one key does from position `i` on.
  pub record Adjusted (key : K) (i : ℕ) (xs os : List ℕ) (rem rem' : Reminders K) (bits : List ℕ)
      : Type 0 where
    pub keys_other : (k : K) → key ≢ k → keys_of dec k rem' ≡ keys_of dec k rem
    pub totals_other : (k : K) (j : ℕ) → key ≢ k → total dec (k, j) rem' ≡ total dec (k, j) rem
    pub below : (j : ℕ) → j < i → total dec (key, j) rem' ≡ total dec (key, j) rem
    pub at :
        (j x o : ℕ)
        → get_elem? xs j ≡ some x
        → get_elem? os j ≡ some o
        → (total dec (key, i + j) rem' ≡ total dec (key, i + j) rem + wrapped x o)
          × (get_elem? bits j ≡ some (x + total dec (key, i + j) rem'))

  module _ (key : K) where
    Adjusted-step :
        (i x o : ℕ) (xs os : List ℕ) (rem rem' : Reminders K) (bits : List ℕ)
        → Adjusted key (suc i) xs os (bump dec key i x o rem) rem' bits
        → Adjusted key i
            (x ∷ xs)
            (o ∷ os)
            rem
            rem'
            ((x + total dec (key, i) (bump dec key i x o rem)) ∷ bits)
    Adjusted-step i x o xs os rem rem' bits a = record {
      keys_other = λ k ne. ground (arith, a.keys_other k, bump-keys key i x o rem k);
      totals_other = λ k j ne. ground (arith, a.totals_other k j, bump-total key i x o rem k j);
      below = λ j lt. ground (arith, a.below j, bump-total key i x o rem key j);
      at = at_step;
    }
      where
        at_step :
            (j y p : ℕ)
            → get_elem? (x ∷ xs) j ≡ some y
            → get_elem? (o ∷ os) j ≡ some p
            → (total dec (key, i + j) rem' ≡ total dec (key, i + j) rem + wrapped y p)
              × (get_elem? ((x + total dec (key, i) (bump dec key i x o rem)) ∷ bits) j
                  ≡ some (y + total dec (key, i + j) rem'))
        at_step zero y p hy hp =
            let e : i + 0 ≡ i = omega arith in
            rw e (ground (arith, a.below i, bump-total key i x o rem key i))
        at_step (suc j) y p hy hp =
            let e : i + suc j ≡ suc i + j = omega arith in
            rw e (ground (arith, a.at j y p, bump-total key i x o rem key (suc i + j)))

    pub adjust_total :
        (i : ℕ) (xs os : List ℕ) (rem : Reminders K)
        → length xs ≤ length os
        → IsTracked dec rem
        → (bits : List ℕ) × (rem' : Reminders K) × (adjust dec key i xs os rem ≡ ok (bits, rem'))
          × IsTracked dec rem'
          × Adjusted key i xs os rem rem' bits
    unfolding adjust
    adjust_total i [] os rem le h = (
      [],
      rem,
      refl,
      h,
      record {
        keys_other = λ k ne. refl;
        totals_other = λ k j ne. refl;
        below = λ j lt. refl;
        at = λ j x o hx ho. cc;
      },
    )
    adjust_total i (x ∷ xs) [] rem le h = absurd (omega arith)
    adjust_total i (x ∷ xs) (o ∷ os) rem le h =
        let (bits, rem', done, tracked, a) =
          adjust_total (suc i) xs os (bump dec key i x o rem) (omega arith)
            (bump-IsTracked key i x o rem h) in
        (_, rem', rw done refl, tracked, Adjusted-step i x o xs os rem rem' bits a)
