-- ===== src/Wrap/Dead.antt =====
-- `_remove_dead_reminders`: it never fails, and afterwards the keys that are gone have no reminder.
use psutil.Prelude.{
  ℕ, true, false, none, ◌≡◌, ◌≢◌, [], ◌∷◌, refl, ite, arith, ok, if◌then◌else◌, Option-cases, inl,
  inr, if_pos, if_neg,
}
use psutil.Prelude.Dict.{Dict, lookup, erase, lookup-erase}
use psutil.Wrap.{
  RemKey, Table, Reminders, dec_remkey, contains, total, keys_of, drop_key, remove_dead,
}
use psutil.Wrap.Sets.{Distinct, drop_totals_total}

module _ {K : Type 0} (dec : Discrete K) where
  -- The reminder keys of a key are its own, each once, and they are exactly what the totals hold
  -- other than zeros.
  pub record IsTracked (rem : Reminders K) : Type 0 where
    pub distinct : (k : K) → Distinct dec (keys_of dec k rem)
    pub owned : (k : K) (r : RemKey K) → contains dec r (keys_of dec k rem) ≡ true → r.0 ≡ k
    pub present :
        (k : K) (r : RemKey K)
        → contains dec r (keys_of dec k rem) ≡ true
        → lookup (dec_remkey dec) r rem.totals ≢ none
    pub tracked :
        (k : K) (i : ℕ) → contains dec (k, i) (keys_of dec k rem) ≡ false → total dec (k, i) rem ≡ 0

  pub record Dropped (g : K) (rem rem' : Reminders K) : Type 0 where
    pub keys : (k : K) → keys_of dec k rem' ≡ ite (dec g k) [] (keys_of dec k rem)
    pub totals : (k : K) (i : ℕ) → total dec (k, i) rem' ≡ ite (dec g k) 0 (total dec (k, i) rem)

  module _ (g : K) (rem : Reminders K) (h : IsTracked rem) where
    abbrev dropped : Dict (RemKey K) ℕ → Reminders K
    dropped t = record { totals = t; keys = erase dec g rem.keys }

    abbrev Spec : Dict (RemKey K) ℕ → Type 0
    Spec t =
        (r : RemKey K)
        → lookup (dec_remkey dec) r t ≡ (
            if contains dec r (keys_of dec g rem)
            then none
            else lookup (dec_remkey dec) r rem.totals)

    dropped-keys :
        (t : Dict (RemKey K) ℕ) (k : K)
        → keys_of dec k (dropped t) ≡ ite (dec g k) [] (keys_of dec k rem)
    unfolding keys_of
    dropped-keys t k = ground (arith, lookup-erase dec g k rem.keys)

    dropped-totals :
        (t : Dict (RemKey K) ℕ)
        → Spec t
        → (k : K) (i : ℕ) → total dec (k, i) (dropped t) ≡ ite (dec g k) 0 (total dec (k, i) rem)
    unfolding total
    dropped-totals t spec k i = elim (dec g k) [
      | yes p ↦ ground (arith, spec (k, i), h.tracked g i)
      | no p ↦ ground (arith, spec (k, i), h.owned g (k, i))
    ]

    dropped-IsTracked : (t : Dict (RemKey K) ℕ) → Spec t → IsTracked (dropped t)
    unfolding contains
    dropped-IsTracked t spec = record {
      distinct = λ k.
          rw dropped-keys
            (elim (dec g k) [ yes p ↦ rw (if_pos _ p) tt | no p ↦ rw (if_neg _ p) (h.distinct k) ]);
      owned = λ k r m. ground (arith, dropped-keys t k, h.owned k r);
      present = λ k r m.
          ground (arith, dropped-keys t k, h.owned k r, h.owned g r, h.present k r, spec r);
      tracked = λ k i m. ground (arith, dropped-keys t k, dropped-totals t spec k i, h.tracked k i);
    }

  -- One gone key: no deletion fails, its reminders are forgotten, and those of the others stay.
  pub drop_key_total :
      (g : K) (rem : Reminders K)
      → IsTracked rem
      → (rem' : Reminders K) × (drop_key dec g rem ≡ ok rem') × IsTracked rem' × Dropped g rem rem'
  unfolding drop_key
  drop_key_total g rem h =
      let (t, done, spec) =
        drop_totals_total dec (keys_of dec g rem) rem.totals (h.distinct g)
          (λ r m. h.present g r m) in
      (
        dropped g rem h t,
        rw done refl,
        dropped-IsTracked g rem h t spec,
        record { keys = dropped-keys g rem h t; totals = dropped-totals g rem h t spec },
      )

  -- After the removal: keys of `old` that `input` lacks have no reminders, the others kept theirs.
  pub record Pruned (old input : Table K) (rem rem' : Reminders K) : Type 0 where
    pub gone :
        (k : K) → lookup dec k old ≢ none → lookup dec k input ≡ none → keys_of dec k rem' ≡ []
    pub still : (k : K) → keys_of dec k rem ≡ [] → keys_of dec k rem' ≡ []
    pub kept :
        (k : K) (i : ℕ) → lookup dec k input ≢ none → total dec (k, i) rem' ≡ total dec (k, i) rem

  pub remove_dead_total :
      (old input : Table K) (rem : Reminders K)
      → IsTracked rem
      → (rem' : Reminders K) × (remove_dead dec old input rem ≡ ok rem')
        × IsTracked rem'
        × Pruned old input rem rem'
  unfolding remove_dead lookup
  remove_dead_total [] input rem h = (
    rem,
    refl,
    h,
    record { gone = λ k there. absurd (there refl); still = λ k e. e; kept = λ k i there. refl },
  )
  remove_dead_total ((k, xs) ∷ old) input rem h = elim (Option-cases (lookup dec k input)) [
    | inr (ys, there) ↦
        let (rem', done, tracked, p) = remove_dead_total old input rem h in
        (
          rem',
          rw (there, remove_dead) done,
          tracked,
          record {
            gone = λ j old_j gone_j. ground (arith, p.gone j);
            still = p.still;
            kept = p.kept;
          },
        )
    | inl missing ↦
        let (rem₁, done₁, tracked₁, d) = drop_key_total k rem h in
        let (rem₂, done₂, tracked₂, p) = remove_dead_total old input rem₁ tracked₁ in
        (
          rem₂,
          rw (missing, remove_dead) (rw done₁ done₂),
          tracked₂,
          record {
            gone = λ j old_j gone_j. ground (arith, p.gone j, p.still j, d.keys j);
            still = λ j e. ground (arith, p.still j, d.keys j);
            kept = λ j i there. ground (arith, p.kept j i, d.totals j i);
          },
        )
  ]
