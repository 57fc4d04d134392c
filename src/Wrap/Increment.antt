-- ===== src/Wrap/Increment.antt =====
-- What `run` promises its callers: no failure, counters that grow by what was counted, and a fresh
-- start after the cache is cleared.
use psutil.Prelude.{
  ℕ, zero, suc, ◌+◌, ◌-◌, ◌≤◌, Option, none, some, ◌≡◌, ◌≢◌, ◌⊎◌, if_neg, List, [], ◌∷◌, refl,
  arith, ok, ap, sym, subst, ◌∙◌, ok-injective, ltb, length, get_elem?, if◌then◌else◌, Option-cases,
  inl, inr,
}
use psutil.Prelude.Dict.{Dict, lookup, lookup-erase, lookup-insert, lookup-insert_self}
use psutil.Wrap.{RemKey, Table, WrapNumbers, total, run, cache_clear}
use psutil.Wrap.Adjust.{wrapped}
use psutil.Wrap.Loop.{IsDict, Fits}
use psutil.Wrap.Rerun.{rerun_total, counter}
use psutil.Wrap.Run.{
  IsValid, offset, last, watch, rewatched, rewatched-IsValid, watch-IsTracked, watch-IsKnown,
}

get_elem?_of_le {ℓ} :
    {A B : Type ℓ} (xs : List A) (ys : List B) (j : ℕ) {x : A}
    → length xs ≤ length ys
    → get_elem? xs j ≡ some x
    → (y : B) × (get_elem? ys j ≡ some y)
get_elem?_of_le [] ys j le h = cc
get_elem?_of_le (x ∷ xs) [] j le h = absurd (omega arith)
get_elem?_of_le (x ∷ xs) (y ∷ ys) zero le h = (y, refl)
get_elem?_of_le (x ∷ xs) (y ∷ ys) (suc j) le h = get_elem?_of_le xs ys j (omega arith) h

module _ {K : Type 0} (dec : Discrete K) where
  counter-Fits :
      (d old : Table K) (k : K) (j x : ℕ)
      → Fits dec d old
      → counter dec k j d ≡ some x
      → (lookup dec k old ≡ none) ⊎ ((o : ℕ) × (counter dec k j old ≡ some o))
  unfolding counter lookup
  counter-Fits [] old k j x fits h = absurd (cc)
  counter-Fits ((i, xs) ∷ d) old k j x fits h = elim (Option-cases (lookup dec k old)) [
    | inl missing ↦ inl missing
    | inr (os, there) ↦ elim (dec i k) [
      | no p ↦ counter-Fits d old k j x fits.1 (ground arith)
      | yes p ↦
          let (o, at) = get_elem?_of_le xs os j {x = x} (fits.0 os (ground arith)) (ground arith) in
          inr (o, ground arith)
    ]
  ]

  pub record RunSpec (name : K) (input new : Table K) (w w' : WrapNumbers K) : Type 0 where
    pub valid : IsValid dec w'
    pub cached : last dec name w' ≡ input
    pub values :
        (k : K) (j x : ℕ)
        → counter dec k j input ≡ some x
        → counter dec k j new ≡ some (x + offset dec name k j w')
    pub grows :
        (k : K) (j x o : ℕ)
        → counter dec k j input ≡ some x
        → counter dec k j (last dec name w) ≡ some o
        → offset dec name k j w' ≡ offset dec name k j w + wrapped x o
    pub restarts :
        (k : K) (j : ℕ) → lookup dec k (last dec name w) ≡ none → offset dec name k j w' ≡ 0
    pub others_last : (n : K) → name ≢ n → last dec n w' ≡ last dec n w
    pub others_offset :
        (n : K) → name ≢ n → (k : K) (j : ℕ) → offset dec n k j w' ≡ offset dec n k j w

  module _ (name : K) (input : Table K) (w : WrapNumbers K) where
    offset-rewatched :
        (k : K) (j : ℕ) (t : Dict (RemKey K) ℕ) (ks : Dict K (List (RemKey K)))
        → offset dec name k j (rewatched dec name input t ks w) ≡ total dec (k, j) (watch dec t ks)
    unfolding offset total
    offset-rewatched k j t ks = rw lookup-insert_self

    offset-seen :
        (k : K) (j : ℕ) (t : Dict (RemKey K) ℕ) (ks : Dict K (List (RemKey K)))
        → lookup dec name w.reminders ≡ some t
        → offset dec name k j w ≡ total dec (k, j) (watch dec t ks)
    unfolding offset total
    offset-seen k j t ks e = rw e

    total-nothing : (k : K) (j : ℕ) → total dec (k, j) (watch dec [] []) ≡ 0
    unfolding total lookup
    total-nothing k j = refl

    last-rewatched :
        (t : Dict (RemKey K) ℕ) (ks : Dict K (List (RemKey K)))
        → last dec name (rewatched dec name input t ks w) ≡ input
    unfolding last
    last-rewatched t ks = rw lookup-insert_self

    last_other :
        (n : K)
        → name ≢ n
        → (t : Dict (RemKey K) ℕ) (ks : Dict K (List (RemKey K)))
        → last dec n (rewatched dec name input t ks w) ≡ last dec n w
    unfolding last
    last_other n ne t ks = rw (lookup-insert dec name n input w.cache, if_neg (dec name n) ne) refl

    offset_other :
        (n : K)
        → name ≢ n
        → (k : K) (j : ℕ) (t : Dict (RemKey K) ℕ) (ks : Dict K (List (RemKey K)))
        → offset dec n k j (rewatched dec name input t ks w) ≡ offset dec n k j w
    unfolding offset
    offset_other n ne k j t ks =
        rw (lookup-insert dec name n t w.reminders, if_neg (dec name n) ne) refl

    run_first :
        IsValid dec w
        → lookup dec name w.cache ≡ none
        → (run dec input name w ≡ ok (input, rewatched dec name input [] [] w))
          × RunSpec name input input w (rewatched dec name input [] [] w)
    unfolding run last
    run_first v first = (
      ground (arith, v.unwatched name),
      record {
        valid =
            rewatched-IsValid dec name input [] [] w v (watch-IsTracked dec)
              (watch-IsKnown dec input);
        cached = last-rewatched [] [];
        values = λ k j x ex. ground (arith, offset-rewatched k j [] [], total-nothing k j);
        grows = λ k j x o ex eo. absurd (unfold counter lookup in ground arith);
        restarts = λ k j e. ground (arith, offset-rewatched k j [] [], total-nothing k j);
        others_last = λ n ne. last_other n ne [] [];
        others_offset = λ n ne k j. offset_other n ne k j [] [];
      },
    )

    run_again :
        (old : Table K)
        → IsValid dec w
        → lookup dec name w.cache ≡ some old
        → IsDict dec input
        → Fits dec input old
        → (new : Table K) × (w' : WrapNumbers K) × (run dec input name w ≡ ok (new, w'))
          × RunSpec name input new w w'
    unfolding run last
    run_again old v seen u fits =
        let (t, ks, rt, rk, h, known) = v.watched name old seen in
        let (new, rem, done, h', known', r) =
          rerun_total dec input old (watch dec t ks) u fits h known in
        (
          new,
          rewatched dec name input rem.totals rem.keys w,
          rw (seen, run) (rw rt (rw rk (rw done refl))),
          record {
            valid = rewatched-IsValid dec name input rem.totals rem.keys w v h' known';
            cached = last-rewatched rem.totals rem.keys;
            values = λ k j x ex.
                rw offset-rewatched (r.values k j x ex (counter-Fits input old k j x fits ex));
            grows = λ k j x o ex eo. ground (
              arith,
              r.grows k j x o,
              offset-rewatched k j rem.totals rem.keys,
              offset-seen k j t ks,
            );
            restarts = λ k j e. rw offset-rewatched (r.restarts k j (ground arith));
            others_last = λ n ne. last_other n ne rem.totals rem.keys;
            others_offset = λ n ne k j. offset_other n ne k j rem.totals rem.keys;
          },
        )

  -- No key of `d` has more counters than the last input under that name had for it.
  abbrev pub FitsLast : K → Table K → WrapNumbers K → Type 0
  FitsLast name d w = Fits dec d (last dec name w)

  run-RunSpec :
      (name : K) (input : Table K) (w : WrapNumbers K)
      → IsValid dec w
      → IsDict dec input
      → FitsLast name input w
      → (new : Table K) × (w' : WrapNumbers K) × (run dec input name w ≡ ok (new, w'))
        × RunSpec name input new w w'
  unfolding last
  run-RunSpec name input w v u fits = elim (Option-cases (lookup dec name w.cache)) [
    | inl first ↦
        let (done, spec) = run_first name input w v first in
        (input, rewatched dec name input [] [] w, done, spec)
    | inr (old, seen) ↦ run_again name input w old v seen u (rw seen at fits)
  ]

  -- What a run that returned did.
  pub run-eq-ok :
      (name : K) (d n : Table K) (w w₁ : WrapNumbers K)
      → IsValid dec w
      → IsDict dec d
      → FitsLast name d w
      → run dec d name w ≡ ok (n, w₁)
      → RunSpec name d n w w₁
  run-eq-ok name d n w w₁ v u f done =
      let (new, w', done', spec) = run-RunSpec name d w v u f in
      subst (λ (q : Table K × WrapNumbers K). RunSpec name d q.0 w q.1)
        (ok-injective (new, w') (n, w₁) (sym done' ∙ done)) spec

  -- On a valid state, and an input whose tuples are not longer than they were, `run` raises nothing
  -- and leaves a valid state.
  pub run_total :
      (name : K) (input : Table K) (w : WrapNumbers K)
      → IsValid dec w
      → IsDict dec input
      → FitsLast name input w
      → (new : Table K) × (w' : WrapNumbers K) × (run dec input name w ≡ ok (new, w'))
        × IsValid dec w'
  run_total name input w v u fits =
      let (new, w', done, spec) = run-RunSpec name input w v u fits in (new, w', done, spec.valid)

  -- Two calls in a row, and a counter that both inputs have: the second answer exceeds the first by
  -- what the counter grew, or, if it went back, by its new value. So answers never go back.
  pub run_increment :
      (name : K) (d₁ d₂ n₁ n₂ : Table K) (w w₁ w₂ : WrapNumbers K) (k : K) (j x₁ x₂ : ℕ)
      → IsValid dec w
      → IsDict dec d₁
      → FitsLast name d₁ w
      → IsDict dec d₂
      → Fits dec d₂ d₁
      → run dec d₁ name w ≡ ok (n₁, w₁)
      → run dec d₂ name w₁ ≡ ok (n₂, w₂)
      → counter dec k j d₁ ≡ some x₁
      → counter dec k j d₂ ≡ some x₂
      → (y : ℕ) × (counter dec k j n₁ ≡ some y)
        × (counter dec k j n₂ ≡ some (y + (if ltb x₂ x₁ then x₂ else x₂ - x₁)))
  run_increment name d₁ d₂ n₁ n₂ w w₁ w₂ k j x₁ x₂ v u₁ f₁ u₂ f₂ r₁ r₂ c₁ c₂ =
      let s₁ = run-eq-ok name d₁ n₁ w w₁ v u₁ f₁ r₁ in
      let s₂ = run-eq-ok name d₂ n₂ w₁ w₂ s₁.valid u₂ (rw s₁.cached f₂) r₂ in
      (
        x₁ + offset dec name k j w₁,
        s₁.values k j x₁ c₁,
        (s₂.values k j x₂ c₂) ∙ ap some (ground (arith, s₂.grows k j x₂ x₁ c₂ (rw s₁.cached c₁))),
      )

  cache_clear-IsValid :
      (which : Option K) (w : WrapNumbers K) → IsValid dec w → IsValid dec (cache_clear dec which w)
  unfolding cache_clear lookup
  cache_clear-IsValid none w v = record {
    unwatched = λ name e. (refl, refl);
    watched = λ name old e. absurd (cc);
  }
  cache_clear-IsValid (some name) w v = record {
    unwatched = λ n e. ground (
      arith,
      v.unwatched n,
      lookup-erase dec name n w.cache,
      lookup-erase dec name n w.reminders,
      lookup-erase dec name n w.reminder_keys,
    );
    watched = λ n old e.
        let (t, ks, rt, rk, h, known) =
          v.watched n old (ground (arith, lookup-erase dec name n w.cache)) in
        (
          t,
          ks,
          ground (arith, lookup-erase dec name n w.cache, lookup-erase dec name n w.reminders),
          ground (arith, lookup-erase dec name n w.cache, lookup-erase dec name n w.reminder_keys),
          h,
          known,
        );
  }

  cache-cache_clear :
      (name : K) (which : Option K) (w : WrapNumbers K)
      → (which ≡ none) ⊎ (which ≡ some name)
      → lookup dec name (cache_clear dec which w).cache ≡ none
  unfolding cache_clear lookup
  cache-cache_clear name none w h = refl
  cache-cache_clear name (some n) w h = ground (arith, lookup-erase dec n name w.cache)

  -- The first call under a name returns its input, and so does the first one after the cache was
  -- cleared, for that name or for all.
  pub run-cache_clear :
      (name : K) (which : Option K) (input : Table K) (w : WrapNumbers K)
      → IsValid dec w
      → (which ≡ none) ⊎ (which ≡ some name)
      → (w' : WrapNumbers K) × (run dec input name (cache_clear dec which w) ≡ ok (input, w'))
        × IsValid dec w'
  run-cache_clear name which input w v h =
      let (done, spec) =
        run_first name input (cache_clear dec which w) (cache_clear-IsValid which w v)
          (cache-cache_clear name which w h) in
      (rewatched dec name input [] [] (cache_clear dec which w), done, spec.valid)
