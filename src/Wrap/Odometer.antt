-- ===== src/Wrap/Odometer.antt =====
-- The abstract view of `_WrapNumbers`: one counter is an odometer, which forgets everything but its
-- last reading and what it shows.
use psutil.Prelude.{
  ℕ, ◌+◌, ◌-◌, ◌≡◌, ◌≢◌, Option, none, some, List, [], ◌∷◌, refl, ap, sym, ◌∙◌, arith, ok, ltb,
  if◌then◌else◌,
}
use psutil.Prelude.Dict.{lookup}
use psutil.Wrap.{Table, WrapNumbers, run}
use psutil.Wrap.Loop.{IsDict}
use psutil.Wrap.Rerun.{counter}
use psutil.Wrap.Run.{IsValid, offset, last}
use psutil.Wrap.Increment.{FitsLast, RunSpec, run-eq-ok}

pub record Odometer : Type 0 where
  pub raw : ℕ
  pub shown : ℕ

-- A reading goes back only where the counter wrapped, and counts from 0 then.
unfoldable pub shown_next : Odometer → ℕ → ℕ
shown_next o x = o.shown + (if ltb x o.raw then x else x - o.raw)

-- The odometer after a reading, or after an input that lacks the device.
unfoldable pub advance : Option Odometer → Option ℕ → Option Odometer
unfolding shown_next
advance o none = none
advance none (some x) = some (record { raw = x; shown = x })
advance (some o) (some x) = some (record { raw = x; shown = shown_next o x })

abbrev showing : Option Odometer → List ℕ → List ℕ
showing none ys = ys
showing (some o) ys = o.shown ∷ ys

-- What is shown at each reading.
unfoldable pub shows : Option Odometer → List (Option ℕ) → List ℕ
unfolding advance
shows o [] = []
shows o (x ∷ xs) = showing (advance o x) (shows (advance o x) xs)

-- The odometer after all readings.
unfoldable pub after : Option Odometer → List (Option ℕ) → Option Odometer
unfolding advance
after o [] = o
after o (x ∷ xs) = after (advance o x) xs

same_some : {x y : ℕ} → some x ≡ some y → x ≡ y
same_some h = cc

module _ {K : Type 0} (dec : Discrete K) (name k : K) (j : ℕ) where
  -- Calls of `run`, of any names in any order, from one state to another: the readings of the counter
  -- `j` of `k` in the inputs under `name`, nothing where the device is missing, and the answers.
  pub data Calls : WrapNumbers K → WrapNumbers K → List (Option ℕ) → List ℕ → Type 0 where
    done : {w : WrapNumbers K} → Calls w w [] []
    counted :
        {w w₁ w₂ : WrapNumbers K} {xs : List (Option ℕ)} {ys : List ℕ} (d new : Table K) (x y : ℕ)
        → IsDict dec d
        → FitsLast dec name d w
        → run dec d name w ≡ ok (new, w₁)
        → counter dec k j d ≡ some x
        → counter dec k j new ≡ some y
        → Calls w₁ w₂ xs ys
        → Calls w w₂ (some x ∷ xs) (y ∷ ys)
    missing :
        {w w₁ w₂ : WrapNumbers K} {xs : List (Option ℕ)} {ys : List ℕ} (d new : Table K)
        → IsDict dec d
        → FitsLast dec name d w
        → run dec d name w ≡ ok (new, w₁)
        → lookup dec k d ≡ none
        → Calls w₁ w₂ xs ys
        → Calls w w₂ (none ∷ xs) ys
    other :
        {w w₁ w₂ : WrapNumbers K} {xs : List (Option ℕ)} {ys : List ℕ} (n : K) (d new : Table K)
        → n ≢ name
        → IsDict dec d
        → FitsLast dec n d w
        → run dec d n w ≡ ok (new, w₁)
        → Calls w₁ w₂ xs ys
        → Calls w w₂ xs ys

  -- The odometer that a state stands for.
  abbrev pub Shows : Option Odometer → WrapNumbers K → Type 0
  Shows none w = lookup dec k (last dec name w) ≡ none
  Shows (some o) w =
      (counter dec k j (last dec name w) ≡ some o.raw) × (o.shown ≡ o.raw + offset dec name k j w)

  first_reading :
      (x y : ℕ) (d new : Table K) (w w₁ : WrapNumbers K)
      → RunSpec dec name d new w w₁
      → counter dec k j d ≡ some x
      → counter dec k j new ≡ some y
      → lookup dec k (last dec name w) ≡ none
      → (y ≡ x) × Shows (some (record { raw = x; shown = x })) w₁
  first_reading x y d new w w₁ s c c' h =
      let zero_offset = s.restarts k j h in
      (
        same_some (sym c' ∙ s.values k j x c ∙ ap some (omega (arith, zero_offset))),
        (rw s.cached c, omega (arith, zero_offset)),
      )

  next_reading :
      (o : Odometer) (x y : ℕ) (d new : Table K) (w w₁ : WrapNumbers K)
      → RunSpec dec name d new w w₁
      → counter dec k j d ≡ some x
      → counter dec k j new ≡ some y
      → Shows (some o) w
      → (y ≡ shown_next o x) × Shows (some (record { raw = x; shown = shown_next o x })) w₁
  unfolding shown_next
  next_reading o x y d new w w₁ s c c' (e, f) =
      let grown = s.grows k j x o.raw c e in
      let same : x + offset dec name k j w₁ ≡ o.shown + (if ltb x o.raw then x else x - o.raw) =
        ground (arith, grown, f) in
      (same_some (sym c' ∙ s.values k j x c ∙ ap some same), (rw s.cached c, sym same))

  -- `_WrapNumbers` refines the odometer: from a valid state that stands for an odometer, through any
  -- calls of run, of any names in any order, each of a dict with no tuple longer than the last one under
  -- its name, in which the device is missing or has the counter: the answers are what the odometer shows
  -- at each reading, and the state reached is valid and stands for the odometer then. A device that was
  -- missing starts anew.
  pub calls-refine :
      {w w' : WrapNumbers K} {xs : List (Option ℕ)} {ys : List ℕ} (o : Option Odometer)
      → IsValid dec w
      → Shows o w
      → Calls w w' xs ys
      → (ys ≡ shows o xs) × IsValid dec w' × Shows (after o xs) w'
  unfolding shows advance after
  calls-refine o v h done = (refl, v, h)
  calls-refine none v h (counted d new x y u f r c c' more) =
      let s = run-eq-ok dec name d new _ _ v u f r in
      let (same, h') = first_reading x y d new _ _ s c c' h in
      let (eq, v', end) = calls-refine (some (record { raw = x; shown = x })) s.valid h' more in
      (rw (same, eq) refl, v', end)
  calls-refine (some o) v h (counted d new x y u f r c c' more) =
      let s = run-eq-ok dec name d new _ _ v u f r in
      let (same, h') = next_reading o x y d new _ _ s c c' h in
      let (eq, v', end) =
        calls-refine (some (record { raw = x; shown = shown_next o x })) s.valid h' more in
      (rw (same, eq) refl, v', end)
  calls-refine o v h (missing d new u f r e more) =
      let s = run-eq-ok dec name d new _ _ v u f r in calls-refine none s.valid (rw s.cached e) more
  calls-refine none v h (other n d new ne u f r more) =
      let s = run-eq-ok dec n d new _ _ v u f r in
      calls-refine none s.valid (rw (s.others_last name ne) h) more
  calls-refine (some o) v h (other n d new ne u f r more) =
      let s = run-eq-ok dec n d new _ _ v u f r in
      calls-refine (some o) s.valid
        (
          rw (s.others_last name ne) (h.0),
          h.1 ∙ ap (λ m. o.raw + m) (sym (s.others_offset name ne k j)),
        )
        more
