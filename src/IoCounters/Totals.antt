-- ===== src/IoCounters/Totals.antt =====
-- What the answers of `disk_io_counters` and `net_io_counters` say of the devices.
use psutil.Prelude.{
  ℕ, zero, suc, ◌+◌, ◌-◌, ◌<◌, ◌≡◌, refl, true, false, some, List, [], ◌∷◌, Result, ok, err, arith,
  length, get_elem?, get_or, if◌then◌else◌, ltb,
}
use psutil.Prelude.Dict.{lookup}
use psutil.Wrap.{Table, WrapNumbers, run}
use psutil.Wrap.Loop.{IsDict, Fits}
use psutil.Wrap.Rerun.{counter}
use psutil.Wrap.Run.{IsValid}
use psutil.Wrap.Increment.{FitsLast, run_increment}
use psutil.IoCounters.{Counters, add_rows, sum_columns, values, finished, io_counters}

-- The sum over all devices of the counter at position `j`.
abbrev pub column : ℕ → List (List ℕ) → ℕ
column j [] = 0
column j (row ∷ rows) = get_or row j 0 + column j rows

abbrev pub Width : ℕ → List (List ℕ) → Type 0
Width n [] = Unit
Width n (row ∷ rows) = (length row ≡ n) × Width n rows

get_elem?-get_or : (row : List ℕ) (j : ℕ) → j < length row → get_elem? row j ≡ some (get_or row j 0)
get_elem?-get_or [] j h = absurd (omega arith)
get_elem?-get_or (x ∷ row) zero h = refl
get_elem?-get_or (x ∷ row) (suc j) h = get_elem?-get_or row j (omega arith)

get_elem?-add_rows :
    (xs ys : List ℕ) (j y : ℕ)
    → j < length xs
    → get_elem? ys j ≡ some y
    → get_elem? (add_rows xs ys) j ≡ some (get_or xs j 0 + y)
unfolding add_rows
get_elem?-add_rows [] ys j y h e = absurd (omega arith)
get_elem?-add_rows (x ∷ xs) [] j y h e = cc
get_elem?-add_rows (x ∷ xs) (z ∷ ys) zero y h e = ground (arith, e)
get_elem?-add_rows (x ∷ xs) (z ∷ ys) (suc j) y h e = get_elem?-add_rows xs ys j y (omega arith) e

get_elem?-sum_columns :
    (n : ℕ) (row : List ℕ) (rows : List (List ℕ)) (j : ℕ)
    → Width n (row ∷ rows)
    → j < n
    → get_elem? (sum_columns (row ∷ rows)) j ≡ some (column j (row ∷ rows))
unfolding sum_columns
get_elem?-sum_columns n row [] j w h =
    rw ((get_elem?-get_or row j (omega (arith, w.0)))) (ground arith)
get_elem?-sum_columns n row (next ∷ rows) j w h =
    get_elem?-add_rows row (sum_columns (next ∷ rows)) j (column j (next ∷ rows))
      (omega (arith, w.0)) (get_elem?-sum_columns n next rows j w.1 h)

module _ {K : Type 0} (dec : Discrete K) where
  -- Where every device has `n` counters and there is a device, the answer for all devices, without
  -- `nowrap`, has at each of the `n` positions the sum over the devices, and the cache is not touched.
  pub io_counters_sum :
      (name k : K) (row : List ℕ) (rest : Table K) (w : WrapNumbers K) (n j : ℕ)
      → Width n (values ((k, row) ∷ rest))
      → j < n
      → (t : List ℕ) × (io_counters dec name false false ((k, row) ∷ rest) w
          ≡ (ok (Counters.total t), w))
        × (get_elem? t j ≡ some (column j (values ((k, row) ∷ rest))))
  unfolding io_counters
  io_counters_sum name k row rest w n j width h =
      (_, refl, get_elem?-sum_columns n row (values rest) j width h)

  finished_each :
      (w w' : WrapNumbers K) (n : Table K) (r : Result (Table K × WrapNumbers K))
      → finished dec true w r ≡ (ok (Counters.each n), w')
      → r ≡ ok (n, w')
  finished_each w w' n (ok (d, v)) h = ground (arith, h)
  finished_each w w' n (err e) h = absurd (cc)

  io_counters-run :
      (name k : K) (j x : ℕ) (d n : Table K) (w w' : WrapNumbers K)
      → counter dec k j d ≡ some x
      → io_counters dec name true true d w ≡ (ok (Counters.each n), w')
      → run dec d name w ≡ ok (n, w')
  unfolding io_counters counter lookup
  io_counters-run name k j x [] n w w' c h = absurd (cc)
  io_counters-run name k j x (e ∷ d) n w w' c h = finished_each w w' n (run dec (e ∷ d) name w) h

  -- Two calls in a row with `nowrap` and by device, on a valid cache and counters that are dicts with no
  -- tuple longer than before: a counter of a device that is there both times grew, in the answers, by
  -- what it grew, or by its new value if it went back.
  pub io_counters_increment :
      (name : K) (d₁ d₂ n₁ n₂ : Table K) (w w₁ w₂ : WrapNumbers K) (k : K) (j x₁ x₂ : ℕ)
      → IsValid dec w
      → IsDict dec d₁
      → FitsLast dec name d₁ w
      → IsDict dec d₂
      → Fits dec d₂ d₁
      → io_counters dec name true true d₁ w ≡ (ok (Counters.each n₁), w₁)
      → io_counters dec name true true d₂ w₁ ≡ (ok (Counters.each n₂), w₂)
      → counter dec k j d₁ ≡ some x₁
      → counter dec k j d₂ ≡ some x₂
      → (y : ℕ) × (counter dec k j n₁ ≡ some y)
        × (counter dec k j n₂ ≡ some (y + (if ltb x₂ x₁ then x₂ else x₂ - x₁)))
  io_counters_increment name d₁ d₂ n₁ n₂ w w₁ w₂ k j x₁ x₂ v u₁ f₁ u₂ f₂ r₁ r₂ c₁ c₂ =
      run_increment dec name d₁ d₂ n₁ n₂ w w₁ w₂ k j x₁ x₂ v u₁ f₁ u₂ f₂
        (io_counters-run name k j x₁ d₁ n₁ w w₁ c₁ r₁)
        (io_counters-run name k j x₂ d₂ n₂ w₁ w₂ c₂ r₂) c₁ c₂
