-- ===== src/IoCounters.antt =====
-- psutil/__init__.py: `disk_io_counters` and `net_io_counters`, which differ in the platform call and
-- in the name under which `_wrap_numbers` keeps their counters. A named tuple is its list of fields.
pub mod Totals
use psutil.Prelude.{
  ℕ, zero, suc, ◌+◌, Bool, true, false, Option, none, some, List, [], ◌∷◌, map, Result, ok, err,
  Error, if◌then◌else◌,
}
use psutil.Prelude.Dict.{Dict}
use psutil.Wrap.{Table, WrapNumbers, run, cache_clear}

-- `zip(*rows)`, each column summed: it stops at the shortest row, so `add_rows` keeps the shorter.
unfoldable pub add_rows : List ℕ → List ℕ → List ℕ
add_rows (a ∷ xs) (b ∷ ys) = (a + b) ∷ add_rows xs ys
add_rows _ _ = []

unfoldable pub sum_columns : List (List ℕ) → List ℕ
unfolding add_rows
sum_columns [] = []
sum_columns (row ∷ []) = row
sum_columns (row ∷ next ∷ rows) = add_rows row (sum_columns (next ∷ rows))

-- The answer: a dict by device, one tuple for all, or None.
pub data Counters (K : Type 0) : Type 0 where
  each : Table K → Counters K
  total : List ℕ → Counters K
  nothing : Counters K

-- `rawdict.values()`
abbrev pub values : {K : Type 0} → Table K → List (List ℕ)
values = map (λ e. e.1)

module _ {K : Type 0} (dec : Discrete K) where
  -- `{} if perdisk else None`
  abbrev no_devices : Bool → Counters K
  no_devices true = each []
  no_devices false = nothing

  abbrev finish : Bool → Table K → Counters K
  finish true rawdict = each rawdict
  finish false rawdict = total (sum_columns (values rawdict))

  -- `if nowrap: rawdict = _wrap_numbers(rawdict, name)`
  abbrev wrapped : Bool → K → Table K → WrapNumbers K → Result (Table K × WrapNumbers K)
  wrapped true name rawdict w = run dec rawdict name w
  wrapped false name rawdict w = ok (rawdict, w)

  abbrev finished :
      Bool → WrapNumbers K → Result (Table K × WrapNumbers K) → Result (Counters K) × WrapNumbers K
  finished by_device w (ok (rawdict, w')) = (ok (finish by_device rawdict), w')
  finished by_device w (err e) = (err e, w)

  -- `rawdict` is what the platform module answers. `nothing` is returned before the cache is touched.
  unfoldable pub io_counters :
      K → Bool → Bool → Table K → WrapNumbers K → Result (Counters K) × WrapNumbers K
  io_counters name by_device nowrap [] w = (ok (no_devices by_device), w)
  io_counters name by_device nowrap (e ∷ rest) w =
      finished by_device w (wrapped nowrap name (e ∷ rest) w)
