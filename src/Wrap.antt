-- ===== src/Wrap.antt =====
-- psutil/_common.py: `_WrapNumbers`, which keeps counters from going back when the kernel's
-- wrap. Keys (disks, NICs) and the names of the callers are text of which only equality is used.

pub mod Sets
pub mod Dead
pub mod Adjust
pub mod Loop
pub mod Rerun
pub mod Run
pub mod Increment
pub mod Odometer
use psutil.Prelude.{
  ℕ, suc, ◌+◌, ap, ◌>>=◌, Bool, true, false, Option, none, some, List, [], ◌∷◌, ite, ℕ_discrete,
  Result, ok, err, Error, ltb, if◌then◌else◌,
}
use psutil.Prelude.Dict.{Dict, lookup, insert, erase}

-- `input_dict`: the raw counters by key.
abbrev pub Table : Type 0 → Type 0
Table K = Dict K (List ℕ)

-- `remkey`: a key and the position of a counter.
abbrev pub RemKey : Type 0 → Type 0
RemKey K = K × ℕ

-- `self.reminders[name]` and `self.reminder_keys[name]`, which are `defaultdict`s.
pub record Reminders (K : Type 0) : Type 0 where
  pub totals : Dict (RemKey K) ℕ
  pub keys : Dict K (List (RemKey K))

pub record WrapNumbers (K : Type 0) : Type 0 where
  pub cache : Dict K (Table K)
  pub reminders : Dict K (Dict (RemKey K) ℕ)
  pub reminder_keys : Dict K (Dict K (List (RemKey K)))

-- `__init__`
abbrev pub empty : {K : Type 0} → WrapNumbers K
empty = record { cache = []; reminders = []; reminder_keys = [] }

-- A `defaultdict`'s value at a missing key.
abbrev pub or_default {ℓ} : {A : Type ℓ} → A → Option A → A
or_default d none = d
or_default d (some a) = a

module _ {K : Type 0} (dec : Discrete K) where
  unfoldable pub dec_remkey : Discrete (RemKey K)
  dec_remkey (a, i) (b, j) = elim (dec a b) [
    | yes p ↦ elim (ℕ_discrete i j) [
      | yes q ↦ yes (λ t. (p t, q t))
      | no ne ↦ no (λ e. ne (ap (λ (r : RemKey K). r.1) e))
    ]
    | no ne ↦ no (λ e. ne (ap (λ (r : RemKey K). r.0) e))
  ]

  -- `remkey in s`
  unfoldable pub contains : RemKey K → List (RemKey K) → Bool
  contains r [] = false
  contains r (x ∷ xs) = ite (dec_remkey x r) true (contains r xs)

  -- `s.add(remkey)`
  unfoldable pub add : RemKey K → List (RemKey K) → List (RemKey K)
  unfolding contains
  add r rs = if contains r rs then rs else r ∷ rs

  -- `self.reminders[name][remkey]` and `self.reminder_keys[name][key]`, as read.
  unfoldable pub total : RemKey K → Reminders K → ℕ
  total r rem = or_default 0 (lookup dec_remkey r rem.totals)

  unfoldable pub keys_of : K → Reminders K → List (RemKey K)
  keys_of k rem = or_default [] (lookup dec k rem.keys)

  -- `for remkey in …: del self.reminders[name][remkey]`
  unfoldable pub drop_totals : List (RemKey K) → Dict (RemKey K) ℕ → Result (Dict (RemKey K) ℕ)
  drop_totals [] t = ok t
  drop_totals (r ∷ rs) t = elim (lookup dec_remkey r t) [
    | none ↦ err Error.key_error
    | some _ ↦ drop_totals rs (erase dec_remkey r t)
  ]

  -- The body of the loop over `gone_keys`.
  unfoldable pub drop_key : K → Reminders K → Result (Reminders K)
  unfolding drop_totals
  drop_key g rem = do
    t ← drop_totals (keys_of g rem) rem.totals
    ok (record { totals = t; keys = erase dec g rem.keys })

  -- `_remove_dead_reminders`: the keys of `old` that `input` lacks are gone.
  unfoldable pub remove_dead : Table K → Table K → Reminders K → Result (Reminders K)
  unfolding drop_key
  remove_dead [] input rem = ok rem
  remove_dead ((k, _) ∷ old) input rem = elim (lookup dec k input) [
    | some _ ↦ remove_dead old input rem
    | none ↦ do rem' ← drop_key k rem; remove_dead old input rem'
  ]

  -- One counter: its reminder grows if it wrapped. Reading the `defaultdict` stores what it read.
  unfoldable pub bump : K → ℕ → ℕ → ℕ → Reminders K → Reminders K
  unfolding total add keys_of
  bump key i input_value old_value rem =
      if ltb input_value old_value
      then record {
        totals = insert dec_remkey (key, i) (total (key, i) rem + old_value) rem.totals;
        keys = insert dec key (add (key, i) (keys_of key rem)) rem.keys;
      }
      else record rem { totals = insert dec_remkey (key, i) (total (key, i) rem) rem.totals }

  -- The loop over the positions of one key, from position `i`.
  unfoldable pub adjust : K → ℕ → List ℕ → List ℕ → Reminders K → Result (List ℕ × Reminders K)
  unfolding bump total
  adjust key i [] old rem = ok ([], rem)
  adjust key i (x ∷ xs) [] rem = err Error.index_error
  adjust key i (x ∷ xs) (o ∷ old) rem =
      let rem' = bump key i x o rem in
      do
        (bits, rem'') ← adjust key (suc i) xs old rem'
        ok ((x + total (key, i) rem') ∷ bits, rem'')

  -- The loop over the keys of `input_dict`; `new` is `new_dict`.
  unfoldable pub adjust_all :
      Table K → Table K → Table K → Reminders K → Result (Table K × Reminders K)
  unfolding adjust
  adjust_all [] old new rem = ok (new, rem)
  adjust_all ((key, xs) ∷ input) old new rem = elim (lookup dec key old) [
    | none ↦ adjust_all input old (insert dec key xs new) rem
    | some os ↦ do
      (bits, rem') ← adjust key 0 xs os rem
      adjust_all input old (insert dec key bits new) rem'
  ]

  abbrev or_key_error {ℓ} : {A : Type ℓ} → Option A → Result A
  or_key_error none = err Error.key_error
  or_key_error (some a) = ok a

  abbrev absent {ℓ} : {A : Type ℓ} → Option A → Result (Unit {0})
  absent none = ok tt
  absent (some a) = err Error.assertion_error

  -- `_add_dict`, with its three assertions.
  unfoldable pub add_dict : K → Table K → WrapNumbers K → Result (WrapNumbers K)
  add_dict name input w = do
    _ ← absent (lookup dec name w.cache)
    _ ← absent (lookup dec name w.reminders)
    _ ← absent (lookup dec name w.reminder_keys)
    ok (record {
      cache = insert dec name input w.cache;
      reminders = insert dec name [] w.reminders;
      reminder_keys = insert dec name [] w.reminder_keys;
    })

  -- The part of `run` after the first call for `name`, over that name's own dicts.
  unfoldable pub rerun : Table K → Table K → Reminders K → Result (Table K × Reminders K)
  unfolding remove_dead adjust_all
  rerun input old rem = do rem' ← remove_dead old input rem; adjust_all input old [] rem'

  unfoldable pub run : Table K → K → WrapNumbers K → Result (Table K × WrapNumbers K)
  unfolding add_dict rerun
  run input name w = elim (lookup dec name w.cache) [
    | none ↦ do w' ← add_dict name input w; ok (input, w')
    | some old ↦ do
      totals ← or_key_error (lookup dec name w.reminders)
      keys ← or_key_error (lookup dec name w.reminder_keys)
      (new, rem) ← rerun input old (record { totals = totals; keys = keys })
      ok (
        new,
        record {
          cache = insert dec name input w.cache;
          reminders = insert dec name rem.totals w.reminders;
          reminder_keys = insert dec name rem.keys w.reminder_keys;
        },
      )
  ]

  -- `cache_clear`, of every name or of one.
  unfoldable pub cache_clear : Option K → WrapNumbers K → WrapNumbers K
  cache_clear none w = empty
  cache_clear (some name) w = record {
    cache = erase dec name w.cache;
    reminders = erase dec name w.reminders;
    reminder_keys = erase dec name w.reminder_keys;
  }
