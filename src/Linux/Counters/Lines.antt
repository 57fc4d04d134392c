-- ===== src/Linux/Counters/Lines.antt =====
-- Which devices are left out with perdisk=False.
use psutil.Prelude.{
  ℕ, ◌≡◌, refl, ap, Bool, true, false, none, List, [], ◌∷◌, Result, ok, err, Error, arith,
  Result-cases, inl, inr, if◌then◌else◌,
}
use psutil.Prelude.Dict.{lookup, insert, lookup-insert}
use psutil.Text.{Bytes}
use psutil.Environ.{same_bytes}
use psutil.Linux.Counters.{
  Entry, Devices, in_bytes, add_entry, add_entries, DiskStats, procfs, sysfs, nowhere, procfs_line,
  sysfs_entry, disk_io_counters,
}

module _ (is_storage_device : Bytes → Bool) where
  -- `small` has the devices of `large` that are storage devices.
  abbrev Selects : Devices → Devices → Type 0
  Selects small large =
      (name : Bytes)
      → lookup same_bytes name small
        ≡ (if is_storage_device name then lookup same_bytes name large else none)

  abbrev added : Bytes → Bool → List ℕ → Devices → Devices
  added k is ns small = if is then insert same_bytes k (in_bytes ns) small else small

  lookup-added :
      (k name : Bytes) (ns : List ℕ) (small large : Devices) (is : Bool)
      → is_storage_device k ≡ is
      → lookup same_bytes name small
        ≡ (if is_storage_device name then lookup same_bytes name large else none)
      → lookup same_bytes name (added k is ns small) ≡ (
          if is_storage_device name
          then lookup same_bytes name (insert same_bytes k (in_bytes ns) large)
          else none)
  lookup-added k name ns small large is e h = elim (same_bytes k name) [
    | yes p ↦ ground (
      arith,
      h,
      e,
      ap is_storage_device p,
      lookup-insert same_bytes k name (in_bytes ns) small,
      lookup-insert same_bytes k name (in_bytes ns) large,
    )
    | no p ↦ ground (
      arith,
      h,
      e,
      lookup-insert same_bytes k name (in_bytes ns) small,
      lookup-insert same_bytes k name (in_bytes ns) large,
    )
  ]

  add_entry-Selects :
      (e : Entry) (small large : Devices)
      → Selects small large
      → Selects
          (add_entry false is_storage_device e small)
          (add_entry true is_storage_device e large)
  unfolding add_entry
  add_entry-Selects (k, ns) small large h name =
      lookup-added k name ns small large (is_storage_device k) refl (h name)

  -- What the two runs come to: the same error, or dicts of which one selects from the other.
  pub data Agree : Result Devices → Result Devices → Type 0 where
    raise : (x : Error) → Agree (err x) (err x)
    select : (small large : Devices) → Selects small large → Agree (ok small) (ok large)

  add_entries-Agree :
      {L : Type 0} (entry : L → Result Entry) (lines : List L) (small large : Devices)
      → Selects small large
      → Agree
          (add_entries entry false is_storage_device lines small)
          (add_entries entry true is_storage_device lines large)
  unfolding add_entries
  add_entries-Agree entry [] small large h = select small large h
  add_entries-Agree entry (line ∷ lines) small large h = elim (Result-cases (entry line)) [
    | inr (x, e) ↦ rw e (raise x)
    | inl (f, e) ↦ rw e (
        add_entries-Agree entry lines (add_entry false is_storage_device f small)
          (add_entry true is_storage_device f large) (add_entry-Selects f small large h))
  ]

  start-Selects : Selects [] []
  unfolding lookup
  start-Selects name = ground arith

  -- For any answer of `is_storage_device` to the names: with perdisk=False, `disk_io_counters` of the Linux
  -- module has exactly the devices whose names pass that test, with the numbers that they have with
  -- perdisk=True; and it raises exactly what that raises.
  pub disk_io_counters-Agree :
      (stats : DiskStats)
      → Agree
          (disk_io_counters false is_storage_device stats)
          (disk_io_counters true is_storage_device stats)
  unfolding disk_io_counters
  disk_io_counters-Agree (procfs lines) = add_entries-Agree procfs_line lines [] [] start-Selects
  disk_io_counters-Agree (sysfs files) = add_entries-Agree sysfs_entry files [] [] start-Selects
  disk_io_counters-Agree nowhere = raise Error.not_implemented
