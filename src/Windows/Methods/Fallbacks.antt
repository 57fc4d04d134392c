-- ===== src/Windows/Methods/Fallbacks.antt =====
-- What the fallbacks of the methods come to.
use psutil.Prelude.{
  ◌≡◌, refl, Bool, true, false, if◌then◌else◌, ℕ, none, some, Option, arith, ◌⊎◌, inl, inr,
  ℕ_discrete,
}
use psutil.Prelude.Int.{ℤ, pos, sub_ℕ, ◌+ℤ◌, sub_ℕ-add}
use psutil.Prelude.Dict.{Dict, lookup}
use psutil.Windows.Errors.{
  Codes, WinError, Call, returned, refused, raised, ◌>>=◌, is_permission_err, or_fallback,
  wrap_exceptions,
}
use psutil.Windows.Errors.Handled.{wrap_exceptions-eq-returned}
use psutil.Windows.Memory.{Info}
use psutil.Windows.Methods.{ppid, by_map, page_faults}

-- A value with a fallback is the call's own, or the fallback's after a permission error.
abbrev pub IsEither : {A : Type 0} → Codes → Call A → Call A → A → Type 0
IsEither codes call fallback a =
    (call ≡ returned a)
    ⊎ ((e : WinError) × (call ≡ refused e)
        × (is_permission_err codes e ≡ true)
        × (fallback ≡ returned a))

use_fallback :
    {A : Type 0} (codes : Codes) (e : WinError) (fallback : Call A) (t : Bool) {a : A}
    → is_permission_err codes e ≡ t
    → (if t then fallback else refused e) ≡ returned a
    → IsEither codes (refused e) fallback a
use_fallback codes e fallback true p h = inr (e, refl, p, h)
use_fallback codes e fallback false p h = absurd (ground (arith, h))

pub or_fallback-IsEither :
    {A : Type 0} (codes : Codes) (call fallback : Call A) {a : A}
    → or_fallback codes call fallback ≡ returned a
    → IsEither codes call fallback a
unfolding or_fallback
or_fallback-IsEither codes (returned x) fallback h = inl h
or_fallback-IsEither codes (raised x) fallback h = absurd (ground (arith, h))
or_fallback-IsEither codes (refused e) fallback h =
    use_fallback codes e fallback (is_permission_err codes e) refl h

abbrev in_map : ℕ → Call (Dict ℕ ℕ) → Call ℕ
in_map pid ppid_map = do m ← ppid_map; by_map pid (lookup ℕ_discrete pid m)

found_parent : (pid : ℕ) (o : Option ℕ) {p : ℕ} → by_map pid o ≡ returned p → o ≡ some p
found_parent pid none h = absurd (ground (arith, h))
found_parent pid (some q) h = ground (arith, h)

in_map_value :
    (pid : ℕ) (ppid_map : Call (Dict ℕ ℕ)) {p : ℕ}
    → in_map pid ppid_map ≡ returned p
    → (m : Dict ℕ ℕ) × (ppid_map ≡ returned m) × (lookup ℕ_discrete pid m ≡ some p)
in_map_value pid (returned m) h = (m, refl, found_parent pid (lookup ℕ_discrete pid m) h)
in_map_value pid (refused e) h = absurd (ground (arith, h))
in_map_value pid (raised x) h = absurd (ground (arith, h))

-- If ppid on Windows returns a PID, the C function answered it, or it was refused for a permission error
-- and the PID stands in the map of all processes as the parent.
pub ppid_value :
    (codes : Codes) (pid : ℕ) (proc_ppid : Call ℕ) (ppid_map : Call (Dict ℕ ℕ)) (p : ℕ)
    → ppid codes pid proc_ppid ppid_map ≡ returned p
    → (proc_ppid ≡ returned p)
      ⊎ ((e : WinError) × (m : Dict ℕ ℕ) × (proc_ppid ≡ refused e)
          × (is_permission_err codes e ≡ true)
          × (ppid_map ≡ returned m)
          × (lookup ℕ_discrete pid m ≡ some p))
unfolding ppid
ppid_value codes pid proc_ppid ppid_map p h =
    elim (or_fallback-IsEither codes proc_ppid (in_map pid ppid_map)
      (wrap_exceptions-eq-returned codes pid _ h)) [
        | inl k ↦ inl k
        | inr k ↦ let (m, e, l) = in_map_value pid ppid_map k.3 in inr (k.0, m, k.1, k.2, e, l)
      ]

-- If the dict of proc_oneshot is there, the minor and the major faults that page_faults returns add up to
-- the faults that it counts.
pub page_faults_add :
    (codes : Codes) (pid : ℕ) (info : Info)
    → (minor : ℤ) × (major : ℕ) × (page_faults codes pid (returned info) ≡ returned (minor, major))
      × (minor +ℤ pos major ≡ pos info.counters.page_fault_count)
unfolding page_faults wrap_exceptions
page_faults_add codes pid info = (
  sub_ℕ info.counters.page_fault_count info.hard_faults,
  info.hard_faults,
  refl,
  sub_ℕ-add info.counters.page_fault_count info.hard_faults,
)
