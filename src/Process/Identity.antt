-- ===== src/Process/Identity.antt =====
-- psutil/__init__.py: `Process._init`, `_get_ident`, `create_time`, `_cmp_idents`, `__eq__`,
-- `__hash__`.
pub mod Equality
pub mod Birth
use psutil.Prelude.{
  ℕ, zero, suc, Bool, true, false, not, Option, none, some, Result, ok, err, Error, Exec, ◌==◌,
  if◌then◌else◌,
}
use psutil.Prelude.Int.{ℤ, pos, negsuc}
use psutil.Platform.{Platform}
use psutil.Process.Defs.{Ident, Process, Kernel, blank}

abbrev stored : Result ℕ → Process → Result ℕ × Process
stored (ok t) p = (ok t, record p { create_time = some t })
stored (err e) p = (err e, p)

-- `Process.create_time`, with nothing prefetched: cached after the first call.
unfoldable pub create_time : Kernel → Exec Process ℕ
create_time k p = elim p.create_time [ some t ↦ (ok t, p) | none ↦ stored (k.create_time p.pid) p ]

abbrev with_ctime : ℕ → Result ℕ → Result Ident
with_ctime pid (ok t) = ok (record { pid = pid; ctime = some t })
with_ctime pid (err e) = err e

abbrev without_ctime : ℕ → Result ℕ → Result Ident
without_ctime pid (ok t) = ok (record { pid = pid; ctime = none })
without_ctime pid (err e) = err e

monotonic_ident : Kernel → Exec Process Ident
monotonic_ident k p = (with_ctime p.pid (k.create_time_monotonic p.pid), p)

unfoldable pub get_ident : Platform → Kernel → Exec Process Ident
unfolding create_time monotonic_ident
get_ident Platform.windows k p =
    let (r, p') = stored (k.create_time_fast p.pid) p in (with_ctime p.pid r, p')
get_ident Platform.linux k p = monotonic_ident k p
get_ident Platform.netbsd k p = monotonic_ident k p
get_ident Platform.macos k p = monotonic_ident k p
get_ident _ k p = let (r, p') = create_time k p in (without_ctime p.pid r, p')

-- The handlers round `_get_ident` in `_init`, in the order in which they stand.
abbrev settle : Bool → Result Ident → Process → Result Process
settle ignore_nsp (ok i) p = ok (record p { ident = i })
settle ignore_nsp (err (Error.access_denied _)) p = ok p
settle ignore_nsp (err (Error.zombie_process _)) p = ok p
settle ignore_nsp (err (Error.no_such_process _)) p =
    if ignore_nsp then ok (record p { gone = true }) else err (Error.no_such_process p.pid)
settle ignore_nsp (err e) p = err e

construct : Platform → Kernel → Bool → ℕ → Result Process
construct os k ignore_nsp pid = let (r, p) = get_ident os k (blank pid) in settle ignore_nsp r p

-- `Process(pid)`; with `ignore_nsp` as `Popen` calls it.
unfoldable pub init : Platform → Kernel → Bool → Option ℤ → Result Process
unfolding construct get_ident blank
init os k ignore_nsp none = construct os k ignore_nsp k.getpid
init os k ignore_nsp (some (negsuc n)) = err Error.value_error
init os k ignore_nsp (some (pos n)) =
    if k.in_range n then construct os k ignore_nsp n else err (Error.no_such_process n)

pub data Comparison : Type 0 where
  same different unknown : Comparison

-- `not ctime`
abbrev pub is_null : Option ℕ → Bool
is_null none = true
is_null (some zero) = true
is_null (some (suc _)) = false

abbrev same_ctime : Option ℕ → Option ℕ → Comparison
same_ctime (some a) (some b) = if a == b then Comparison.same else Comparison.different
same_ctime _ _ = Comparison.different

unfoldable pub cmp_idents : Ident → Ident → Comparison
cmp_idents a b =
    if not (a.pid == b.pid)
    then Comparison.different
    else if is_null a.ctime
    then Comparison.unknown
    else if is_null b.ctime
    then Comparison.unknown
    else same_ctime a.ctime b.ctime

abbrev not_different : Comparison → Bool
not_different Comparison.different = false
not_different _ = true

-- `__eq__` between two `Process` objects.
unfoldable pub eq : Process → Process → Bool
unfolding cmp_idents
eq p q = not_different (cmp_idents p.ident q.ident)

-- `__hash__`, cached; `hash` is Python's own hash of a number.
unfoldable pub hash_of : (ℕ → ℕ) → Process → ℕ × Process
hash_of hash p = elim p.hash [
  | some h ↦ (h, p)
  | none ↦ (hash p.ident.pid, record p { hash = some (hash p.ident.pid) })
]
