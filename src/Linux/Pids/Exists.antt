-- ===== src/Linux/Pids/Exists.antt =====
-- Thread IDs are no PIDs.
use psutil.Prelude.{
  ℕ, ◌≡◌, ◌⊎◌, refl, Bool, true, false, List, Result, ok, err, Error, arith, elem, inl, inr,
}
use psutil.Text.{Bytes}
use psutil.Linux.Files.{Read, content, failed}
use psutil.Linux.Pids.{tgid_of, by_tgid, pid_exists}

from_tgid :
    (pid : ℕ) (listing : List ℕ) (r : Result ℕ)
    → by_tgid pid (ok listing) r ≡ ok true
    → (r ≡ ok pid) ⊎ (elem pid listing ≡ true)
from_tgid pid listing (ok t) h = inl (ground (arith, h))
from_tgid pid listing (err Error.value_error) h = inr (ground (arith, h))
from_tgid pid listing (err e) h = absurd (ground (arith, h))

named :
    (pid : ℕ) (listing : List ℕ) (lines : List Bytes)
    → (tgid_of lines ≡ ok pid) ⊎ (elem pid listing ≡ true)
    → ((l : List Bytes) × (content lines ≡ content l) × (tgid_of l ≡ ok pid))
      ⊎ (elem pid listing ≡ true)
named pid listing lines (inl e) = inl (lines, refl, e)
named pid listing lines (inr e) = inr e

-- If pid_exists of the Linux module answers True, the system knows the number, and it is the `Tgid` of
-- its own status file or one of the PIDs that are listed: never the ID of a further thread of a process,
-- whose status file names another `Tgid`.
pub pid_exists-listed :
    (known : Result Bool) (status : Read (List Bytes)) (listing : List ℕ) (pid : ℕ)
    → pid_exists known status (ok listing) pid ≡ ok true
    → (known ≡ ok true)
      × (((lines : List Bytes) × (status ≡ content lines) × (tgid_of lines ≡ ok pid))
          ⊎ (elem pid listing ≡ true))
unfolding pid_exists
pid_exists-listed (ok true) (failed e) listing pid h = (refl, inr (ground (arith, h)))
pid_exists-listed (ok true) (content lines) listing pid h =
    (refl, named pid listing lines (from_tgid pid listing (tgid_of lines) h))
pid_exists-listed (ok false) status listing pid h = absurd (ground (arith, h))
pid_exists-listed (err e) status listing pid h = absurd (ground (arith, h))
