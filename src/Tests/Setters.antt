-- ===== src/Tests/Setters.antt =====
-- Setters of a process, and its memory maps in groups.
use psutil.Prelude.{ℕ, ◌≡◌, ◌≢◌, refl, false, Option, none, some, List, [], ◌∷◌, ok}
use psutil.Prelude.Int.{pos, negsuc}
use psutil.Prelude.Dict.{lookup}
use psutil.Text.{Bytes, b}
use psutil.Environ.{same_bytes}
use psutil.Platform.{Platform}
use psutil.Process.Defs.{Kernel, Kill, cpu_affinity_set}
use psutil.Process.Identity.{init, eq}
use psutil.Process.Running.{raise_if_pid_reused}
use psutil.Process.Setters.{sorted_set}
use psutil.Process.Setters.Guarded.{call_cpu_affinity, call_nice, Got, after, IsOwn, setters-safe}
use psutil.Process.Grouped.{Mapping, grouped}
use psutil.Process.Grouped.Sums.{num_at, sum_at, grouped-sum_at}
use psutil.Tests.World.{kernel, world}

abbrev linux : Platform
linux = Platform.linux

abbrev here : Kernel
here = kernel 7 100 Kill.delivered

abbrev got : Got
got = record {
  nice = ok (pos 0);
  ionice = ok 2;
  rlimit = λ r. ok (pos 1, pos 2);
  cpus = ok (3 ∷ 1 ∷ 3 ∷ []);
  eligible = ok (0 ∷ 1 ∷ []);
}

-- An empty list stands for all eligible CPUs.
all_cpus :
    (after linux here here got (call_cpu_affinity (some [])) world).requests
    ≡ (7, cpu_affinity_set (0 ∷ 1 ∷ [])) ∷ []
unfolding after raise_if_pid_reused init eq
all_cpus = refl

set_is_sorted : sorted_set (3 ∷ 1 ∷ 3 ∷ []) ≡ 1 ∷ 3 ∷ []
unfolding sorted_set
set_is_sorted = refl

setters-safe_example :
    IsOwn linux here world (after linux here here got (call_nice (some (negsuc 4))) world)
unfolding after raise_if_pid_reused init eq
setters-safe_example =
    setters-safe linux here here got (call_nice (some (negsuc 4))) world (refl, refl) (λ e. cc)

abbrev mapping : Bytes → List ℕ → Mapping
mapping path nums = record { addr = b "00-7f"; perms = b "r-xp"; path = path; nums = nums }

abbrev regions : List Mapping
regions =
    mapping (b "/lib/x") (4 ∷ 8 ∷ [])
    ∷ mapping (b "[heap]") (1 ∷ 1 ∷ [])
    ∷ mapping (b "/lib/x") (2 ∷ 3 ∷ [])
    ∷ []

grouped_run : grouped regions [] ≡ (b "/lib/x", 6 ∷ 11 ∷ []) ∷ (b "[heap]", 1 ∷ 1 ∷ []) ∷ []
unfolding grouped psutil.Prelude.ℕ_discrete
grouped_run = refl

grouped-sum_at_example :
    num_at 1 (lookup same_bytes (b "/lib/x") (grouped regions [])) ≡ sum_at 1 (b "/lib/x") regions
grouped-sum_at_example = grouped-sum_at 2 1 (b "/lib/x") regions (refl, (refl, (refl, tt)))
