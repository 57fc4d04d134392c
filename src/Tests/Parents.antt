-- ===== src/Tests/Parents.antt =====
-- `parents` on a chain of three processes, and below a parent that became a zombie.
use psutil.Prelude.{
  ℕ, ◌≡◌, ◌≢◌, ◌==◌, refl, true, none, some, List, [], ◌∷◌, ok, err, Error, Result, arith, map,
  Option, if◌then◌else◌,
}
use psutil.Platform.{Platform}
use psutil.Process.Defs.{Process, Kernel, Kill, World, blank}
use psutil.Process.Identity.{init, create_time, eq}
use psutil.Process.Running.{is_running, raise_if_pid_reused}
use psutil.Process.Children.{probe}
use psutil.Process.Parents.{Moment, ppid, older, parent, ancestors, parents}
use psutil.Process.Parents.Chain.{Ranked, parents_total}
use psutil.Tests.World.{process}

-- Every PID runs, all since the same tick.
abbrev kernel : Kernel
kernel = record {
  getpid = 1;
  in_range = λ n. true;
  create_time_monotonic = λ n. ok 100;
  create_time_fast = λ n. ok 100;
  create_time = λ n. ok 900;
  pid_exists = λ n. true;
  kill = λ n sig. Kill.delivered;
  proc_call = λ r n. ok tt;
}

-- Nothing changes from one question to the next.
abbrev still : Kernel → ℕ → (ℕ → Result ℕ) → Moment
still k lowest ppid_of = record {
  lowest = lowest;
  check = k;
  ppid_of = ppid_of;
  own = k;
  other = k;
}

abbrev chain : ℕ → Result ℕ
chain n = if n == 3 then ok 2 else if n == 2 then ok 1 else err (Error.no_such_process n)

abbrev world_of : ℕ → World
world_of n = record { self = process n 100; pids_reused = []; requests = [] }

pids_of : Option (Result (List Process)) → List ℕ
pids_of (some (ok ps)) = map (λ (p : Process). p.pid) ps
pids_of r = []

two_parents :
    pids_of (parents Platform.linux (λ i. still kernel 1 chain) 4 (world_of 3)) ≡ 2 ∷ 1 ∷ []
unfolding pids_of parents ancestors parent ppid raise_if_pid_reused is_running init probe older
    create_time blank eq
two_parents = refl

chain-Ranked : Ranked Platform.linux (λ i. still kernel 1 chain) (λ n. n)
chain-Ranked i n q t u asked own its le = ground (arith, asked)

parents_total_example : parents Platform.linux (λ i. still kernel 1 chain) 4 (world_of 3) ≢ none
parents_total_example =
    parents_total Platform.linux (λ i. still kernel 1 chain) (λ n. n) (world_of 3) refl chain-Ranked

-- The creation time of process 2 cannot be read any more.
abbrev zombie_2 : Kernel
zombie_2 = record kernel {
  create_time = λ n. if n == 2 then err (Error.zombie_process n) else ok 900;
}

zombie_parent : (parent Platform.linux (still zombie_2 1 chain) (world_of 3)).0 ≡ ok none
unfolding parent ppid raise_if_pid_reused is_running init probe older create_time blank eq
zombie_parent = refl
