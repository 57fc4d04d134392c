-- ===== src/Tests/Getters.antt =====
-- Names, executables and CPU lists.
use psutil.Prelude.{
  ◌≡◌, refl, true, false, none, List, [], ◌∷◌, Result, ok, err, Error, arith, elem, ℕ_discrete,
}
use psutil.Text.{Bytes, b, starts_with, rfind, to_int, digit, strip, contains, is_space}
use psutil.Platform.{Platform}
use psutil.Process.Getters.{Names, name, exe, guess, basename}
use psutil.Process.Getters.Answers.{Extends, name-Extends, exe_again}
use psutil.Linux.Files.{OsError, raised, raw}
use psutil.Linux.Cpus.{parse_cpulist, range_from, eligible_cpus, cpu_affinity_set, first_invalid}
use psutil.Linux.Cpus.Lists.{
  one, range, no_chunk, more, AllValid, parse_cpulist-join, cpu_affinity_set-AllValid,
}
use psutil.Text.Split.{join}

abbrev fresh : Names
fresh = record { name = none; exe = none }

abbrev keyring : Result (List Bytes)
keyring = ok (b "/usr/bin/gnome-keyring-daemon" ∷ b "--start" ∷ [])

name-Extends_run : Extends (b "gnome-keyring-d") (b "gnome-keyring-daemon")
unfolding name basename rfind starts_with
name-Extends_run =
    name-Extends Platform.linux (b "gnome-keyring-d") (b "gnome-keyring-daemon") keyring fresh refl
      refl

abbrev shell : Result (List Bytes)
shell = ok (b "/bin/sh" ∷ [])

exe_again_run :
    exe (λ e. false) (err (Error.access_denied 7)) (ok []) (exe (λ e. true) (ok []) shell fresh).1
    ≡ (ok (b "/bin/sh"), (exe (λ e. true) (ok []) shell fresh).1)
unfolding exe guess starts_with
exe_again_run =
    exe_again (λ e. true) (λ e. false) (ok []) (err (Error.access_denied 7)) shell (ok []) fresh
      (b "/bin/sh") (λ p. cc) refl

parse_cpulist-join_run : parse_cpulist (b "0-3,8") ≡ ok (0 ∷ 1 ∷ 2 ∷ 3 ∷ 8 ∷ [])
unfolding join to_int digit strip range_from contains is_space
parse_cpulist-join_run =
    parse_cpulist-join (b "0-3") (b "8" ∷ []) (0 ∷ 1 ∷ 2 ∷ 3 ∷ 8 ∷ []) (ground arith) (ground arith)
      (more (range b'0' [] (b "3") 0 3 refl refl refl (omega arith))
        (more (one b'8' [] 8 refl refl) no_chunk))

cpu_affinity_set-AllValid_run : AllValid (eligible_cpus none 4) 4 (1 ∷ 3 ∷ [])
unfolding cpu_affinity_set first_invalid eligible_cpus range_from elem ℕ_discrete
cpu_affinity_set-AllValid_run =
    cpu_affinity_set-AllValid (raised (raw OsError.invalid)) none 4 (1 ∷ 3 ∷ []) refl
