-- ===== src/Tests/WinCalls.antt =====
-- Windows: errors, retries, CPU masks, waits and paths.
use psutil.Prelude.{
  ℕ, zero, suc, ◌≡◌, ◌≤◌, ◌<◌, refl, true, false, some, [], ◌∷◌, ◌++◌, map, Error, arith,
}
use psutil.Prelude.Int.{pos}
use psutil.Text.{Bytes, b, same}
use psutil.Windows.Errors.{
  Codes, WinError, Kind, Call, returned, refused, raised, ◌>>=◌, wrap_exceptions,
}
use psutil.Windows.Errors.Handled.{Explains, wrap_exceptions-Explains}
use psutil.Windows.Retry.{retry_error_partial_copy}
use psutil.Windows.Retry.Bounds.{
  delays_from, sum, is_partial, retry_error_partial_copy_first, retry_error_partial_copy_sleeps,
}
use psutil.Windows.Affinity.{cpu, cpu_affinity_set, cpu_affinity_get, from_bitmask}
use psutil.Windows.Affinity.Masks.{members_from, cpu_affinity_get-set}
use psutil.Windows.Waiting.{exited, Look, wait}
use psutil.Windows.Waiting.Ends.{IsGoneAt, wait_value, IsCode}
use psutil.Windows.Paths.{convert_dos_path, is_network}
use psutil.Windows.Paths.Drives.{path_of, letter_of, convert_dos_path-path_of}

abbrev codes : Codes
codes = record {
  access_denied = 5;
  privilege_not_held = 1314;
  invalid_name = 123;
  service_does_not_exist = 1060;
}

abbrev denied : WinError
denied = record { kind = Kind.other; winerror = 1314 }

abbrev partial_copy : WinError
partial_copy = record { kind = Kind.other; winerror = 299 }

denied_run : wrap_exceptions {A = ℕ} codes 7 (refused denied) ≡ raised (Error.access_denied 7)
unfolding wrap_exceptions
denied_run = refl

wrap_exceptions-Explains_example :
    Explains {A = ℕ} codes 7 (refused denied) (wrap_exceptions codes 7 (refused denied))
wrap_exceptions-Explains_example = wrap_exceptions-Explains codes 7 (refused denied)

-- Two partial copies, then an answer.
abbrev third : ℕ → Call ℕ
third zero = refused partial_copy
third (suc zero) = refused partial_copy
third (suc (suc n)) = returned 4

third_partial : (i : ℕ) → i < 2 → is_partial (third i) ≡ true
third_partial zero h = refl
third_partial (suc zero) h = refl
third_partial (suc (suc i)) h = absurd (omega arith)

retry_error_partial_copy_first_example :
    retry_error_partial_copy 7 third ≡ (third 2, delays_from 2 1)
retry_error_partial_copy_first_example =
    retry_error_partial_copy_first 7 third 2 (omega arith) third_partial refl

retry_error_partial_copy_sleeps_run :
    sum (retry_error_partial_copy {A = ℕ} 7 (λ i. refused partial_copy)).1 ≤ 10111
retry_error_partial_copy_sleeps_run = retry_error_partial_copy_sleeps 7 (λ i. refused partial_copy)

masks : from_bitmask 11 ≡ 0 ∷ 1 ∷ 3 ∷ []
unfolding from_bitmask
masks = refl

cpu_affinity_get-set_example :
    (mask : ℕ) × (cpu_affinity_set codes 7 4 (λ m. returned tt) (map cpu (3 ∷ 0 ∷ []))
      ≡ wrap_exceptions codes 7 (returned tt))
    × (cpu_affinity_get codes 7 (returned mask) ≡ returned (members_from (3 ∷ 0 ∷ []) 0 64))
cpu_affinity_get-set_example =
    cpu_affinity_get-set codes 7 4 (λ m. returned tt) 3 (0 ∷ []) (omega arith, (omega arith, tt))

-- The PID is there once more, and then gone.
abbrev twice : ℕ → Look
twice zero = record { exists = returned true; now = 1 }
twice (suc n) = record { exists = returned false; now = 2 }

wait_value_example : IsCode (exited (some (pos 3))) (some (pos 3)) × ((n : ℕ) × IsGoneAt twice n)
unfolding wait wrap_exceptions
wait_value_example =
    wait_value codes 7 (some 50) 100 (exited (some (pos 3))) twice 2 (some (pos 3)) refl

abbrev plain_join : Bytes → Bytes → Bytes
plain_join letter rest = letter ++ rest

device_path :
    convert_dos_path plain_join (λ d. returned (b "C:")) (b "\\Device\\HarddiskVolume1\\x.txt")
    ≡ returned (b "C:\\x.txt")
unfolding convert_dos_path
device_path = refl

convert_dos_path-path_of_run :
    convert_dos_path plain_join (λ d. returned (b "C:")) (path_of (b "??") (b "D:") (b "x.txt")) ≡ (
      letter_of plain_join (λ d. returned (b "C:")) (b "??") (b "D:")
      >>= (λ letter. returned (plain_join letter (b "\\x.txt"))))
unfolding is_network same
convert_dos_path-path_of_run =
    convert_dos_path-path_of plain_join (λ d. returned (b "C:")) b'?' (b "?") (b "D:") (b "x.txt")
      (refl, (refl, tt)) (refl, (refl, tt)) refl
